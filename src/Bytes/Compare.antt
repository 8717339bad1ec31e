-- ===== src/Bytes/Compare.antt =====
-- Big-endian integers compare as byte strings the way they compare as numbers.
use clipp.Prelude.{
  ℕ, ◌/◌, ◌%◌, ◌<◌, ◌≡◌, [], ◌∷◌, ◌++◌, ltb, length, length-append, refl, ◌==◌, ◌^◌, if◌then◌else◌,
  arith, false, list_less, list_beq, ℕ_order, list_order,
}
use clipp.Bytes.{Bytes, u64_mod, put_u64, put_u16, put_u32}

-- Strings with equal fronts of one length compare by what follows.
pub list_less-append :
    (p q xs ys : Bytes)
    → length p ≡ length q
    → list_less (p ++ xs) (q ++ ys) ≡ (if list_beq p q then list_less xs ys else list_less p q)
unfolding list_less list_beq
list_less-append [] [] xs ys h = ground arith
list_less-append [] (y ∷ q) xs ys h = absurd (omega arith)
list_less-append (x ∷ p) [] xs ys h = absurd (omega arith)
list_less-append (x ∷ p) (y ∷ q) xs ys h = ground (arith, list_less-append p q xs ys)

list_beq-append :
    (p q xs ys : Bytes)
    → length p ≡ length q
    → list_beq (p ++ xs) (q ++ ys) ≡ (if list_beq p q then list_beq xs ys else false)
unfolding list_beq
list_beq-append [] [] xs ys h = ground arith
list_beq-append [] (y ∷ q) xs ys h = absurd (omega arith)
list_beq-append (x ∷ p) [] xs ys h = absurd (omega arith)
list_beq-append (x ∷ p) (y ∷ q) xs ys h = ground (arith, list_beq-append p q xs ys)

-- `put` writes numbers below `bound` in one length, and keeps their order.
record KeepsOrder (bound : ℕ) (put : ℕ → Bytes) : Type 0 where
  sized : (a b : ℕ) → length (put a) ≡ length (put b)
  ordered : (a b : ℕ) → a < bound → b < bound → list_less (put a) (put b) ≡ ltb a b
  told_apart : (a b : ℕ) → a < bound → b < bound → list_beq (put a) (put b) ≡ (a == b)

KeepsOrder-u8 : KeepsOrder 256 (λ v. v ∷ [])
unfolding list_less list_beq
KeepsOrder-u8 = record {
  sized = λ a b. refl;
  ordered = λ a b h k. ground arith;
  told_apart = λ a b h k. ground arith;
}

module _ (n : ℕ) (put : ℕ → Bytes) (k : KeepsOrder n put) (a b c d : ℕ) where
  less_halves :
      a < n
      → b < n
      → c < n
      → d < n
      → list_less (put a ++ put c) (put b ++ put d) ≡ (if a == b then ltb c d else ltb a b)
  less_halves ha hb hc hd = ground (
    arith,
    list_less-append (put a) (put b) (put c) (put d) (k.sized a b),
    k.ordered a b,
    k.ordered c d,
    k.told_apart a b,
  )

  beq_halves :
      a < n
      → b < n
      → c < n
      → d < n
      → list_beq (put a ++ put c) (put b ++ put d) ≡ (if a == b then c == d else false)
  beq_halves ha hb hc hd = ground (
    arith,
    list_beq-append (put a) (put b) (put c) (put d) (k.sized a b),
    k.told_apart c d,
    k.told_apart a b,
  )

  size_halves : length (put a ++ put c) ≡ length (put b ++ put d)
  size_halves = omega (
    arith,
    length-append (put a) (put c),
    length-append (put b) (put d),
    k.sized a b,
    k.sized c d,
  )

put_u16_halves : (v : ℕ) → put_u16 v ≡ (v / 2 ^ 8 % 256 ∷ []) ++ (v % 256 ∷ [])
unfolding put_u16
put_u16_halves v = refl

put_u32_halves : (v : ℕ) → put_u32 v ≡ put_u16 (v / 2 ^ 16) ++ put_u16 (v % 2 ^ 16)
unfolding put_u32 put_u16
put_u32_halves v = ground arith

put_u64_halves : (v : ℕ) → put_u64 v ≡ put_u32 (v / 2 ^ 32) ++ put_u32 (v % 2 ^ 32)
unfolding put_u64 put_u32
put_u64_halves v = ground arith

KeepsOrder-u16 : KeepsOrder (2 ^ 16) put_u16
KeepsOrder-u16 =
    let half = λ (a b : ℕ).
      size_halves 256 _ KeepsOrder-u8 (a / 2 ^ 8 % 256) (b / 2 ^ 8 % 256) (a % 256) (b % 256) in
    record {
      sized = λ a b. rw (put_u16_halves a, put_u16_halves b) (half a b);
      ordered = λ a b h k.
          rw
            (
              put_u16_halves a,
              put_u16_halves b,
              less_halves 256 _ KeepsOrder-u8 (a / 2 ^ 8 % 256) (b / 2 ^ 8 % 256) (a % 256)
                  (b % 256) (omega arith) (omega arith) (omega arith) (omega arith),
            )
            (ground arith);
      told_apart = λ a b h k.
          rw
            (
              put_u16_halves a,
              put_u16_halves b,
              beq_halves 256 _ KeepsOrder-u8 (a / 2 ^ 8 % 256) (b / 2 ^ 8 % 256) (a % 256) (b % 256)
                  (omega arith) (omega arith) (omega arith) (omega arith),
            )
            (ground arith);
    }

KeepsOrder-u32 : KeepsOrder (2 ^ 32) put_u32
KeepsOrder-u32 = record {
  sized = λ a b.
      rw (put_u32_halves a, put_u32_halves b) (size_halves (2 ^ 16) put_u16 KeepsOrder-u16 _ _ _ _);
  ordered = λ a b h k.
      rw
        (
          put_u32_halves a,
          put_u32_halves b,
          less_halves (2 ^ 16) put_u16 KeepsOrder-u16 (a / 2 ^ 16) (b / 2 ^ 16) (a % 2 ^ 16)
              (b % 2 ^ 16) (omega arith) (omega arith) (omega arith) (omega arith),
        )
        (ground arith);
  told_apart = λ a b h k.
      rw
        (
          put_u32_halves a,
          put_u32_halves b,
          beq_halves (2 ^ 16) put_u16 KeepsOrder-u16 (a / 2 ^ 16) (b / 2 ^ 16) (a % 2 ^ 16)
              (b % 2 ^ 16) (omega arith) (omega arith) (omega arith) (omega arith),
        )
        (ground arith);
}

pub list_less-put_u64 :
    (u v : ℕ) → u < u64_mod → v < u64_mod → list_less (put_u64 u) (put_u64 v) ≡ ltb u v
list_less-put_u64 a b h k =
    rw
      (
        put_u64_halves a,
        put_u64_halves b,
        less_halves (2 ^ 32) put_u32 KeepsOrder-u32 (a / 2 ^ 32) (b / 2 ^ 32) (a % 2 ^ 32)
            (b % 2 ^ 32) (omega arith) (omega arith) (omega arith) (omega arith),
      )
      (ground arith)

pub list_beq-put_u64 :
    (u v : ℕ) → u < u64_mod → v < u64_mod → list_beq (put_u64 u) (put_u64 v) ≡ (u == v)
list_beq-put_u64 a b h k =
    rw
      (
        put_u64_halves a,
        put_u64_halves b,
        beq_halves (2 ^ 32) put_u32 KeepsOrder-u32 (a / 2 ^ 32) (b / 2 ^ 32) (a % 2 ^ 32)
            (b % 2 ^ 32) (omega arith) (omega arith) (omega arith) (omega arith),
      )
      (ground arith)
