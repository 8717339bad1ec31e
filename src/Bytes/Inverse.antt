-- ===== src/Bytes/Inverse.antt =====
-- A successful read took exactly the bytes that the matching Put function writes.
use clipp.Prelude.{
  ℕ, ◌+◌, ◌%◌, ◌*◌, ◌^◌, ◌<◌, ◌≡◌, >>=-eq-some, subst, some, [], ◌∷◌, ◌++◌, ltb, length, take, drop,
  arith, take-append-drop, length-take, Bool-cases, inl, inr, All-take, All-drop,
}
use clipp.Bytes.{
  Bytes, AllBytes, IsByte, u64_mod, put_u16, put_u32, put_u64, shift_in, read_string, read_u8,
  read_u16, read_u32, read_u64,
}

-- What a successful read of `n` bytes says.
pub record Taken (n : ℕ) (bs p rest : Bytes) : Type 0 where
  pub whole : bs ≡ p ++ rest
  pub size : length p ≡ n
  pub front_bytes : AllBytes p
  pub rest_bytes : AllBytes rest

pub read_string-inv :
    (n : ℕ) (bs p rest : Bytes)
    → AllBytes bs
    → read_string n bs ≡ some (p, rest)
    → Taken n bs p rest
unfolding read_string
read_string-inv n bs p rest h e = elim (Bool-cases (ltb (length bs) n)) [
  | inl short ↦ ground arith
  | inr enough ↦
      let q : take n bs ≡ p = ground arith in
      let r : drop n bs ≡ rest = ground arith in
      record {
        whole = rw (← q, ← r, take-append-drop n bs);
        size = rw (← q) (ground (arith, length-take n bs));
        front_bytes = rw (← q) (All-take IsByte n bs h);
        rest_bytes = rw (← r) (All-drop IsByte n bs h);
      }
]

-- What a successful read of an integer says: `put` is the Put function of its width.
pub record Decoded (put : ℕ → Bytes) (bound v : ℕ) (bs rest : Bytes) : Type 0 where
  pub whole : bs ≡ put v ++ rest
  pub below : v < bound
  pub rest_bytes : AllBytes rest

pub read_u8-inv :
    (bs : Bytes) (v : ℕ) (rest : Bytes)
    → AllBytes bs
    → read_u8 bs ≡ some (v, rest)
    → Decoded (λ b. b ∷ []) 256 v bs rest
unfolding read_u8
read_u8-inv [] v rest h e = cc
read_u8-inv (a ∷ bs) v rest h e = record {
  whole = ground arith;
  below = ground arith;
  rest_bytes = subst AllBytes (ground arith) h.1;
}

pub read_u16-inv :
    (bs : Bytes) (v : ℕ) (rest : Bytes)
    → AllBytes bs
    → read_u16 bs ≡ some (v, rest)
    → Decoded put_u16 (2 ^ 16) v bs rest
unfolding read_u16 put_u16
read_u16-inv [] v rest h e = cc
read_u16-inv (a ∷ []) v rest h e = cc
read_u16-inv (a ∷ b ∷ bs) v rest h e = record {
  whole = ground arith;
  below = ground arith;
  rest_bytes = subst AllBytes (ground arith) h.1.1;
}

pub read_u32-inv :
    (bs : Bytes) (v : ℕ) (rest : Bytes)
    → AllBytes bs
    → read_u32 bs ≡ some (v, rest)
    → Decoded put_u32 (2 ^ 32) v bs rest
unfolding read_u32 put_u32
read_u32-inv [] v rest h e = cc
read_u32-inv (a ∷ []) v rest h e = cc
read_u32-inv (a ∷ b ∷ []) v rest h e = cc
read_u32-inv (a ∷ b ∷ c ∷ []) v rest h e = cc
read_u32-inv (a ∷ b ∷ c ∷ d ∷ bs) v rest h e = record {
  whole = ground arith;
  below = ground arith;
  rest_bytes = subst AllBytes (ground arith) h.1.1.1.1;
}

put_u64-shift_in :
    (a b c d e f g k : ℕ)
    → AllBytes (a ∷ b ∷ c ∷ d ∷ e ∷ f ∷ g ∷ k ∷ [])
    → put_u64 (shift_in 0 (a ∷ b ∷ c ∷ d ∷ e ∷ f ∷ g ∷ k ∷ [])) ≡ a ∷ b ∷ c ∷ d ∷ e ∷ f ∷ g ∷ k ∷ []
unfolding put_u64 shift_in
put_u64-shift_in a b c d e f g k h = ground arith

shift_in-lt : (out : ℕ) (bs : Bytes) → out < u64_mod → AllBytes bs → shift_in out bs < u64_mod
unfolding shift_in
shift_in-lt out [] h k = h
shift_in-lt out (b ∷ bs) h (kb, k) = shift_in-lt (out * 256 % u64_mod + b) bs (omega arith) k

-- Eight bytes are the ones that put_u64 writes for their value.
pub put_u64-value :
    (p : Bytes)
    → length p ≡ 8
    → AllBytes p
    → (put_u64 (shift_in 0 p) ≡ p) × (shift_in 0 p < u64_mod)
put_u64-value (a ∷ b ∷ c ∷ d ∷ e ∷ f ∷ g ∷ k ∷ []) n h =
    (put_u64-shift_in a b c d e f g k h, shift_in-lt 0 _ (omega arith) h)
put_u64-value p n h = absurd (omega arith)

pub read_u64-inv :
    (bs : Bytes) (v : ℕ) (rest : Bytes)
    → AllBytes bs
    → read_u64 bs ≡ some (v, rest)
    → Decoded put_u64 u64_mod v bs rest
unfolding read_u64
read_u64-inv bs v rest h e =
    let (pr, took, done) = >>=-eq-some (read_string 8 bs) _ e in
    let t = read_string-inv 8 bs pr.0 pr.1 h took in
    let w = put_u64-value pr.0 t.size t.front_bytes in
    let hv : shift_in 0 pr.0 ≡ v = ground arith in
    let hr : pr.1 ≡ rest = ground arith in
    record {
      whole = rw (← hv, w.0, ← hr) t.whole;
      below = subst (λ x. x < u64_mod) hv w.1;
      rest_bytes = subst AllBytes hr t.rest_bytes;
    }
