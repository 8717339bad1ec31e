-- ===== src/RegisterWire/Strict.antt =====
-- What the decoders accept: successful reads of the fields, and of whole frames.
use clipp.Prelude.{
  ℕ, ◌^◌, ◌%◌, ◌≤◌, ◌≡◌, refl, sym, subst, ap, ◌∙◌, Bool, true, false, some, [], ◌∷◌, ◌++◌, leb,
  length, arith, >>=-eq-some, guard, is_empty, append_assoc,
}
use clipp.Bytes.{Bytes, AllBytes, put_u16, read_u16, read_string}
use clipp.Bytes.Inverse.{read_string-inv, read_u16-inv}
use clipp.Clock.{Hlc, IsHlc, pack, unpack}
use clipp.Clock.Wire.{pack-unpack, unpack-IsHlc}
use clipp.RegisterWire.{put_hlc, read_hlc, read_host_id, host_id_size, read_short}

-- The input was `front` and then `rest`.
pub record Parsed (front bs rest : Bytes) : Type 0 where
  pub whole : bs ≡ front ++ rest
  pub rest_bytes : AllBytes rest

pub guard-inv : (b : Bool) {u : Unit {0}} → guard b ≡ some u → b ≡ true
guard-inv true h = refl
guard-inv false h = cc

pub is_empty-inv : (bs : Bytes) → is_empty bs ≡ true → bs ≡ []
is_empty-inv [] h = refl
is_empty-inv (b ∷ bs) h = cc

pub read_hlc-inv :
    (bs : Bytes) (h : Hlc) (rest : Bytes)
    → AllBytes bs
    → read_hlc bs ≡ some (h, rest)
    → Parsed (put_hlc h) bs rest × IsHlc h
unfolding read_hlc put_hlc
read_hlc-inv bs h rest a e =
    let (p, took, done) = >>=-eq-some (read_string 16 bs) _ e in
    let t = read_string-inv 16 bs p.0 p.1 a took in
    let hu : unpack p.0 ≡ h = ground arith in
    let hr : p.1 ≡ rest = ground arith in
    (
      record {
        whole =
            t.whole
            ∙ (λ i. sym (pack-unpack p.0 t.size t.front_bytes) i ++ hr i)
            ∙ ap (λ (x : Hlc). pack x ++ rest) hu;
        rest_bytes = subst AllBytes hr t.rest_bytes;
      },
      subst IsHlc hu (unpack-IsHlc p.0 t.size t.front_bytes),
    )

pub read_host_id-inv :
    (bs id rest : Bytes)
    → AllBytes bs
    → read_host_id bs ≡ some (id, rest)
    → Parsed id bs rest × (length id ≡ host_id_size)
unfolding read_host_id
read_host_id-inv bs id rest a e =
    let t = read_string-inv host_id_size bs id rest a e in
    (record { whole = t.whole; rest_bytes = t.rest_bytes }, t.size)

pub read_short-inv :
    (bound : ℕ) (bs xs rest : Bytes)
    → AllBytes bs
    → read_short bound bs ≡ some (xs, rest)
    → Parsed (put_u16 (length xs % 2 ^ 16) ++ xs) bs rest × (length xs ≤ bound)
unfolding read_short
read_short-inv bound bs xs rest a e =
    let (p, size, e₁) = >>=-eq-some (read_u16 bs) _ e in
    let (_, ok, e₂) = >>=-eq-some (guard (leb p.0 bound)) _ e₁ in
    let d = read_u16-inv bs p.0 p.1 a size in
    let t = read_string-inv p.0 p.1 xs rest d.rest_bytes e₂ in
    let n : p.0 ≡ length xs % 2 ^ 16 = omega (arith, d.below, t.size) in
    (
      record {
        whole =
            d.whole
            ∙ (λ i. put_u16 (n i) ++ t.whole i)
            ∙ sym (append_assoc (put_u16 (length xs % 2 ^ 16)) xs rest);
        rest_bytes = t.rest_bytes;
      },
      ground (arith, guard-inv (leb p.0 bound) ok, t.size),
    )
