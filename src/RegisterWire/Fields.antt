-- ===== src/RegisterWire/Fields.antt =====
-- Round trips of the fields of the frames, with any bytes behind them.
use clipp.Prelude.{
  ℕ, ◌^◌, ◌%◌, ◌≤◌, ◌<◌, ◌≡◌, refl, sym, subst, ap, ◌∙◌, Option, some, le→leb, List, [], ◌∷◌, ◌++◌,
  ltb, length, take, map, append-nil, length-take, append_assoc, arith, take_all, Bool-cases, inl,
  inr, All,
}
use clipp.Bytes.{Bytes, put_u16, read_string}
use clipp.Bytes.RoundTrip.{read_string-append, read_u16_put}
use clipp.Clock.{Hlc, IsHlc, pack}
use clipp.Clock.Wire.{length-pack, unpack-pack}
use clipp.RegisterWire.{
  put_hlc, read_hlc, read_host_id, host_id_size, read_short, put_capped, cap, encode_entries,
  read_entries,
}

pub read_sized :
    (n : ℕ) (xs rest : Bytes) → length xs ≡ n → read_string n (xs ++ rest) ≡ some (xs, rest)
read_sized n xs rest e =
    subst (λ k. read_string k (xs ++ rest) ≡ some (xs, rest)) e (read_string-append xs rest)

pub read_hlc_put :
    (h : Hlc) (rest : Bytes) → IsHlc h → read_hlc (put_hlc h ++ rest) ≡ some (h, rest)
unfolding read_hlc put_hlc
read_hlc_put h rest v = rw (read_sized 16 (pack h) rest (length-pack h)) (rw (unpack-pack h v))

pub read_host_id_put :
    (id rest : Bytes) → length id ≡ host_id_size → read_host_id (id ++ rest) ≡ some (id, rest)
unfolding read_host_id
read_host_id_put id rest e = read_sized host_id_size id rest e

read_short_exact :
    (bound : ℕ) (xs rest : Bytes)
    → length xs ≤ bound
    → bound < 2 ^ 16
    → read_short bound (put_u16 (length xs) ++ (xs ++ rest)) ≡ some (xs, rest)
unfolding read_short
read_short_exact bound xs rest h k =
    rw (read_u16_put (length xs) (xs ++ rest) (omega arith), le→leb (length xs) bound h)
      (read_string-append xs rest)

-- A short field is read back if it is within the bound, which fits sixteen bits.
pub read_short_put :
    (bound : ℕ) (xs rest : Bytes)
    → length xs ≤ bound
    → bound < 2 ^ 16
    → read_short bound (put_u16 (length xs % 2 ^ 16) ++ (xs ++ rest)) ≡ some (xs, rest)
read_short_put bound xs rest h k =
    let same : length xs % 2 ^ 16 ≡ length xs = omega arith in
    rw same (read_short_exact bound xs rest h k)

pub take-cap {ℓ} :
    {A : Type ℓ} (bound : ℕ) (xs : List A) → take (cap bound (length xs)) xs ≡ take bound xs
take-cap bound xs = elim (Bool-cases (ltb bound (length xs))) [
  | inl over ↦ rw over refl
  | inr fits ↦
      let h : length xs ≤ bound = ground arith in
      rw fits (take_all (length xs) xs (omega arith) ∙ sym (take_all bound xs h))
]

pub cap-length {ℓ} :
    {A : Type ℓ} (bound : ℕ) (xs : List A) → cap bound (length xs) ≡ length (take bound xs)
cap-length bound xs = ground (arith, length-take bound xs)

put_capped-take :
    (bound : ℕ) (xs : Bytes)
    → put_capped bound xs ≡ put_u16 (length (take bound xs)) ++ take bound xs
unfolding put_capped
put_capped-take bound xs = λ i. put_u16 (cap-length bound xs i) ++ take-cap bound xs i

-- A field that is cut to its bound is read back as its front.
pub read_short-put_capped :
    (bound : ℕ) (xs rest : Bytes)
    → bound < 2 ^ 16
    → read_short bound (put_capped bound xs ++ rest) ≡ some (take bound xs, rest)
read_short-put_capped bound xs rest k =
    ap (λ (b : Bytes). read_short bound (b ++ rest)) (put_capped-take bound xs)
    ∙ ap (read_short bound) (append_assoc (put_u16 (length (take bound xs))) (take bound xs) rest)
    ∙ read_short_exact bound (take bound xs) rest (omega (arith, length-take bound xs)) k

module _ {ℓ} {A : Type ℓ} (read : Bytes → Option (A × Bytes)) (put : A → Bytes) (cut : A → A) where
  -- Entries that are read back one by one, each perhaps cut, are read back together.
  pub read_entries-map :
      (es : List A) (rest : Bytes)
      → All (λ e. (more : Bytes) → read (put e ++ more) ≡ some (cut e, more)) es
      → read_entries read (length es) (encode_entries put es ++ rest) ≡ some (map cut es, rest)
  unfolding read_entries encode_entries
  read_entries-map [] rest h = refl
  read_entries-map (e ∷ es) rest (k, h) =
      rw (append_assoc (put e) (encode_entries put es) rest, k (encode_entries put es ++ rest))
        (rw (read_entries-map es rest h))

  pub read_entries-put :
      (es : List A)
      → All (λ e. (more : Bytes) → read (put e ++ more) ≡ some (cut e, more)) es
      → read_entries read (length es) (encode_entries put es) ≡ some (map cut es, [])
  read_entries-put es h = rw append-nil at (read_entries-map es [] h)
