-- ===== src/Register/Name.antt =====
-- IsValidRegisterName of src/RegisterStore.cpp.
use clipp.Prelude.{
  ℕ, zero, suc, refl, ◌≤◌, ◌<◌, ◌⊎◌, ◌≡◌, ◌≢◌, ◌↔◌, Bool, true, false, none, some, List, [], ◌∷◌,
  ◌++◌, ◌&&◌, ◌||◌, ltb, leb, ◌==◌, length, is_empty, if◌then◌else◌, arith, All, All-append_right,
  Option-cases, inl, inr, subst, ap, sym, ◌∙◌, ◌-◌, length-append,
}
use clipp.Bytes.{Bytes, AllBytes, IsByte, at}
use clipp.Utf8.{decode_code_point, encode_code_point, IsScalar}
use clipp.Utf8.RoundTrip.{decode-encode, decode-inv}

-- Control characters below 0x20 and from 0x7f to 0x9f, and the reserved `?`, `*` and `/`.
unfoldable pub is_refused : ℕ → Bool
is_refused c =
    ltb c 0x20 || c == 0x7f || (leb 0x80 c && leb c 0x9f) || (c == b'?' || c == b'*' || c == b'/')

-- The loop over the code points; each round takes a byte at least.
unfoldable pub all_accepted : ℕ → Bytes → Bool
unfolding is_refused
all_accepted fuel [] = true
all_accepted zero (b ∷ bs) = false
all_accepted (suc fuel) (b ∷ bs) = elim (decode_code_point (b ∷ bs)) [
  | none ↦ false
  | some (c, rest) ↦ if is_refused c then false else all_accepted fuel rest
]

unfoldable pub is_valid_register_name : Bytes → Bool
is_valid_register_name name =
    if is_empty name || ltb 64 (length name)
    then false
    else if at name 0 == b' ' || at name (length name - 1) == b' '
    then false
    else all_accepted (length name) name

-- A text by its code points.
unfoldable pub encode_all : List ℕ → Bytes
encode_all [] = []
encode_all (c ∷ cs) = encode_code_point c ++ encode_all cs

-- A code point that a name may hold: a scalar value that is no control character (below 32, DEL, or
-- from 128 to 159) and none of the reserved `?`, `*` and `/`.
pub record IsNameChar (c : ℕ) : Type 0 where
  pub scalar : IsScalar c
  pub no_low_control : 32 ≤ c
  pub no_del : c ≢ 127
  pub no_high_control : (c < 128) ⊎ (159 < c)
  pub no_question_mark : c ≢ 63
  pub no_asterisk : c ≢ 42
  pub no_slash : c ≢ 47

accepted-IsNameChar : (c : ℕ) → IsScalar c → is_refused c ≡ false → IsNameChar c
unfolding is_refused
accepted-IsNameChar c v h = record {
  scalar = v;
  no_low_control = ground (arith, h);
  no_del = ground (arith, h);
  no_high_control = ground (arith, h);
  no_question_mark = ground (arith, h);
  no_asterisk = ground (arith, h);
  no_slash = ground (arith, h);
}

IsNameChar-accepted : (c : ℕ) → IsNameChar c → is_refused c ≡ false
unfolding is_refused
IsNameChar-accepted c v = ground (
  arith, v.no_low_control, v.no_del, v.no_high_control, v.no_question_mark, v.no_asterisk,
  v.no_slash,
)

encode_size : (c : ℕ) → 1 ≤ length (encode_code_point c)
unfolding encode_code_point
encode_size c = ground arith

module _ (fuel : ℕ) (b : ℕ) (bs : Bytes) (c : ℕ) (rest : Bytes)
    (decoded : decode_code_point (b ∷ bs) ≡ some (c, rest))
    (e : all_accepted (suc fuel) (b ∷ bs) ≡ true) where
  first_accepted : is_refused c ≡ false
  unfolding all_accepted
  first_accepted = ground arith

  others_accepted : all_accepted fuel rest ≡ true
  unfolding all_accepted
  others_accepted = ground arith

nothing_decoded :
    (fuel b : ℕ) (bs : Bytes)
    → decode_code_point (b ∷ bs) ≡ none
    → all_accepted (suc fuel) (b ∷ bs) ≡ false
unfolding all_accepted
nothing_decoded fuel b bs d = rw (d, all_accepted)

encode_one :
    (c : ℕ) (rest : Bytes) (cs : List ℕ)
    → rest ≡ encode_all cs
    → encode_code_point c ++ rest ≡ encode_all (c ∷ cs)
unfolding encode_all
encode_one c rest cs e = ap (λ t. encode_code_point c ++ t) e

-- What the loop accepts is made of accepted code points.
pub all_accepted_sound :
    (fuel : ℕ) (bs : Bytes)
    → AllBytes bs
    → all_accepted fuel bs ≡ true
    → (cs : List ℕ) × (bs ≡ encode_all cs) × All IsNameChar cs
all_accepted_sound fuel [] h e = ([], unfold encode_all in refl, tt)
all_accepted_sound zero (b ∷ bs) h e = unfold all_accepted in cc
all_accepted_sound (suc fuel) (b ∷ bs) h e = elim (Option-cases (decode_code_point (b ∷ bs))) [
  | inl d ↦ cc (nothing_decoded fuel b bs d)
  | inr ((c, rest), d) ↦
      let (split, scalar) = decode-inv (b ∷ bs) c rest h d in
      let behind : AllBytes rest =
        All-append_right IsByte (encode_code_point c) rest (subst AllBytes split h) in
      let (cs, eq, all) =
        all_accepted_sound fuel rest behind (others_accepted fuel b bs c rest d e) in
      (
        c ∷ cs,
        split ∙ encode_one c rest cs eq,
        (accepted-IsNameChar c scalar (first_accepted fuel b bs c rest d e), all),
      )
]

accept_one :
    (fuel c : ℕ) (front rest : Bytes)
    → decode_code_point (front ++ rest) ≡ some (c, rest)
    → 1 ≤ length front
    → is_refused c ≡ false
    → all_accepted (suc fuel) (front ++ rest) ≡ all_accepted fuel rest
unfolding all_accepted
accept_one fuel c [] rest d n a = absurd (omega arith)
accept_one fuel c (b ∷ front) rest d n a = rw (d, all_accepted) (rw a)

-- And the loop accepts every text of accepted code points, with its length for fuel.
pub all_accepted_complete :
    (fuel : ℕ) (cs : List ℕ)
    → length (encode_all cs) ≤ fuel
    → All IsNameChar cs
    → all_accepted fuel (encode_all cs) ≡ true
unfolding encode_all
all_accepted_complete fuel [] n h = unfold all_accepted in refl
all_accepted_complete zero (c ∷ cs) n h =
    absurd (omega (arith, encode_size c, length-append (encode_code_point c) (encode_all cs)))
all_accepted_complete (suc fuel) (c ∷ cs) n (k, h) =
    accept_one fuel c (encode_code_point c) (encode_all cs)
      (decode-encode c (encode_all cs) k.scalar) (encode_size c) (IsNameChar-accepted c k)
    ∙ all_accepted_complete fuel cs
        (omega (arith, encode_size c, length-append (encode_code_point c) (encode_all cs))) h

-- What a name is: 1 to 64 bytes, neither beginning nor ending with a space, that are the UTF-8 text of
-- code points as above.
pub record IsName (name : Bytes) : Type 0 where
  pub nonempty : 1 ≤ length name
  pub short : length name ≤ 64
  pub front : at name 0 ≢ b' '
  pub back : at name (length name - 1) ≢ b' '
  pub code_points : List ℕ
  pub text : name ≡ encode_all code_points
  pub chars : All IsNameChar code_points

edges :
    (name : Bytes)
    → is_valid_register_name name ≡ true
    → (1 ≤ length name)
      × (length name ≤ 64)
      × (at name 0 ≢ b' ')
      × (at name (length name - 1) ≢ b' ')
      × (all_accepted (length name) name ≡ true)
unfolding is_valid_register_name
edges [] h = cc
edges (b ∷ bs) h = ground arith

edges_valid :
    (name : Bytes)
    → 1 ≤ length name
    → length name ≤ 64
    → at name 0 ≢ b' '
    → at name (length name - 1) ≢ b' '
    → all_accepted (length name) name ≡ true
    → is_valid_register_name name ≡ true
unfolding is_valid_register_name
edges_valid [] n m f b a = absurd (omega arith)
edges_valid (c ∷ cs) n m f b a = ground arith

valid-IsName : (name : Bytes) → AllBytes name → is_valid_register_name name ≡ true → IsName name
valid-IsName name h e =
    let (n, m, f, b, a) = edges name e in
    let (cs, eq, all) = all_accepted_sound (length name) name h a in
    record {
      nonempty = n;
      short = m;
      front = f;
      back = b;
      code_points = cs;
      text = eq;
      chars = all;
    }

IsName-valid : (name : Bytes) → IsName name → is_valid_register_name name ≡ true
IsName-valid name v = edges_valid name v.nonempty v.short v.front v.back (
    subst (λ t. all_accepted (length name) t ≡ true) (sym v.text)
      (all_accepted_complete (length name) v.code_points (rw (← v.text) (omega arith)) v.chars))

-- The validator accepts a string of bytes exactly when it is 1 to 64 bytes long, neither begins nor
-- ends with a space, and is the UTF-8 text of scalar values which are no control characters (below 32,
-- 127, or from 128 to 159) and none of `?`, `*` and `/`.
pub is_valid_register_name_iff :
    (name : Bytes) → AllBytes name → (is_valid_register_name name ≡ true) ↔ IsName name
is_valid_register_name_iff name h = (valid-IsName name h, IsName-valid name)
