-- ===== src/Utf8/RoundTrip.antt =====
-- The decoder of UTF-8 of src/platform.h against the encoder.
use clipp.Prelude.{ℕ, ◌≡◌, some, [], ◌∷◌, ◌++◌, arith}
use clipp.Bytes.{Bytes, AllBytes}
use clipp.Utf8.{IsScalar, continuations, decode_code_point, encode_code_point}

-- Decoding an encoded scalar value gives it back, with the text that follows.
pub decode-encode :
    (c : ℕ) (rest : Bytes)
    → IsScalar c
    → decode_code_point (encode_code_point c ++ rest) ≡ some (c, rest)
unfolding decode_code_point encode_code_point continuations
decode-encode c rest v = ground arith

-- Where the decoder accepts a string of bytes, the string starts with the encoding of the scalar
-- value that it returns, and the rest follows.
pub decode-inv :
    (bs : Bytes) (c : ℕ) (rest : Bytes)
    → AllBytes bs
    → decode_code_point bs ≡ some (c, rest)
    → (bs ≡ encode_code_point c ++ rest) × IsScalar c
unfolding decode_code_point encode_code_point continuations
decode-inv [] c rest h e = cc
decode-inv (lead ∷ []) c rest h e = ground arith
decode-inv (lead ∷ x ∷ []) c rest h e = ground arith
decode-inv (lead ∷ x ∷ y ∷ []) c rest h e = ground arith
decode-inv (lead ∷ x ∷ y ∷ z ∷ bs) c rest h e = ground arith
