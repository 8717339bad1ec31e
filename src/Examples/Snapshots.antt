-- ===== src/Examples/Snapshots.antt =====
-- Runs of the sealed snapshots of src/SealedSnapshot.cpp and src/RegisterPersistence.cpp, with a cipher
-- that adds a tag and hides nothing.
use clipp.Prelude.{
  ◌-◌, ◌≡◌, refl, subst, some, List, [], ◌∷◌, ◌++◌, keep_if, length, take, length-append,
  take-append_length, arith,
}
use clipp.Bytes.{Bytes}
use clipp.SealedSnapshot.{Cipher, IsCipher}
use clipp.SealedSnapshot.Snapshot.{seal_snapshot, try_open_snapshot, named, try_open-seal_snapshot}
use clipp.Examples.Frames.{sample, sample_fits}

abbrev tag : Bytes
tag = 0 ∷ 0 ∷ 0 ∷ 0 ∷ 0 ∷ 0 ∷ 0 ∷ 0 ∷ 0 ∷ 0 ∷ 0 ∷ 0 ∷ 0 ∷ 0 ∷ 0 ∷ 0 ∷ []

abbrev pub open_cipher : Cipher
open_cipher = record {
  encrypt = λ nonce key ad plain. plain ++ tag;
  decrypt = λ nonce key ad text. some (take (length text - 16) text);
}

untagged : (plain : Bytes) → take (length (plain ++ tag) - 16) (plain ++ tag) ≡ plain
untagged plain =
    subst (λ k. take k (plain ++ tag) ≡ plain) (omega (arith, length-append plain tag))
      (take-append_length plain tag)

pub open_cipher-IsCipher : IsCipher open_cipher
open_cipher-IsCipher = record {
  opens = λ nonce key ad plain n k i. some (untagged plain i);
  grows = λ nonce key ad plain n k. length-append plain tag;
}

abbrev pub nonce : Bytes
nonce = 1 ∷ 2 ∷ 3 ∷ 4 ∷ 5 ∷ 6 ∷ 7 ∷ 8 ∷ tag

abbrev pub key : Bytes
key = tag ++ tag

abbrev bodies : List Bytes
bodies = (1 ∷ 2 ∷ []) ∷ [] ∷ (3 ∷ []) ∷ []

try_open-seal_snapshot_example :
    try_open_snapshot open_cipher (seal_snapshot open_cipher nonce (sample ∷ []) key) key
    ≡ some (keep_if named (sample ∷ []))
try_open-seal_snapshot_example =
    try_open-seal_snapshot open_cipher nonce key (sample ∷ []) open_cipher-IsCipher refl refl
      (omega arith) (sample_fits, tt)
