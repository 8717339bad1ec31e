-- ===== src/Payload/Guard.antt =====
-- The guard of src/ClipboardHashGuard.h and src/ClipboardHashGuard.cpp, which knows the payload that is
-- the current one by its hash.
use clipp.Prelude.{
  ℕ, ◌≡◌, Bool, true, false, not, ◌&&◌, ◌==◌, beq, list_order, ℕ_order, if◌then◌else◌, arith,
}
use clipp.Bytes.{Bytes}
use clipp.Payload.{ClipboardPayload}
use clipp.Payload.Plain.{zeros}

pub record HashGuard : Type 0 where
  pub current_valid : Bool
  pub current_hash_alg : ℕ
  pub current_hash : Bytes

unfoldable pub new_guard : HashGuard
unfolding zeros
new_guard = record { current_valid = false; current_hash_alg = 0; current_hash = zeros 64 }

abbrev pub matches : HashGuard → ClipboardPayload → Bool
matches g p = beq g.current_hash p.meta.hash_bytes

unfoldable pub is_current : HashGuard → ClipboardPayload → Bool
is_current g p =
    if p.meta.hash_alg == 0
    then false
    else if not g.current_valid
    then false
    else if not (g.current_hash_alg == p.meta.hash_alg)
    then false
    else matches g p

-- The payload's hash is the current one.
abbrev pub holding : ClipboardPayload → HashGuard
holding p = record {
  current_valid = true;
  current_hash_alg = p.meta.hash_alg;
  current_hash = p.meta.hash_bytes;
}

unfoldable pub remember_current : HashGuard → ClipboardPayload → HashGuard
remember_current g p =
    if p.meta.hash_alg == 0 then record g { current_valid = false } else holding p

unfoldable pub accept_current : HashGuard → ClipboardPayload → HashGuard × Bool
accept_current g p =
    if p.meta.hash_alg == 0
    then (record g { current_valid = false }, true)
    else if g.current_valid && (g.current_hash_alg == p.meta.hash_alg && matches g p)
    then (g, false)
    else (holding p, true)

-- AcceptCurrent refuses exactly the payload that IsCurrent tells as the current one, and otherwise does
-- what RememberCurrent does; and after RememberCurrent the current payloads are those with a hash, of
-- the algorithm and the bytes of the remembered one.
pub accept_current-remember_current :
    (g : HashGuard) (p q : ClipboardPayload)
    → (accept_current g p ≡ (if is_current g p then (g, false) else (remember_current g p, true)))
      × (is_current (remember_current g p) q ≡ (
          not (q.meta.hash_alg == 0)
          && (p.meta.hash_alg == q.meta.hash_alg && beq p.meta.hash_bytes q.meta.hash_bytes)))
unfolding accept_current remember_current is_current
accept_current-remember_current g p q = (ground arith, ground arith)
