-- ===== src/PeerManager/Bounds/Steps.antt =====
-- The limits under each operation of src/PeerManager.cpp.
use clipp.Prelude.{
  ℕ, ◌+◌, ◌<◌, ◌≤◌, ◌≡◌, ◌∙◌, sym, refl, Bool, true, false, not, List, [], ◌∷◌, ◌++◌, keep_if,
  count_if, any_of, is_empty, list_order, ℕ_order, Bool-cases, inl, inr, ◌⊎◌, arith, leb,
}
use clipp.Bytes.{Bytes}
use clipp.PeerLimits.{
  max_pending_incoming_authentications, max_pending_incoming_authentications_per_ip, accepted,
  rejected_global_limit, rejected_per_ip_limit, evaluate_pending_authentication, can_add_outgoing,
}
use clipp.PeerManager.{
  Peer, PeerManager, is_incoming_authentication_pending, start, outgoing_peer, incoming_peer,
}
use clipp.PeerManager.Admission.{
  add_peer, add_incoming_peer, on_incoming_peer_left, outgoing_to, outgoes, pending_from,
}
use clipp.PeerManager.Removal.{remove_if, leave_all, clear_peers}
use clipp.PeerManager.Events.{change}
use clipp.PeerManager.Counts.{
  count_if-append, count_if-keep_if, any_of-none, count_if-unnoticed, count_if-kept,
}
use clipp.PeerManager.Bounds.{
  ListWithinLimits, is_established, WithinLimits, Tame, smaller, change_at-ListWithinLimits,
  outgoing_listed, incoming_listed,
}

-- A change of the list that leaves the count of established peers alone.
pub same_count :
    (m m' : PeerManager)
    → WithinLimits m
    → ListWithinLimits m'.peers
    → m'.established_incoming_count ≡ m.established_incoming_count
    → count_if is_established m'.peers ≡ count_if is_established m.peers
    → WithinLimits m'
same_count m m' v l e f = record {
  listed = l;
  counted = e ∙ v.counted ∙ sym f;
  established_peers = omega (arith, f, v.established_peers);
}

-- A new peer is not established.
count_if-outgoing :
    (ps : List Peer) (name id ip : Bytes) (port at : ℕ) (wakes : Bool)
    → count_if is_established (ps ++ start wakes (outgoing_peer name id ip port at) ∷ [])
      ≡ count_if is_established ps
unfolding start outgoing_peer
count_if-outgoing ps name id ip port at true = omega (arith, count_if-append is_established ps _)
count_if-outgoing ps name id ip port at false = omega (arith, count_if-append is_established ps _)

count_if-incoming :
    (ps : List Peer) (ip : Bytes) (port at : ℕ) (wakes : Bool)
    → count_if is_established (ps ++ start wakes (incoming_peer ip port at) ∷ [])
      ≡ count_if is_established ps
unfolding start incoming_peer
count_if-incoming ps ip port at true = omega (arith, count_if-append is_established ps _)
count_if-incoming ps ip port at false = omega (arith, count_if-append is_established ps _)

pub add_peer-WithinLimits :
    (m : PeerManager) (name id ip : Bytes) (port at_log at_create : ℕ) (wakes : Bool)
    → WithinLimits m
    → WithinLimits (add_peer m name id ip port at_log at_create wakes).0
unfolding add_peer
add_peer-WithinLimits m name id ip port at_log at_create wakes v =
    elim (Bool-cases (any_of (outgoing_to id) m.peers)) [
      | inl found ↦ rw found v
      | inr missing ↦ elim (Bool-cases (can_add_outgoing (count_if outgoes m.peers))) [
        | inl room ↦
            rw (missing, room)
              (same_count m _ v
                (outgoing_listed m.peers port at_create v.listed name id ip wakes
                  (unfold can_add_outgoing in ground (arith, room))
                  (any_of-none (outgoing_to id) m.peers missing))
                refl (count_if-outgoing m.peers name id ip port at_create wakes))
        | inr full ↦ rw (missing, full) (same_count m _ v v.listed refl refl)
      ]
    ]

evaluate-cases :
    (pending_global pending_for_ip : ℕ)
    → let a = evaluate_pending_authentication pending_global pending_for_ip in
      (a ≡ rejected_global_limit)
      ⊎ ((a ≡ rejected_per_ip_limit)
          ⊎ ((a ≡ accepted)
              × (pending_global < max_pending_incoming_authentications)
              × (pending_for_ip < max_pending_incoming_authentications_per_ip)))
unfolding evaluate_pending_authentication
evaluate-cases g i = elim (Bool-cases (leb max_pending_incoming_authentications g)) [
  | inl e ↦ rw e (inl refl)
  | inr e ↦ elim (Bool-cases (leb max_pending_incoming_authentications_per_ip i)) [
    | inl f ↦ rw (e, f) (inr (inl refl))
    | inr f ↦ rw (e, f) (inr (inr (refl, ground (arith, e), ground (arith, f))))
  ]
]

pub add_incoming_peer-WithinLimits :
    (m : PeerManager) (ip : Bytes) (port at_log at_create : ℕ) (wakes : Bool)
    → WithinLimits m
    → WithinLimits (add_incoming_peer m ip port at_log at_create wakes).0
unfolding add_incoming_peer
add_incoming_peer-WithinLimits m ip port at_log at_create wakes v =
    elim (Bool-cases (is_empty ip)) [
      | inl unknown ↦ rw unknown v
      | inr known ↦
          elim (evaluate-cases (count_if is_incoming_authentication_pending m.peers)
            (count_if (pending_from ip) m.peers)) [
              | inl e ↦ rw (known, e) (same_count m _ v v.listed refl refl)
              | inr (inl e) ↦ rw (known, e) (same_count m _ v v.listed refl refl)
              | inr (inr (e, r, n)) ↦
                  rw (known, e)
                    (same_count m _ v (incoming_listed m.peers port at_create v.listed ip wakes r n)
                      refl (count_if-incoming m.peers ip port at_create wakes))
            ]
    ]

on_incoming_peer_left-count :
    (m : PeerManager)
    → 0 < m.established_incoming_count
    → (on_incoming_peer_left m).established_incoming_count + 1 ≡ m.established_incoming_count
unfolding on_incoming_peer_left
on_incoming_peer_left-count m h = ground (arith, h)

-- The established peers that leave take themselves off the count.
leave_all-count :
    (ps : List Peer) (m : PeerManager)
    → count_if is_established ps ≤ m.established_incoming_count
    → (leave_all ps m).established_incoming_count + count_if is_established ps
      ≡ m.established_incoming_count
unfolding leave_all count_if
leave_all-count [] m h = omega arith
leave_all-count (p ∷ ps) m h = elim (Bool-cases p.incoming_established) [
  | inl left ↦
      let some_one : count_if is_established ps < m.established_incoming_count =
        ground (arith, h, left) in
      let one = on_incoming_peer_left-count m (omega (arith, some_one)) in
      let rest = leave_all-count ps (on_incoming_peer_left m) (omega (arith, one, some_one)) in
      rw left (omega (arith, one, rest))
  | inr other ↦
      let rest = leave_all-count ps m (ground (arith, h, other)) in rw other (omega (arith, rest))
]

pub remove_if-WithinLimits :
    (gone : Peer → Bool) (m : PeerManager) → WithinLimits m → WithinLimits (remove_if gone m)
unfolding remove_if
remove_if-WithinLimits gone m v =
    let parts = count_if-kept is_established gone m.peers in
    let left = leave_all-count (keep_if gone m.peers) m (omega (arith, parts, v.counted)) in
    record {
      listed = smaller m.peers _ (λ t. count_if-keep_if t (λ p. not (gone p)) m.peers) v.listed;
      counted = omega (arith, parts, left, v.counted);
      established_peers = omega (arith, parts, v.established_peers);
    }

pub clear_peers-WithinLimits : (m : PeerManager) → WithinLimits m → WithinLimits (clear_peers m)
unfolding clear_peers
clear_peers-WithinLimits m v =
    let left = leave_all-count m.peers m (omega (arith, v.counted)) in
    record {
      listed = smaller m.peers [] (λ t. unfold count_if in omega arith) v.listed;
      counted = unfold count_if in omega (arith, left, v.counted);
      established_peers = unfold count_if in omega arith;
    }

-- A change of one peer that neither the limits nor the count notice.
pub change-WithinLimits :
    (f : Peer → Peer)
    → Tame f
    → ((p : Peer) → is_established (f p) ≡ is_established p)
    → (m : PeerManager) (i : ℕ) → WithinLimits m
    → WithinLimits (change m i f)
change-WithinLimits f t h m i v =
    same_count m _ v (change_at-ListWithinLimits f i m.peers t v.listed) refl
      (count_if-unnoticed is_established f h i m.peers)
