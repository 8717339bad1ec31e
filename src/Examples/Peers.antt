-- ===== src/Examples/Peers.antt =====
-- Runs of the manager of peers of src/PeerManager.cpp.
use clipp.Prelude.{◌≡◌, refl, true, List, [], ◌∷◌, count_if, any_of, list_beq}
use clipp.Bytes.{Bytes}
use clipp.PeerLimits.{can_add_outgoing}
use clipp.PeerManager.{PeerManager, new_manager, start, outgoing_peer}
use clipp.PeerManager.Admission.{add_peer, outgoing_to, outgoing_accepted}
use clipp.PeerManager.Events.{
  ManagerEvent, adds, adds_incoming, handshakes, removes_outgoing, culls, exits, manage_all,
}
use clipp.PeerManager.Bounds.{WithinLimits}
use clipp.PeerManager.Bounds.Kept.{new_manager-WithinLimits, manage_all-WithinLimits}

abbrev desk : Bytes
desk = 7 ∷ []

abbrev address : Bytes
address = 10 ∷ 0 ∷ 0 ∷ 2 ∷ []

abbrev day : List ManagerEvent
day =
    adds desk desk address 9000 5 5 true
    ∷ adds_incoming address 9001 6 6 true
    ∷ handshakes 1 desk desk true 6 7
    ∷ culls 120000
    ∷ removes_outgoing desk
    ∷ exits 0
    ∷ []

manage_all-WithinLimits_example : WithinLimits (manage_all new_manager day)
manage_all-WithinLimits_example = manage_all-WithinLimits new_manager day new_manager-WithinLimits

abbrev with_desk : PeerManager
with_desk = (add_peer new_manager desk desk address 9000 5 5 true).0

taken : (add_peer new_manager desk desk address 9000 5 5 true).1 ≡ outgoing_accepted
unfolding add_peer new_manager any_of count_if can_add_outgoing
taken = refl

desk_is_there : any_of (outgoing_to desk) with_desk.peers ≡ true
unfolding add_peer new_manager any_of count_if can_add_outgoing start outgoing_peer list_beq
desk_is_there = refl
