-- ===== src/Examples/Sync.antt =====
-- Runs between two RegisterStores (src/RegisterStore.cpp).
use mathlib.Core.List.Perm
use clipp.Prelude.{◌≡◌, refl, false, some, [], ◌∷◌, list_order, ℕ_order, list_beq}
use clipp.OrderedMap.{find}
use clipp.Register.{RegisterRecord, is_expired}
use clipp.Register.Invariant.{IsValid}
use clipp.Register.Inspect.{digest, records_to_push}
use clipp.Register.Converge.{deliver, Agree, replicas_converge}
use clipp.Register.AntiEntropy.{HoldsAtLeast}
use clipp.Register.AntiEntropy.Round.{push-covers, tie-stays}
use clipp.Examples.Records.{key, version_of, left, right, late}
use clipp.Examples.Stores.{holding, holding-left, holding-late}

same_start : Agree (holding left) (holding left)
same_start = record { records = refl; clock = refl; ttl = refl }

replicas_converge_example :
    ((deliver (holding left) (right ∷ late ∷ []) 180).records
      ≡ (deliver (holding left) (late ∷ right ∷ []) 180).records)
    × ((deliver (holding left) (right ∷ late ∷ []) 180).clock
        ≡ (deliver (holding left) (late ∷ right ∷ []) 180).clock)
replicas_converge_example =
    replicas_converge (holding left) (holding left) (right ∷ late ∷ []) (late ∷ right ∷ []) 180
      holding-left holding-left same_start (Perm.swap late right [])

found_late : find key (holding late).records ≡ some late
unfolding find list_beq
found_late = refl

found_left : find key (holding left).records ≡ some left
unfolding find list_beq
found_left = refl

late_is_live : is_expired late 180 1000 ≡ false
unfolding is_expired
late_is_live = refl

push-covers_example : HoldsAtLeast key late.written 180 (
    deliver
      (digest (holding left) 180).0
      ((records_to_push (holding late) ((digest (holding left) 180).1) 180).1)
      180)
push-covers_example =
    push-covers (holding late) (holding left) 180 key late holding-late holding-left refl refl
      found_late late_is_live

abbrev mine : RegisterRecord
mine = version_of 1 100 150 7

abbrev theirs : RegisterRecord
theirs = version_of 2 100 150 8

holding-mine : IsValid (holding mine)
holding-mine = record { sorted = (tt, tt); entries = ((refl, refl, refl), tt) }

holding-theirs : IsValid (holding theirs)
holding-theirs = record { sorted = (tt, tt); entries = ((refl, refl, refl), tt) }

found_mine : find key (holding mine).records ≡ some mine
unfolding find list_beq
found_mine = refl

found_theirs : find key (holding theirs).records ≡ some theirs
unfolding find list_beq
found_theirs = refl

both_live : (is_expired mine 180 1000 ≡ false) × (is_expired theirs 180 1000 ≡ false)
unfolding is_expired
both_live = (refl, refl)

-- The merge of the two would be `theirs`; the peer that holds `mine` keeps it.
tie-stays_example :
    find key
      (deliver
        (digest (holding mine) 180).0
        ((records_to_push (holding theirs) ((digest (holding mine) 180).1) 180).1)
        180).records
    ≡ some mine
tie-stays_example =
    tie-stays (holding theirs) (holding mine) 180 key theirs mine holding-theirs holding-mine refl
      found_theirs found_mine both_live.1 both_live.0 refl refl
