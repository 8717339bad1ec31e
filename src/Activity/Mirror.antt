-- ===== src/Activity/Mirror.antt =====
-- What a watcher of src/ClipboardActivityStore.cpp can know: the set of ids that it gets by following
-- the updates, against the ids of the items.
pub mod Steps
pub mod Follow
pub mod Joined
use clipp.Prelude.{
  ℕ, zero, suc, ◌+◌, ◌≤◌, ◌<◌, ◌≡◌, refl, sym, subst, ap, ◌∙◌, Bool, true, false, not, ◌&&◌, Option,
  none, some, List, [], ◌∷◌, ◌++◌, map, ltb, ◌==◌, length, keep_if, count_if, if◌then◌else◌, arith,
  Bool-cases, inl, inr,
}
use clipp.Activity.{
  Item, ItemHeader, Update, added, removed, moved, cleared, WatcherRegistration, Delivery,
  ActivityStore, has_id, calls_of, deliveries, notify_watchers,
}
use clipp.Activity.Trim.{removal_of, trim, apply_limits}
use clipp.Activity.Operations.{header_of}
use clipp.Activity.Evict.{Evicts, trim-Evicts}

-- The set of ids behind an update, and behind a list of them.
abbrev pub after_update : Update → (ℕ → Bool) → ℕ → Bool
after_update (added id) ids k = if k == id then true else ids k
after_update (removed id) ids k = if k == id then false else ids k
after_update (moved id) ids k = ids k
after_update cleared ids k = false

unfoldable pub shows : List Update → (ℕ → Bool) → ℕ → Bool
shows [] ids k = ids k
shows (u ∷ us) ids k = shows us (after_update u ids) k

abbrev pub ids_of : List Item → ℕ → Bool
ids_of items k = ltb 0 (count_if (has_id k) items)

abbrev pub ids_of_headers : List ItemHeader → ℕ → Bool
ids_of_headers hs k = ltb 0 (count_if (λ (h : ItemHeader). h.id == k) hs)

abbrev pub is_for : ℕ → Delivery → Bool
is_for w d = d.watcher_id == w

-- The updates that a watcher has been called with.
abbrev update_of : Delivery → Update
update_of d = d.update

unfoldable pub received : ℕ → List Delivery → List Update
received w log = map update_of (keep_if (is_for w) log)

abbrev has_watcher : Option ℕ → Bool
has_watcher none = false
has_watcher (some f) = true

abbrev pub listens : ℕ → WatcherRegistration → Bool
listens w r = r.watcher_id == w && has_watcher r.watcher

pub shows-append :
    (us vs : List Update) (ids : ℕ → Bool) (k : ℕ)
    → shows (us ++ vs) ids k ≡ shows vs (shows us ids) k
unfolding shows
shows-append [] vs ids k = refl
shows-append (u ∷ us) vs ids k = shows-append us vs (after_update u ids) k

after_update_ext :
    (u : Update) (ids ids' : ℕ → Bool)
    → ((k : ℕ) → ids k ≡ ids' k)
    → (k : ℕ) → after_update u ids k ≡ after_update u ids' k
after_update_ext (added id) ids ids' h k = ground (arith, h k)
after_update_ext (removed id) ids ids' h k = ground (arith, h k)
after_update_ext (moved id) ids ids' h k = h k
after_update_ext cleared ids ids' h k = refl

pub shows_ext :
    (us : List Update) (ids ids' : ℕ → Bool)
    → ((k : ℕ) → ids k ≡ ids' k)
    → (k : ℕ) → shows us ids k ≡ shows us ids' k
unfolding shows
shows_ext [] ids ids' h k = h k
shows_ext (u ∷ us) ids ids' h k =
    shows_ext us (after_update u ids) (after_update u ids') (after_update_ext u ids ids' h) k

shows-map-removal :
    (dropped : List Item) (ids : ℕ → Bool) (k : ℕ)
    → shows (map removal_of dropped) ids k ≡ (if ids_of dropped k then false else ids k)
unfolding shows count_if
shows-map-removal [] ids k = ground arith
shows-map-removal (i ∷ is) ids k =
    ground (arith, shows-map-removal is (after_update (removal_of i) ids) k)

-- An eviction tells of what it has dropped.
pub shows-Evicts :
    (items : List Item) (t : List Item × List Update) (k : ℕ)
    → count_if (has_id k) items ≤ 1
    → Evicts items t
    → shows t.1 (ids_of items) k ≡ ids_of t.0 k
shows-Evicts items t k h e =
    ap (λ us. shows us (ids_of items) k) e.reported
    ∙ shows-map-removal e.dropped (ids_of items) k
    ∙ ground (arith, e.counted (has_id k))

keep_if-append {ℓ} :
    {A : Type ℓ} (p : A → Bool) (xs ys : List A)
    → keep_if p (xs ++ ys) ≡ keep_if p xs ++ keep_if p ys
unfolding keep_if
keep_if-append p [] ys = refl
keep_if-append p (x ∷ xs) ys = ground (arith, keep_if-append p xs ys)

map-update-append :
    (xs ys : List Delivery) → map update_of (xs ++ ys) ≡ map update_of xs ++ map update_of ys
map-update-append [] ys = refl
map-update-append (x ∷ xs) ys = ap (λ l. x.update ∷ l) (map-update-append xs ys)

pub received-append :
    (w : ℕ) (xs ys : List Delivery) → received w (xs ++ ys) ≡ received w xs ++ received w ys
unfolding received
received-append w xs ys =
    ap (map update_of) (keep_if-append (is_for w) xs ys)
    ∙ map-update-append (keep_if (is_for w) xs) (keep_if (is_for w) ys)

not_called :
    (w : ℕ) (u : Update) (ws : List WatcherRegistration)
    → count_if (listens w) ws ≡ 0
    → received w (calls_of u ws) ≡ []
unfolding received calls_of count_if keep_if
not_called w u [] e = refl
not_called w u (r ∷ ws) e = ground (arith, not_called w u ws)

called_once :
    (w : ℕ) (u : Update) (ws : List WatcherRegistration)
    → count_if (listens w) ws ≡ 1
    → received w (calls_of u ws) ≡ u ∷ []
unfolding received calls_of count_if keep_if
called_once w u [] e = ground arith
called_once w u (r ∷ ws) e = ground (arith, called_once w u ws, not_called w u ws)

received-deliveries :
    (w : ℕ) (ws : List WatcherRegistration) (us : List Update)
    → count_if (listens w) ws ≡ 1
    → received w (deliveries ws us) ≡ us
unfolding deliveries
received-deliveries w ws [] e = unfold received keep_if in refl
received-deliveries w ws (u ∷ us) e =
    received-append w (calls_of u ws) (deliveries ws us)
    ∙ (λ i. called_once w u ws e i ++ received-deliveries w ws us e i)

-- What an operation has done before it notifies, and what it tells.
pub record Tells (s : ActivityStore) (r : ActivityStore × List Update) : Type 0 where
  pub same_watchers : r.0.watchers ≡ s.watchers
  pub same_next : r.0.next_watcher_id ≡ s.next_watcher_id
  pub same_log : r.0.owed ≡ s.owed
  pub told : (k : ℕ) → shows r.1 (ids_of s.items) k ≡ ids_of r.0.items k

pub apply_limits-Tells :
    (now : ℕ) (s s' : ActivityStore) (us : List Update)
    → ((k : ℕ) → count_if (has_id k) s'.items ≤ 1)
    → Tells s (s', us)
    → Tells s (apply_limits now (s', us))
unfolding apply_limits
apply_limits-Tells now s s' us h t = record {
  same_watchers = t.same_watchers;
  same_next = t.same_next;
  same_log = t.same_log;
  told = λ k.
      shows-append us ((trim now s'.limits s'.items).1) (ids_of s.items) k
      ∙ shows_ext ((trim now s'.limits s'.items).1) (shows us (ids_of s.items)) (ids_of s'.items)
          t.told k
      ∙ shows-Evicts s'.items (trim now s'.limits s'.items) k (h k)
          (trim-Evicts now s'.limits s'.items);
}

-- A watcher that is called has the ids of the items.
pub record Tracks (base : ℕ → Bool) (w : ℕ) (s : ActivityStore) : Type 0 where
  pub listening : count_if (listens w) s.watchers ≡ 1
  pub older : w < s.next_watcher_id
  pub mirrored : (k : ℕ) → shows (received w s.owed) base k ≡ ids_of s.items k

pub notify_watchers-Tracks :
    (base : ℕ → Bool) (w : ℕ) (s : ActivityStore) (r : ActivityStore × List Update)
    → Tells s r
    → Tracks base w s
    → Tracks base w (notify_watchers r)
unfolding notify_watchers
notify_watchers-Tracks base w s (s', us) t v = record {
  listening = listening;
  older = ground (arith, t.same_next, v.older);
  mirrored = λ k.
      ap (λ l. shows l base k)
        (received-append w s'.owed (deliveries s'.watchers us)
          ∙ (λ i. received w (t.same_log i) ++ received-deliveries w s'.watchers us listening i))
      ∙ shows-append (received w s.owed) us base k
      ∙ shows_ext us (shows (received w s.owed) base) (ids_of s.items) v.mirrored k
      ∙ t.told k;
}
  where
    listening : count_if (listens w) s'.watchers ≡ 1
    listening = subst (λ ws. count_if (listens w) ws ≡ 1) (sym t.same_watchers) v.listening
