-- ===== src/Activity/Mirror/Joined.antt =====
-- The registration of a watcher of src/ClipboardActivityStore.cpp.
use clipp.Prelude.{
  ℕ, suc, ◌+◌, ◌≤◌, ◌<◌, ◌≡◌, refl, ap, sym, subst, append-nil, ◌∙◌, some, List, [], ◌∷◌, ◌++◌, ltb,
  ◌==◌, length, keep_if, count_if, All, Option-cases, arith, inl, inr, map,
}
use clipp.Bytes.{u64_mod}
use clipp.Activity.{
  Item, ItemHeader, Update, WatcherRegistration, Delivery, ActivityStore, has_id, calls_of,
  deliveries, notify_watchers,
}
use clipp.Activity.Trim.{trim, apply_limits}
use clipp.Activity.Operations.{header_of, query_and_register}
use clipp.Activity.Calls.{ActivityCall, registers, act, act_all}
use clipp.Activity.Valid.{IsValid}
use clipp.Activity.Runs.{act-IsReady}
use clipp.Activity.Watched.{
  Stream, StreamStep, calls, stream_step, stream_steps, calls_in, InOrder, IsInStep,
  stream_step-IsInStep, stream_steps-IsInStep, stream_steps-store,
}
use clipp.Activity.Mirror.{
  shows, received, received-append, ids_of, ids_of_headers, is_for, listens, Tracks,
}
use clipp.Activity.Mirror.Steps.{Spares}
use clipp.Activity.Mirror.Follow.{act-next_watcher_id, act_all-Tracks, count_if-append}

-- The id was not given to a watcher that is registered or was called.
abbrev pub IsUnused : ℕ → ActivityStore → Type 0
IsUnused w s =
    (count_if (λ (r : WatcherRegistration). r.watcher_id == w) s.watchers ≡ 0)
    × (count_if (is_for w) s.owed ≡ 0)

not_received : (w : ℕ) (log : List Delivery) → count_if (is_for w) log ≡ 0 → received w log ≡ []
unfolding received count_if keep_if
not_received w [] h = refl
not_received w (d ∷ ds) h = ground (arith, not_received w ds)

not_listening :
    (w : ℕ) (ws : List WatcherRegistration)
    → count_if (λ (r : WatcherRegistration). r.watcher_id == w) ws ≡ 0
    → count_if (listens w) ws ≡ 0
unfolding count_if
not_listening w [] h = refl
not_listening w (r ∷ ws) h = ground (arith, not_listening w ws)

not_called :
    (w : ℕ) (u : Update) (ws : List WatcherRegistration)
    → count_if (λ (r : WatcherRegistration). r.watcher_id == w) ws ≡ 0
    → count_if (is_for w) (calls_of u ws) ≡ 0
unfolding calls_of count_if
not_called w u [] h = refl
not_called w u (r ∷ ws) h = elim (Option-cases r.watcher) [
  | inl e ↦ rw e (not_called w u ws (ground (arith, h)))
  | inr (f, e) ↦ rw e (ground (arith, not_called w u ws))
]

not_delivered :
    (w : ℕ) (ws : List WatcherRegistration) (us : List Update)
    → count_if (λ (r : WatcherRegistration). r.watcher_id == w) ws ≡ 0
    → count_if (is_for w) (deliveries ws us) ≡ 0
unfolding deliveries count_if
not_delivered w ws [] h = refl
not_delivered w ws (u ∷ us) h = omega (
  arith,
  count_if-append (is_for w) (calls_of u ws) (deliveries ws us),
  not_called w u ws h,
  not_delivered w ws us h,
)

ids_of-map-header_of :
    (items : List Item) (k : ℕ) → ids_of_headers (map header_of items) k ≡ ids_of items k
unfolding count_if
ids_of-map-header_of items k = ap (ltb 0) (go items)
  where
    go :
        (is : List Item)
        → count_if (λ (h : ItemHeader). h.id == k) (map header_of is) ≡ count_if (has_id k) is
    go [] = refl
    go (i ∷ is) = ground (arith, go is)

-- The items that the new watcher is given, and no update yet.
registered-Tracks :
    (s : ActivityStore) (f user_data now : ℕ)
    → s.next_watcher_id + 1 < u64_mod
    → IsUnused s.next_watcher_id s
    → let (s', (w, headers)) = query_and_register s (some f) user_data now in
      Tracks (ids_of_headers headers) w s'
unfolding query_and_register notify_watchers apply_limits count_if
registered-Tracks s f user_data now r (unlisted, uncalled) =
    let w = s.next_watcher_id in
    let silent : count_if (is_for w) (s.owed ++ deliveries s.watchers (trim now s.limits s.items).1)
        ≡ 0 =
      omega (
        arith,
        uncalled,
        not_delivered w s.watchers ((trim now s.limits s.items).1) unlisted,
        count_if-append (is_for w) s.owed (deliveries s.watchers (trim now s.limits s.items).1),
      ) in
    record {
      listening = ground (
        arith,
        count_if-append (listens w) s.watchers
            (record { watcher_id = w; watcher = some f; user_data = user_data } ∷ []),
        not_listening w s.watchers unlisted,
      );
      older = omega (arith, r);
      mirrored = λ k.
          ap (λ us. shows us (ids_of_headers (map header_of (trim now s.limits s.items).0)) k)
            (not_received w _ silent)
          ∙ (unfold shows in ids_of-map-header_of (trim now s.limits s.items).0 k);
    }

module _ (s : ActivityStore) (f user_data now : ℕ) (cs : List ActivityCall) (k : ℕ) (v : IsValid s)
    (room : s.next_item_id + suc (length cs) < u64_mod)
    (room_w : s.next_watcher_id + suc (length cs) < u64_mod) (unused : IsUnused s.next_watcher_id s)
    (spared : All (Spares s.next_watcher_id) cs) where
  -- What is owed to the new watcher brings its list up to date.
  owed_is_enough :
      let (s', (w, headers)) = query_and_register s (some f) user_data now in
      let s'' = act_all s' cs in
      shows (received w s''.owed) (ids_of_headers headers) k ≡ ids_of s''.items k
  unfolding act query_and_register
  owed_is_enough =
      let w = s.next_watcher_id in
      let (s', (w', headers)) = query_and_register s (some f) user_data now in
      let ready =
        act-IsReady (length cs) s (record { id_used = v.0; items_ok = v.1; room = room })
          (registers (some f) user_data now) in
      let joined : s'.next_watcher_id ≤ w + 1 =
        act-next_watcher_id s (registers (some f) user_data now) (omega (arith, room_w)) in
      let t = registered-Tracks s f user_data now (omega (arith, room_w)) unused in
      (act_all-Tracks (ids_of_headers headers) w s' cs ready (omega (arith, room_w, joined)) spared
          t).mirrored
        k

-- Where no call of the watcher waits, it has had what is owed to it.
received-made :
    (w : ℕ) (r : Stream)
    → IsInStep r
    → count_if (is_for w) r.waiting ≡ 0
    → received w r.made ≡ received w r.store.owed
received-made w r v none_waits =
    sym (append-nil (received w r.made))
    ∙ ap (λ l. received w r.made ++ l) (sym (not_received w r.waiting none_waits))
    ∙ sym (received-append w r.made r.waiting)
    ∙ ap (received w) v

-- QueryAndRegister gives a watcher what it needs to follow the store, also where other threads use the
-- store between an operation and its calls of the watchers: from a valid store, with an id that no other
-- watcher has or had, and with room for new ids below 2 ^ 64, whatever operations and calls of watchers
-- follow, as long as the calls are made in the order in which the operations had the mutex and none takes
-- the watcher off: whenever no call of the watcher waits, the ids of the list that it was given, brought
-- up to date by the updates that it was called with, are the ids of the items of the store.
pub stream_steps-query_and_register :
    (r : Stream) (f user_data now : ℕ) (es : List StreamStep) (k : ℕ)
    → IsInStep r
    → IsValid r.store
    → r.store.next_item_id + suc (length (calls_in es)) < u64_mod
    → r.store.next_watcher_id + suc (length (calls_in es)) < u64_mod
    → IsUnused r.store.next_watcher_id r.store
    → All (Spares r.store.next_watcher_id) (calls_in es)
    → All InOrder es
    → let (s', (w, headers)) = query_and_register r.store (some f) user_data now in
      let last = stream_steps (stream_step r (calls (registers (some f) user_data now))) es in
      count_if (is_for w) last.waiting ≡ 0
      → shows (received w last.made) (ids_of_headers headers) k ≡ ids_of last.store.items k
unfolding stream_step act query_and_register
stream_steps-query_and_register r f user_data now es k step v room room_w unused spared ordered
      none_waits =
    let (s', (w, headers)) = query_and_register r.store (some f) user_data now in
    let start = stream_step r (calls (registers (some f) user_data now)) in
    let last = stream_steps start es in
    let in_step =
      stream_steps-IsInStep start es ordered
        (stream_step-IsInStep r (calls (registers (some f) user_data now)) tt step) in
    ap (λ us. shows us (ids_of_headers headers) k)
      (received-made r.store.next_watcher_id last in_step none_waits)
    ∙ subst
        (λ (x : ActivityStore).
          shows (received r.store.next_watcher_id x.owed) (ids_of_headers headers) k
          ≡ ids_of x.items k)
        (sym (stream_steps-store start es))
        (owed_is_enough r.store f user_data now (calls_in es) k v room room_w unused spared)
