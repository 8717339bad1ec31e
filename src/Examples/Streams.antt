-- ===== src/Examples/Streams.antt =====
-- Runs of the store of src/ClipboardActivityStore.cpp.
use clipp.Prelude.{
  ℕ, ◌≡◌, refl, true, false, some, List, [], ◌∷◌, map, length, count_if, keep_if, list_beq, arith,
}
use clipp.Bytes.{Bytes}
use clipp.Payload.{ClipboardPayload, clipp_format_utf8, is_zero}
use clipp.Activity.{
  Item, Limits, ActivityStore, new_activity, find_if, insert_item, notify_watchers, calls_of,
  deliveries, erase_first,
}
use clipp.Activity.Trim.{
  trim, apply_limits, estimate_item_bytes, cutoff, is_aged, drop_aged, drop_excess, drop_first,
  drop_heavy, drop_over_memory, total_bytes,
}
use clipp.Activity.Operations.{
  add_item, query_and_register, remove, erase_item, clear, item_of, items_since, settle_item,
  place_item, same_event,
}
use clipp.Activity.Calls.{ActivityCall, adds, removes, registers, clears, act_all, act}
use clipp.Activity.Valid.{IsValid}
use clipp.Activity.Runs.{act_all-IsValid, new_activity-IsValid}
use clipp.Activity.Bounds.{weight, fits, longest_end, young, trim-longest_end}
use clipp.Activity.Since.{items_since-append}
use clipp.Activity.Mirror.{shows, received, ids_of, ids_of_headers}
use clipp.Activity.Mirror.Joined.{stream_steps-query_and_register}
use clipp.Activity.Watched.{
  Stream, StreamStep, calls, delivers, stream_step, stream_steps, calls_in, take_at,
}

abbrev copied : ℕ → ℕ → Bytes → ClipboardPayload
copied event time text = record {
  meta = record {
    flags = 0;
    timestamp = time;
    hash_alg = 0;
    reserved0 = [];
    hash_bytes = [];
    origin_host_id = [];
    origin_host_name = [];
    origin_sequence_number = 0;
    event_guid = event ∷ [];
    reserved1 = [];
    format_id = clipp_format_utf8;
    is_compressed = 0;
    payload_data_size = length text;
    uncompressed_data_size = length text;
  };
  encoded = text;
}

abbrev note : ClipboardPayload
note = copied 1 100 (104 ∷ 105 ∷ [])

abbrev word : ClipboardPayload
word = copied 2 90 (104 ∷ [])

abbrev again : ClipboardPayload
again = copied 2 120 (104 ∷ [])

abbrev session : List ActivityCall
session =
    adds (some note) 5 5 ∷ adds (some word) 6 6 ∷ adds (some again) 7 7 ∷ removes 1 ∷ clears ∷ []

act_all-IsValid_example : IsValid (act_all new_activity session)
act_all-IsValid_example =
    act_all-IsValid new_activity session (unfold new_activity in omega arith) new_activity-IsValid

abbrev two : List Item
two = item_of 2 6 word ∷ item_of 1 5 note ∷ []

abbrev tight : Limits
tight = record { memory_limit_bytes = 300; max_age_seconds = 7; max_items = 5 }

trim-longest_end_example : (trim 9 tight two).0 ≡ longest_end (fits tight) (young 7 9 two)
trim-longest_end_example =
    trim-longest_end 9 tight two (unfold weight estimate_item_bytes in omega arith) (omega arith)
      (omega arith)

one_is_dropped : map (λ (i : Item). i.header.id) (trim 9 tight two).0 ≡ 1 ∷ []
unfolding trim cutoff is_aged keep_if drop_aged drop_excess drop_first drop_over_memory drop_heavy
    total_bytes estimate_item_bytes
one_is_dropped = refl

abbrev stream : ActivityStore
stream = act_all new_activity (adds (some note) 5 5 ∷ adds (some word) 6 6 ∷ [])

stream-IsValid : IsValid stream
stream-IsValid =
    act_all-IsValid new_activity (adds (some note) 5 5 ∷ adds (some word) 6 6 ∷ [])
      (unfold new_activity in omega arith) new_activity-IsValid

stream_items : stream.items ≡ two
unfolding act_all act add_item new_activity settle_item place_item same_event insert_item
    notify_watchers is_zero trim apply_limits cutoff is_aged drop_aged drop_excess drop_first
    drop_over_memory drop_heavy total_bytes estimate_item_bytes find_if keep_if list_beq
stream_items = refl

items_since-append_example : items_since stream (2 ∷ []) 7 ≡ note ∷ []
items_since-append_example =
    items_since-append stream [] (item_of 1 5 note ∷ []) (item_of 2 6 word) 7 stream-IsValid
      stream_items (unfold is_zero in refl)

abbrev opened : Stream
opened = record { store = new_activity; waiting = []; made = [] }

-- A second thread is under the mutex before the watcher hears of the first.
abbrev crossing : List StreamStep
crossing =
    calls (adds (some note) 5 5)
    ∷ calls (adds (some word) 6 6)
    ∷ delivers 0
    ∷ calls (removes 1)
    ∷ delivers 0
    ∷ delivers 0
    ∷ []

abbrev crossed : Stream
crossed = stream_steps (stream_step opened (calls (registers (some 8) 0 1))) crossing

stream_steps-query_and_register_example :
    let (s, (w, headers)) = query_and_register new_activity (some 8) 0 1 in
    shows (received w crossed.made) (ids_of_headers headers) 2 ≡ ids_of crossed.store.items 2
unfolding stream_steps stream_step calls_in act new_activity add_item settle_item place_item
    same_event insert_item notify_watchers is_zero trim apply_limits cutoff is_aged drop_aged
    drop_excess drop_first drop_over_memory drop_heavy total_bytes estimate_item_bytes find_if
    keep_if list_beq calls_of deliveries take_at remove erase_item erase_first query_and_register
    count_if
stream_steps-query_and_register_example =
    stream_steps-query_and_register opened 8 0 1 crossing 2 refl new_activity-IsValid (omega arith)
      (omega arith) (refl, refl) (tt, (tt, (tt, tt))) (tt, (tt, (refl, (tt, (refl, (refl, tt))))))
      refl

-- Where the second thread's call comes first, the watcher is left with an item that is gone.
abbrev overtaken : Stream
overtaken =
    stream_steps (stream_step opened (calls (registers (some 8) 0 1)))
      (calls (adds (some note) 5 5) ∷ calls clears ∷ delivers 1 ∷ delivers 0 ∷ [])

overtaken_item :
    let (s, (w, headers)) = query_and_register new_activity (some 8) 0 1 in
    (shows (received w overtaken.made) (ids_of_headers headers) 1 ≡ true)
    × (ids_of overtaken.store.items 1 ≡ false)
unfolding stream_steps stream_step act new_activity add_item settle_item place_item same_event
    insert_item notify_watchers is_zero trim apply_limits cutoff is_aged drop_aged drop_excess
    drop_first drop_over_memory drop_heavy total_bytes estimate_item_bytes find_if keep_if list_beq
    calls_of deliveries take_at clear query_and_register count_if shows received
overtaken_item = (refl, refl)
