-- ===== src/Activity/Kept.antt =====
-- The invariant of the store under each operation of src/ClipboardActivityStore.cpp.
use clipp.Prelude.{
  ℕ, ◌+◌, ◌≤◌, ◌<◌, ◌≡◌, subst, Bool, false, some, List, beq, list_order, ℕ_order, list_beq_iff,
  count_if, if◌then◌else◌, arith, Bool-cases, inl, inr,
}
use clipp.Payload.{ClipboardPayload, is_zero}
use clipp.Activity.{Item, guid_of, has_id, has_guid, find_if, erase_first, insert_item}
use clipp.Activity.Operations.{item_of}
use clipp.Activity.Valid.{
  ItemsOk, id_outside, count_if-insert_item, count_if-erase_first, insert_item-Ascending,
  erase_first-Ascending, count_if-le,
}

module _ (next now : ℕ) (items : List Item) (p : ClipboardPayload) (v : ItemsOk next items) where
  pub new_item-ItemsOk :
      0 < next
      → (is_zero p.meta.event_guid ≡ false → count_if (has_guid p.meta.event_guid) items ≡ 0)
      → ItemsOk (next + 1) (insert_item (item_of next now p) items)
  new_item-ItemsOk pos fresh =
      let x = item_of next now p in
      record {
        ascending = insert_item-Ascending 0 x items (omega arith) v.ascending;
        ids_used = ground (
          arith,
          count_if-insert_item (id_outside (next + 1)) x items,
          count_if-le (id_outside (next + 1)) (id_outside next) items (λ i h. ground arith),
          v.ids_used,
        );
        ids_distinct = λ id. ground (
          arith,
          count_if-insert_item (has_id id) x items,
          v.ids_distinct id,
          v.ids_used,
          unused id,
        );
        events_distinct = λ guid h. elim (Bool-cases (beq p.meta.event_guid guid)) [
          | inl same ↦
              let e = (list_beq_iff p.meta.event_guid guid).0 same in
              let none_yet : count_if (has_guid guid) items ≡ 0 =
                subst (λ g. is_zero g ≡ false → count_if (has_guid g) items ≡ 0) e fresh h in
              ground (arith, count_if-insert_item (has_guid guid) x items, none_yet)
          | inr other ↦
              ground (
                arith,
                count_if-insert_item (has_guid guid) x items,
                other,
                v.events_distinct guid h,
              )
        ];
      }
    where
      unused : (id : ℕ) → next ≡ id → count_if (has_id id) items ≤ count_if (id_outside next) items
      unused id e = count_if-le (has_id id) (id_outside next) items (λ i h. ground (arith, e))

  pub moved_item-ItemsOk :
      (e : Item)
      → find_if (has_guid p.meta.event_guid) items ≡ some e
      → ItemsOk next
          (insert_item (item_of e.header.id now p) (erase_first (has_guid p.meta.event_guid) items))
  moved_item-ItemsOk e f =
      let x = item_of e.header.id now p in
      let g = p.meta.event_guid in
      let rest = erase_first (has_guid g) items in
      let same : guid_of e ≡ g =
        (list_beq_iff (guid_of e) g).0
          ((count_if-erase_first (id_outside next) (has_guid g) items e f).1) in
      record {
        ascending =
            insert_item-Ascending 0 x rest (omega arith)
              (erase_first-Ascending (has_guid g) 0 items v.ascending);
        ids_used = ground (
          arith,
          count_if-insert_item (id_outside next) x rest,
          (count_if-erase_first (id_outside next) (has_guid g) items e f).0,
          v.ids_used,
        );
        ids_distinct = λ id. ground (
          arith,
          count_if-insert_item (has_id id) x rest,
          (count_if-erase_first (has_id id) (has_guid g) items e f).0,
          v.ids_distinct id,
        );
        events_distinct = λ guid h.
            let counted : count_if (has_guid guid) items
                ≡ count_if (has_guid guid) rest + (if beq g guid then 1 else 0) =
              subst
                (λ k.
                  count_if (has_guid guid) items
                  ≡ count_if (has_guid guid) rest + (if beq k guid then 1 else 0))
                same ((count_if-erase_first (has_guid guid) (has_guid g) items e f).0) in
            omega (
              arith,
              count_if-insert_item (has_guid guid) x rest,
              counted,
              v.events_distinct guid h,
            );
      }

pub erased-ItemsOk :
    (next : ℕ) (items : List Item) (q : Item → Bool) (e : Item)
    → ItemsOk next items
    → find_if q items ≡ some e
    → ItemsOk next (erase_first q items)
erased-ItemsOk next items q e v f = record {
  ascending = erase_first-Ascending q 0 items v.ascending;
  ids_used = omega (arith, (count_if-erase_first (id_outside next) q items e f).0, v.ids_used);
  ids_distinct =
      λ id. omega (arith, (count_if-erase_first (has_id id) q items e f).0, v.ids_distinct id);
  events_distinct = λ guid h.
      omega (arith, (count_if-erase_first (has_guid guid) q items e f).0, v.events_distinct guid h);
}
