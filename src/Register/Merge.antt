-- ===== src/Register/Merge.antt =====
-- MergeRecords of src/RegisterStore.cpp as a join on the records of one name.
use clipp.Prelude.{
  ℕ, ◌≡◌, refl, false, less, max_of, Order, ℕ_order, list_order, pair_order, max_of_comm,
  max_of_assoc, max_of_idem, max_of_either, less-max_of_left, less-max_of_right, ap, sym, ◌∙◌, ◌⊎◌,
  arith,
}
use clipp.Bytes.{Bytes}
use clipp.Clock.{Hlc, hlc_order}
use clipp.Register.{RegisterRecord, value_less, merge_records}

-- What decides between two values, in the order in which it is compared.
abbrev pub ValueKey : Type 0
ValueKey = Hlc × (Bytes × (ℕ × Bytes))

abbrev pub value_key : RegisterRecord → ValueKey
value_key r = (r.written, (r.origin_host_id, (r.flags, r.value)))

instance abbrev pub key_order : Order ValueKey
key_order = pair_order

pub value_less-key : (a b : RegisterRecord) → value_less a b ≡ less (value_key a) (value_key b)
unfolding value_less
value_less-key a b = ground arith

-- The record of a name, a value key and a touch.
abbrev pub assemble : Bytes → ValueKey → Hlc → RegisterRecord
assemble n (w, (o, (f, v))) t = record {
  name = n;
  value = v;
  written = w;
  touched = t;
  origin_host_id = o;
  flags = f;
}

-- On one name the merge is the join of the value keys and the join of the touches.
pub merge-assemble :
    (a b : RegisterRecord)
    → a.name ≡ b.name
    → merge_records a b
      ≡ assemble a.name (max_of (value_key a) (value_key b)) (max_of a.touched b.touched)
unfolding merge_records
merge-assemble a b e = ground (arith, value_less-key a b)

pub name-merge : (a b : RegisterRecord) → a.name ≡ b.name → (merge_records a b).name ≡ a.name
name-merge a b e = ap (λ (r : RegisterRecord). r.name) (merge-assemble a b e)

pub touched-merge :
    (a b : RegisterRecord) → (merge_records a b).touched ≡ max_of a.touched b.touched
unfolding merge_records
touched-merge a b = refl

pub value_key-merge :
    (a b : RegisterRecord) → value_key (merge_records a b) ≡ max_of (value_key a) (value_key b)
unfolding merge_records
value_key-merge a b = ground (arith, value_less-key a b)

-- A record is determined by its name, value key and touch.
pub record_eq :
    (a b : RegisterRecord)
    → a.name ≡ b.name
    → value_key a ≡ value_key b
    → a.touched ≡ b.touched
    → a ≡ b
record_eq a b e k t = λ i. assemble (e i) (k i) (t i)

-- The merge of two records of one name does not depend on the side on which they stand.
pub merge_comm : (a b : RegisterRecord) → a.name ≡ b.name → merge_records a b ≡ merge_records b a
merge_comm a b e =
    record_eq (merge_records a b) (merge_records b a)
      (name-merge a b e ∙ e ∙ sym (name-merge b a (sym e)))
      (value_key-merge a b ∙ max_of_comm (value_key a) (value_key b) ∙ sym (value_key-merge b a))
      (touched-merge a b ∙ max_of_comm a.touched b.touched ∙ sym (touched-merge b a))

pub merge_idem : (a : RegisterRecord) → merge_records a a ≡ a
unfolding merge_records
merge_idem a = ground (arith, max_of_idem a.touched)

module _ (a b c : RegisterRecord) where
  value_key_assoc :
      value_key (merge_records (merge_records a b) c)
      ≡ value_key (merge_records a (merge_records b c))
  value_key_assoc =
      value_key-merge (merge_records a b) c
      ∙ ap (λ (k : ValueKey). max_of k (value_key c)) (value_key-merge a b)
      ∙ max_of_assoc (value_key a) (value_key b) (value_key c)
      ∙ sym (ap (λ (k : ValueKey). max_of (value_key a) k) (value_key-merge b c))
      ∙ sym (value_key-merge a (merge_records b c))

  touched_assoc :
      (merge_records (merge_records a b) c).touched ≡ (merge_records a (merge_records b c)).touched
  touched_assoc =
      rw
        (
          touched-merge (merge_records a b) c,
          touched-merge a b,
          touched-merge a (merge_records b c),
          touched-merge b c,
        )
        (max_of_assoc a.touched b.touched c.touched)

  -- The merge of three records of one name does not depend on which two are merged first.
  pub merge_assoc :
      a.name ≡ b.name
      → b.name ≡ c.name
      → merge_records (merge_records a b) c ≡ merge_records a (merge_records b c)
  merge_assoc e f =
      record_eq (merge_records (merge_records a b) c) (merge_records a (merge_records b c))
        (name-merge (merge_records a b) c (name-merge a b e ∙ e ∙ f)
          ∙ name-merge a b e
          ∙ sym (name-merge a (merge_records b c) (e ∙ sym (name-merge b c f))))
        value_key_assoc touched_assoc

-- A least upper bound of two records, in the order of the values and in that of the touches.
pub record IsJoin (a b m : RegisterRecord) : Type 0 where
  pub above_left : value_less m a ≡ false
  pub above_right : value_less m b ≡ false
  pub touch_left : less m.touched a.touched ≡ false
  pub touch_right : less m.touched b.touched ≡ false
  pub value_from : (value_key m ≡ value_key a) ⊎ (value_key m ≡ value_key b)
  pub touch_from : (m.touched ≡ a.touched) ⊎ (m.touched ≡ b.touched)

-- The merge of two records, of whatever names, is not below either of them in the order of the
-- values or in that of the touches, and its value and its touch are each that of one of the two.
pub merge-IsJoin : (a b : RegisterRecord) → IsJoin a b (merge_records a b)
merge-IsJoin a b =
    let k = value_key-merge a b in
    record {
      above_left =
          value_less-key (merge_records a b) a
          ∙ ap (λ (x : ValueKey). less x (value_key a)) k
          ∙ (less-max_of_left (value_key a) (value_key b));
      above_right =
          value_less-key (merge_records a b) b
          ∙ ap (λ (x : ValueKey). less x (value_key b)) k
          ∙ (less-max_of_right (value_key a) (value_key b));
      touch_left = rw (touched-merge a b) (less-max_of_left a.touched b.touched);
      touch_right = rw (touched-merge a b) (less-max_of_right a.touched b.touched);
      value_from = rw k (max_of_either (value_key a) (value_key b));
      touch_from = rw (touched-merge a b) (max_of_either a.touched b.touched);
    }
