-- ===== src/Popup/Selected.antt =====
-- The selection of the popup of src/PopupModel.cpp, over any sequence of its events.
use clipp.Prelude.{
  ℕ, zero, suc, ◌+◌, ◌<◌, ◌≡◌, refl, Bool, true, false, Option, none, some, List, [], ◌∷◌, ◌++◌,
  ltb, leb, length, is_empty, keep_if, arith, Bool-cases, inl, inr,
}
use clipp.PopupText.{WString}
use clipp.Popup.{
  PopupItem, Group, Mode, Selection, PopupModel, new_popup, passes, refilter, group_items,
  other_group, empty, first_non_empty, top_of, clamped, clamp_selection, selected_group, set_items,
  set_filter, append_to_filter, backspace_filter, without_last, item_at, selected_item, step_up,
  step_down, hop_left, hop_right, moved, move_up, move_down, move_left, move_right, select_at,
  enter_edit_mode, leave_edit_mode, escape_in, handle_escape, close,
}
use clipp.Popup.Events.{
  PopupEvent, sets_items, sets_filter, appends, backspaces, moves_up, moves_down, moves_left,
  moves_right, selects, enters_edit, leaves_edit, escapes, handle, handle_all,
}

-- The selection is a visible row; there is none only where no row is visible.
abbrev pub SelectionOk : PopupModel → Option Selection → Type 0
SelectionOk m none = empty m ≡ true
SelectionOk m (some s) = s.index < length (group_items m s.group)

-- What is visible is what the filter passes, in its order, and the selection is right.
pub record IsValid (m : PopupModel) : Type 0 where
  pub registers_shown : m.visible_registers ≡ keep_if (passes m.filter) m.registers
  pub history_shown : m.visible_history ≡ keep_if (passes m.filter) m.history
  pub selection_ok : SelectionOk m m.selection

rows : {A : Type 0} (xs : List A) → is_empty xs ≡ false → 0 < length xs
rows [] h = ground arith
rows (x ∷ xs) h = omega arith

first_non_empty-SelectionOk : (m : PopupModel) → SelectionOk m (first_non_empty m)
unfolding first_non_empty
first_non_empty-SelectionOk m = elim (Bool-cases (is_empty m.visible_history)) [
  | inr shown ↦ rw shown (rows m.visible_history shown)
  | inl none_left ↦ rw none_left (elim (Bool-cases (is_empty m.visible_registers)) [
    | inr shown ↦ rw shown (rows m.visible_registers shown)
    | inl nothing ↦ rw nothing (ground (arith, nothing, none_left))
  ])
]

top_of-SelectionOk :
    (m : PopupModel) (g : Group) (otherwise : Option Selection)
    → (is_empty (group_items m g) ≡ true → SelectionOk m otherwise)
    → SelectionOk m (top_of m g otherwise)
unfolding top_of
top_of-SelectionOk m g otherwise h = elim (Bool-cases (is_empty (group_items m g))) [
  | inl none_there ↦ rw none_there (h none_there)
  | inr there ↦ rw there (rows (group_items m g) there)
]

both_empty :
    (m : PopupModel) (g : Group)
    → is_empty (group_items m g) ≡ true
    → is_empty (group_items m (other_group g)) ≡ true
    → empty m ≡ true
both_empty m Group.registers p q = ground (arith, p, q)
both_empty m Group.history p q = ground (arith, p, q)

clamped-some :
    (m : PopupModel) (preferred : Option Group) (s : Selection)
    → SelectionOk m (clamped m preferred (some s))
unfolding clamped
clamped-some m preferred s = elim (Bool-cases (is_empty (group_items m s.group))) [
  | inl gone ↦ rw gone (top_of-SelectionOk m (other_group s.group) none (both_empty m s.group gone))
  | inr there ↦ rw there (omega (arith, rows (group_items m s.group) there))
]

clamped-SelectionOk :
    (m : PopupModel) (preferred : Option Group) (s : Option Selection)
    → SelectionOk m (clamped m preferred s)
unfolding clamped
clamped-SelectionOk m none none = first_non_empty-SelectionOk m
clamped-SelectionOk m (some g) none =
    top_of-SelectionOk m g (first_non_empty m) (λ h. first_non_empty-SelectionOk m)
clamped-SelectionOk m none (some s) = clamped-some m none s
clamped-SelectionOk m (some g) (some s) = clamped-some m (some g) s

clamp_selection-IsValid :
    (preferred : Option Group) (m : PopupModel)
    → m.visible_registers ≡ keep_if (passes m.filter) m.registers
    → m.visible_history ≡ keep_if (passes m.filter) m.history
    → IsValid (clamp_selection preferred m)
unfolding clamp_selection
clamp_selection-IsValid preferred m p q = record {
  registers_shown = p;
  history_shown = q;
  selection_ok = clamped-SelectionOk m preferred m.selection;
}

set_items-IsValid : (m : PopupModel) (rs hs : List PopupItem) → IsValid (set_items m rs hs)
unfolding set_items refilter
set_items-IsValid m rs hs =
    clamp_selection-IsValid (selected_group m.selection)
      (refilter (record m { registers = rs; history = hs })) refl refl

set_filter-IsValid : (m : PopupModel) (text : WString) → IsValid (set_filter m text)
unfolding set_filter refilter
set_filter-IsValid m text =
    clamp_selection-IsValid (selected_group m.selection)
      (record (refilter (record m { filter = text })) { selection = none }) refl refl

-- A move goes from a visible row to a visible row.
moved-IsValid :
    (f : Selection → Selection) (m : PopupModel)
    → ((s : Selection) → SelectionOk m (some s) → SelectionOk m (some (f s)))
    → IsValid m
    → IsValid (moved f m)
moved-IsValid f m h v = record {
  registers_shown = v.registers_shown;
  history_shown = v.history_shown;
  selection_ok = go m.selection v.selection_ok;
}
  where
    go :
        (s : Option Selection)
        → SelectionOk m s
        → SelectionOk m (elim s [ none ↦ none | some t ↦ some (f t) ])
    go none k = k
    go (some t) k = h t k

module _ (m : PopupModel) (v : IsValid m) where
  step_up-SelectionOk : (s : Selection) → SelectionOk m (some s) → SelectionOk m (some (step_up s))
  step_up-SelectionOk s k = elim (Bool-cases (ltb 0 s.index)) [
    | inl above ↦ rw above (omega arith)
    | inr first ↦ rw first k
  ]

  step_down-SelectionOk :
      (s : Selection) → SelectionOk m (some s) → SelectionOk m (some (step_down m s))
  step_down-SelectionOk s k =
      elim (Bool-cases (ltb (s.index + 1) (length (group_items m s.group)))) [
        | inl below ↦ rw below (ground arith)
        | inr last ↦ rw last k
      ]

  hop_left-SelectionOk :
      (g : Group) (i : ℕ) → i < length (group_items m g) → SelectionOk m (some (hop_left m g i))
  hop_left-SelectionOk Group.registers i k = k
  hop_left-SelectionOk Group.history i k = elim (Bool-cases (is_empty m.visible_registers)) [
    | inl nothing ↦ rw nothing k
    | inr there ↦ rw there (omega (arith, rows m.visible_registers there))
  ]

  hop_right-SelectionOk :
      (g : Group) (i : ℕ) → i < length (group_items m g) → SelectionOk m (some (hop_right m g i))
  hop_right-SelectionOk Group.history i k = k
  hop_right-SelectionOk Group.registers i k = elim (Bool-cases (is_empty m.visible_history)) [
    | inl nothing ↦ rw nothing k
    | inr there ↦ rw there (omega (arith, rows m.visible_history there))
  ]

  select_at-IsValid : (g : Group) (i : ℕ) → IsValid (select_at m g i)
  unfolding select_at
  select_at-IsValid g i = elim (Bool-cases (leb (length (group_items m g)) i)) [
    | inl beyond ↦ rw beyond v
    | inr within ↦ rw within (record {
      registers_shown = v.registers_shown;
      history_shown = v.history_shown;
      selection_ok = ground (arith, within);
    })
  ]

  backspace_filter-IsValid : IsValid (backspace_filter m).0
  unfolding backspace_filter
  backspace_filter-IsValid = elim (Bool-cases (is_empty m.filter)) [
    | inl nothing ↦ rw nothing v
    | inr typed ↦ rw typed (set_filter-IsValid m (without_last m.filter))
  ]

  escape_in-IsValid : (mode : Mode) → IsValid (escape_in mode m).0
  unfolding escape_in
  escape_in-IsValid Mode.edit = record {
    registers_shown = v.registers_shown;
    history_shown = v.history_shown;
    selection_ok = v.selection_ok;
  }
  escape_in-IsValid Mode.browse = elim (Bool-cases (is_empty m.filter)) [
    | inl nothing ↦ rw nothing v
    | inr typed ↦ rw typed (set_filter-IsValid m [])
  ]

  handle-IsValid : (e : PopupEvent) → IsValid (handle m e)
  unfolding handle append_to_filter move_up move_down move_left move_right enter_edit_mode
      leave_edit_mode handle_escape
  handle-IsValid (sets_items rs hs) = set_items-IsValid m rs hs
  handle-IsValid (sets_filter text) = set_filter-IsValid m text
  handle-IsValid (appends ch) = set_filter-IsValid m (m.filter ++ ch ∷ [])
  handle-IsValid backspaces = backspace_filter-IsValid
  handle-IsValid moves_up = moved-IsValid step_up m step_up-SelectionOk v
  handle-IsValid moves_down = moved-IsValid (step_down m) m step_down-SelectionOk v
  handle-IsValid moves_left =
      moved-IsValid (λ s. hop_left m s.group s.index) m (λ s. hop_left-SelectionOk s.group s.index)
        v
  handle-IsValid moves_right =
      moved-IsValid (λ s. hop_right m s.group s.index) m
        (λ s. hop_right-SelectionOk s.group s.index) v
  handle-IsValid (selects g i) = select_at-IsValid g i
  handle-IsValid enters_edit = record {
    registers_shown = v.registers_shown;
    history_shown = v.history_shown;
    selection_ok = v.selection_ok;
  }
  handle-IsValid leaves_edit = record {
    registers_shown = v.registers_shown;
    history_shown = v.history_shown;
    selection_ok = v.selection_ok;
  }
  handle-IsValid escapes = escape_in-IsValid m.mode

-- From a valid popup every sequence of calls leads to a valid popup: each group shows the items that
-- the filter passes, in their order, and the selection is a visible row; there is none only where no
-- row is visible.
pub handle_all-IsValid :
    (m : PopupModel) (es : List PopupEvent) → IsValid m → IsValid (handle_all m es)
unfolding handle_all
handle_all-IsValid m [] v = v
handle_all-IsValid m (e ∷ es) v = handle_all-IsValid (handle m e) es (handle-IsValid m v e)

pub new_popup-IsValid : IsValid new_popup
unfolding new_popup keep_if
new_popup-IsValid = record { registers_shown = refl; history_shown = refl; selection_ok = refl }

item_at-some :
    (xs : List PopupItem) (i : ℕ) → i < length xs → (x : PopupItem) × (item_at xs i ≡ some x)
unfolding item_at
item_at-some [] i h = absurd (omega arith)
item_at-some (x ∷ xs) zero h = (x, refl)
item_at-some (x ∷ xs) (suc i) h = item_at-some xs i (omega arith)

-- Of a valid popup with a visible row there is a selected item, which is what Enter acts on.
pub selected_item-some :
    (m : PopupModel) → IsValid m → empty m ≡ false → (x : PopupItem) × (selected_item m ≡ some x)
unfolding selected_item
selected_item-some m v h = go m.selection v.selection_ok
  where
    go :
        (s : Option Selection)
        → SelectionOk m s
        → (x : PopupItem) × (elim s [
          | none ↦ none
          | some t ↦ item_at (group_items m t.group) t.index
        ]
            ≡ some x)
    go none k = absurd (clash k h)
      where
        clash : {b : Bool} → b ≡ true → b ≡ false → ⊥
        clash p q = ground arith
    go (some t) k = item_at-some (group_items m t.group) t.index k

-- Three presses of Escape close any popup: the first two leave the editor and clear the filter, where
-- there is one, and the third finds neither.
pub handle_escape-close :
    (m : PopupModel) → (handle_escape (handle_escape (handle_escape m).0).0).1 ≡ close
unfolding handle_escape escape_in set_filter clamp_selection refilter
handle_escape-close m = go m.mode refl
  where
    go :
        (mode : Mode)
        → m.mode ≡ mode
        → (handle_escape (handle_escape (handle_escape m).0).0).1 ≡ close
    go Mode.edit e = elim (Bool-cases (is_empty m.filter)) [
      | inl nothing ↦ rw e (rw nothing (rw nothing refl))
      | inr typed ↦ rw e (rw typed refl)
    ]
    go Mode.browse e = elim (Bool-cases (is_empty m.filter)) [
      | inl nothing ↦ rw e (rw nothing (rw nothing (rw nothing refl)))
      | inr typed ↦ rw e (rw typed refl)
    ]
