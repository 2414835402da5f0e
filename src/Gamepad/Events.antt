-- ===== src/Gamepad/Events.antt =====
-- What each event does to the slots of the gamepads.
use droidctl.Base.{
  ℕ, ◌≡◌, ◌≢◌, refl, ap, sym, ◌∙◌, inl, inr, Bool-cases, Option, some, Option-cases, set, get_or,
  ◌==◌,
}
use droidctl.Base.Int.{ℤ}
use droidctl.Gamepad.{
  Gamepad, Slot, Button, Axis, Action, unset, gamepad_id_invalid, report_desc, slot_find, slot_init,
  slot_get_id, generate_open, generate_close, event_from_slot, generate_input_from_button,
  generate_input_from_axis, get_button_id, set_button, set_axis,
}
use droidctl.Hid.{HidOpen, HidInput}
use droidctl.Gamepad.Slots.{slot_find_lem, slot_find-set_other, slot_find-set_same}
use mathlib.Core.Option.{none-ne-some, some-injective}

-- What `generate_open` does when it succeeds.
pub record Opened (hid : Gamepad) (id : ℕ) (opened : HidOpen) (hid' : Gamepad) : Type 0 where
  pub slot_idx : ℕ
  pub free : slot_find hid gamepad_id_invalid ≡ some slot_idx
  pub hid_id : opened.hid_id ≡ slot_get_id slot_idx
  pub slots : hid' ≡ set hid slot_idx (slot_init id)

pub generate_open-Opened :
    (hid : Gamepad) (id : ℕ) {opened : HidOpen} {hid' : Gamepad}
    → generate_open hid id ≡ some (opened, hid')
    → Opened hid id opened hid'
unfolding generate_open
generate_open-Opened hid id {opened} {hid'} e =
    elim (Option-cases (slot_find hid gamepad_id_invalid)) [
      | inl full ↦ absurd (none-ne-some _ (sym (rw (generate_open, full) refl) ∙ e))
      | inr (i, free) ↦
          let made : some (
            record { hid_id = slot_get_id i; report_desc = report_desc },
            set hid i (slot_init id),
          )
              ≡ some (opened, hid') =
            sym (rw (generate_open, free) refl) ∙ e in
          let same = some-injective _ _ made in
          record {
            slot_idx = i;
            free = free;
            hid_id = sym (ap (λ p. p.0.hid_id) same);
            slots = sym (ap (λ p. p.1) same);
          }
    ]

-- A gamepad keeps its slot while another one is connected.
pub slot_find-open :
    (hid : Gamepad) (id other : ℕ) {opened : HidOpen} {hid' : Gamepad}
    → other ≢ gamepad_id_invalid
    → other ≢ id
    → generate_open hid id ≡ some (opened, hid')
    → slot_find hid' other ≡ slot_find hid other
unfolding slot_init
slot_find-open hid id other valid differs e =
    let o = generate_open-Opened hid id e in
    let (was, inside) = slot_find_lem hid gamepad_id_invalid o.slot_idx o.free in
    ap (λ slots. slot_find slots other) o.slots
    ∙ slot_find-set_other hid o.slot_idx (slot_init id) other (λ same. valid (same ∙ was)) differs

-- What `generate_close` does, by whether it finds the gamepad.
pub close_found :
    (hid : Gamepad) (id i : ℕ)
    → slot_find hid id ≡ some i
    → generate_close hid id
      ≡ some (
        slot_get_id i,
        set hid i (record (get_or hid i unset) { gamepad_id = gamepad_id_invalid }),
      )
unfolding generate_close
close_found hid id i found = rw (generate_close, found) refl

-- A gamepad keeps its slot while another one is removed.
pub slot_find-close :
    (hid : Gamepad) (id other : ℕ) {hid_id : ℕ} {hid' : Gamepad}
    → other ≢ gamepad_id_invalid
    → other ≢ id
    → generate_close hid id ≡ some (hid_id, hid')
    → slot_find hid' other ≡ slot_find hid other
unfolding generate_close
slot_find-close hid id other {hid_id} {hid'} valid differs e =
    elim (Option-cases (slot_find hid id)) [
      | inl absent ↦ absurd (none-ne-some _ (sym (rw (generate_close, absent) refl) ∙ e))
      | inr (i, found) ↦
          let (was, inside) = slot_find_lem hid id i found in
          ap (λ slots. slot_find slots other)
            (sym (ap (λ p. p.1) (some-injective _ _ (sym (close_found hid id i found) ∙ e))))
          ∙ slot_find-set_other hid i
              (record (get_or hid i unset) { gamepad_id = gamepad_id_invalid }) other
              (λ same. differs (same ∙ was)) valid
    ]

set_button-gamepad_id :
    (slot : Slot) (action : Action) (b : ℕ)
    → (set_button slot action b).gamepad_id ≡ slot.gamepad_id
set_button-gamepad_id slot Action.down b = refl
set_button-gamepad_id slot Action.up b = refl

set_axis-gamepad_id :
    (slot slot' : Slot) (axis : Axis) (value : ℤ)
    → set_axis slot axis value ≡ some slot'
    → slot'.gamepad_id ≡ slot.gamepad_id
set_axis-gamepad_id slot slot' Axis.left_x value e =
    sym (ap (λ s. s.gamepad_id) (some-injective _ _ e))
set_axis-gamepad_id slot slot' Axis.left_y value e =
    sym (ap (λ s. s.gamepad_id) (some-injective _ _ e))
set_axis-gamepad_id slot slot' Axis.right_x value e =
    sym (ap (λ s. s.gamepad_id) (some-injective _ _ e))
set_axis-gamepad_id slot slot' Axis.right_y value e =
    sym (ap (λ s. s.gamepad_id) (some-injective _ _ e))
set_axis-gamepad_id slot slot' Axis.left_trigger value e =
    sym (ap (λ s. s.gamepad_id) (some-injective _ _ e))
set_axis-gamepad_id slot slot' Axis.right_trigger value e =
    sym (ap (λ s. s.gamepad_id) (some-injective _ _ e))
set_axis-gamepad_id slot slot' Axis.unknown value e = absurd (none-ne-some _ e)

-- What an input event leaves: one slot changed, with its id, and a report for it.
pub record Reported (hid : Gamepad) (id : ℕ) (input : HidInput) (hid' : Gamepad) : Type 0 where
  pub slot_idx : ℕ
  pub slot : Slot
  pub found : slot_find hid id ≡ some slot_idx
  pub same_id : slot.gamepad_id ≡ (get_or hid slot_idx unset).gamepad_id
  pub report : input ≡ event_from_slot (slot_get_id slot_idx) slot
  pub slots : hid' ≡ set hid slot_idx slot

from_result :
    {hid : Gamepad} {id i : ℕ} (slot : Slot) {input : HidInput} {hid' : Gamepad}
    → slot_find hid id ≡ some i
    → slot.gamepad_id ≡ (get_or hid i unset).gamepad_id
    → ◌≡◌ {A = Option (HidInput × Gamepad)}
        (some (event_from_slot (slot_get_id i) slot, set hid i slot))
        (some (input, hid'))
    → Reported hid id input hid'
from_result {i = i} slot found same e =
    let pair = some-injective _ _ e in
    record {
      slot_idx = i;
      slot = slot;
      found = found;
      same_id = same;
      report = sym (ap (λ p. p.0) pair);
      slots = sym (ap (λ p. p.1) pair);
    }

pub button-Reported :
    (hid : Gamepad) (id : ℕ) (action : Action) (button : Button) {input : HidInput} {hid' : Gamepad}
    → generate_input_from_button hid id action button ≡ some (input, hid')
    → Reported hid id input hid'
unfolding generate_input_from_button
button-Reported hid id action button e = elim (Option-cases (slot_find hid id)) [
  | inl absent ↦ absurd (none-ne-some _ (sym (rw (generate_input_from_button, absent) refl) ∙ e))
  | inr (i, found) ↦ elim (Bool-cases (get_button_id button == 0)) [
    | inl ignored ↦
        absurd (none-ne-some _ (sym (rw (generate_input_from_button, found, ignored) refl) ∙ e))
    | inr known ↦
        from_result (set_button (get_or hid i unset) action (get_button_id button)) found
          (set_button-gamepad_id (get_or hid i unset) action (get_button_id button))
          (sym (rw (generate_input_from_button, found, known) refl) ∙ e)
  ]
]

pub axis-Reported :
    (hid : Gamepad) (id : ℕ) (axis : Axis) (value : ℤ) {input : HidInput} {hid' : Gamepad}
    → generate_input_from_axis hid id axis value ≡ some (input, hid')
    → Reported hid id input hid'
unfolding generate_input_from_axis
axis-Reported hid id axis value e = elim (Option-cases (slot_find hid id)) [
  | inl absent ↦ absurd (none-ne-some _ (sym (rw (generate_input_from_axis, absent) refl) ∙ e))
  | inr (i, found) ↦ elim (Option-cases (set_axis (get_or hid i unset) axis value)) [
    | inl ignored ↦
        absurd (none-ne-some _ (sym (rw (generate_input_from_axis, found, ignored) refl) ∙ e))
    | inr (slot, known) ↦
        from_result slot found (set_axis-gamepad_id (get_or hid i unset) slot axis value known)
          (sym (rw (generate_input_from_axis, found, known) refl) ∙ e)
  ]
]

pub slot_find-Reported :
    {hid : Gamepad} {id : ℕ} {input : HidInput} {hid' : Gamepad} (other : ℕ)
    → Reported hid id input hid'
    → slot_find hid' other ≡ slot_find hid other
slot_find-Reported {hid} other r =
    ap (λ slots. slot_find slots other) r.slots
    ∙ slot_find-set_same hid r.slot_idx r.slot other r.same_id
