-- ===== src/Gamepad/Session.antt =====
-- What happens to a gamepad between its connection and its removal.
use droidctl.Base.{ℕ, ◌≡◌, ◌≢◌, refl, ap, sym, ◌∙◌, none, some, set, get_or, length}
use droidctl.Base.Int.{ℤ}
use droidctl.Gamepad.{
  Gamepad, Button, Axis, Action, unset, gamepad_id_invalid, slot_find, slot_init, slot_get_id,
  generate_open, generate_close, event_from_slot, generate_input_from_button,
  generate_input_from_axis,
}
use droidctl.Hid.{HidOpen, HidInput}
use droidctl.Binary.{write16le}
use droidctl.Gamepad.Slots.{slot_find_lem, slot_find-set_new}
use mathlib.Core.Option.{some-injective}
use droidctl.Gamepad.Events.{
  generate_open-Opened, slot_find-open, close_found, slot_find-close, button-Reported,
  axis-Reported, slot_find-Reported,
}

-- Events that neither connect nor remove the gamepad `id`: those of the other gamepads, and its own
-- input.
pub data Run (id : ℕ) : Gamepad → Gamepad → Type 0 where
  start : {hid : Gamepad} → Run id hid hid
  connect :
      {first hid hid' : Gamepad} {opened : HidOpen} (other : ℕ)
      → Run id first hid
      → id ≢ other
      → generate_open hid other ≡ some (opened, hid')
      → Run id first hid'
  remove :
      {first hid hid' : Gamepad} {hid_id : ℕ} (other : ℕ)
      → Run id first hid
      → id ≢ other
      → generate_close hid other ≡ some (hid_id, hid')
      → Run id first hid'
  button :
      {first hid hid' : Gamepad} {input : HidInput} (any : ℕ) (action : Action) (b : Button)
      → Run id first hid
      → generate_input_from_button hid any action b ≡ some (input, hid')
      → Run id first hid'
  axis :
      {first hid hid' : Gamepad} {input : HidInput} (any : ℕ) (a : Axis) (value : ℤ)
      → Run id first hid
      → generate_input_from_axis hid any a value ≡ some (input, hid')
      → Run id first hid'

slot_find-Run :
    {id : ℕ} {first hid : Gamepad}
    → id ≢ gamepad_id_invalid
    → Run id first hid
    → slot_find hid id ≡ slot_find first id
slot_find-Run valid start = refl
slot_find-Run {id} valid (connect {hid = hid} other run differs e) =
    slot_find-open hid other id valid differs e ∙ slot_find-Run valid run
slot_find-Run {id} valid (remove {hid = hid} other run differs e) =
    slot_find-close hid other id valid differs e ∙ slot_find-Run valid run
slot_find-Run {id} valid (button {hid = hid} any action b run e) =
    slot_find-Reported id (button-Reported hid any action b e) ∙ slot_find-Run valid run
slot_find-Run {id} valid (axis {hid = hid} any a value run e) =
    slot_find-Reported id (axis-Reported hid any a value e) ∙ slot_find-Run valid run

found_after_open :
    (hid : Gamepad) (id : ℕ) {opened : HidOpen} {hid' : Gamepad}
    → slot_find hid id ≡ none
    → generate_open hid id ≡ some (opened, hid')
    → (i : ℕ) × (slot_find hid' id ≡ some i) × (opened.hid_id ≡ slot_get_id i)
unfolding slot_init
found_after_open hid id absent e =
    let o = generate_open-Opened hid id e in
    let (was, inside) = slot_find_lem hid gamepad_id_invalid o.slot_idx o.free in
    (
      o.slot_idx,
      ap (λ slots. slot_find slots id) o.slots
          ∙ slot_find-set_new hid o.slot_idx (slot_init id) id absent inside refl,
      o.hid_id,
    )

-- When a gamepad that has no slot yet is connected, then, whatever other gamepads are connected or
-- removed in between and whatever input there is, its removal succeeds, and closes the HID device
-- that its connection opened.
pub generate_close-Run :
    (id : ℕ) (hid connected later : Gamepad) (opened : HidOpen)
    → id ≢ gamepad_id_invalid
    → slot_find hid id ≡ none
    → generate_open hid id ≡ some (opened, connected)
    → Run id connected later
    → (closed : Gamepad) × (generate_close later id ≡ some (opened.hid_id, closed))
generate_close-Run id hid connected later opened valid absent e run =
    let (i, found, hid_id) = found_after_open hid id absent e in
    (
      _,
      close_found later id i (slot_find-Run valid run ∙ found)
          ∙ ap
              (λ n. some (
                n,
                set later i (record (get_or later i unset) { gamepad_id = gamepad_id_invalid }),
              ))
              (sym hid_id),
    )

-- Under the same conditions every report of a button of that gamepad is for the HID device that its
-- connection opened, and its size is the number of its bytes, 15.
pub button-Run :
    (id : ℕ) (hid connected later after : Gamepad) (opened : HidOpen) (input : HidInput)
    (action : Action) (b : Button)
    → id ≢ gamepad_id_invalid
    → slot_find hid id ≡ none
    → generate_open hid id ≡ some (opened, connected)
    → Run id connected later
    → generate_input_from_button later id action b ≡ some (input, after)
    → (input.hid_id ≡ opened.hid_id) × (input.size ≡ 15) × (length input.bytes ≡ 15)
unfolding event_from_slot write16le
button-Run id hid connected later after opened input action b valid absent e run pressed =
    let (i, found, hid_id) = found_after_open hid id absent e in
    let r = button-Reported later id action b pressed in
    let same : r.slot_idx ≡ i =
      some-injective _ _ (sym r.found ∙ slot_find-Run valid run ∙ found) in
    (
      ap (λ n. n.hid_id) r.report ∙ ap slot_get_id same ∙ sym hid_id,
      ap (λ n. n.size) r.report,
      ap (λ n. length n.bytes) r.report,
    )
