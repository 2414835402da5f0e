-- ===== src/Gamepad.antt =====
-- app/src/hid/hid_gamepad.{h,c}: the gamepads of the client as HID devices of the phone.
pub mod Slots
pub mod Events
pub mod Session
use droidctl.Base.{
  ℕ, zero, suc, ◌+◌, ◌-◌, ◌%◌, ◌^◌, Bool, true, false, not, Option, none, some, List, [], ◌∷◌, ◌++◌,
  length, get_or, set, replicate, ◌==◌, if◌then◌else◌, bit_and, bit_or,
}
use droidctl.Hid.{HidOpen, HidInput}
use droidctl.Base.Int.{ℤ, pos, negsuc, pos_part}
use droidctl.Binary.{u8, u16, u32, write16le}

abbrev pub max_gamepads : ℕ
max_gamepads = 8

abbrev pub hid_id_gamepad_first : ℕ
hid_id_gamepad_first = 3

-- `SC_GAMEPAD_ID_INVALID` of app/src/input_events.h.
abbrev pub gamepad_id_invalid : ℕ
gamepad_id_invalid = 0

-- `SC_HID_GAMEPAD_REPORT_DESC`
abbrev pub report_desc : List ℕ
report_desc =
    0x05 ∷ 0x01 ∷ 0x09 ∷ 0x05 ∷ 0xa1 ∷ 0x01 ∷ 0xa1 ∷ 0x00 ∷ 0x05 ∷ 0x01 ∷ 0x09 ∷ 0x30 ∷ 0x09 ∷ 0x31
    ∷ 0x09 ∷ 0x33 ∷ 0x09 ∷ 0x34 ∷ 0x15 ∷ 0x00 ∷ 0x27 ∷ 0xff ∷ 0xff ∷ 0x00 ∷ 0x00 ∷ 0x75 ∷ 0x10
    ∷ 0x95 ∷ 0x04 ∷ 0x81 ∷ 0x02 ∷ 0x05 ∷ 0x01 ∷ 0x09 ∷ 0x32 ∷ 0x09 ∷ 0x35 ∷ 0x15 ∷ 0x00 ∷ 0x26
    ∷ 0xff ∷ 0x7f ∷ 0x75 ∷ 0x10 ∷ 0x95 ∷ 0x02 ∷ 0x81 ∷ 0x02 ∷ 0x05 ∷ 0x09 ∷ 0x19 ∷ 0x01 ∷ 0x29
    ∷ 0x10 ∷ 0x15 ∷ 0x00 ∷ 0x25 ∷ 0x01 ∷ 0x95 ∷ 0x10 ∷ 0x75 ∷ 0x01 ∷ 0x81 ∷ 0x02 ∷ 0x05 ∷ 0x01
    ∷ 0x09 ∷ 0x39 ∷ 0x15 ∷ 0x01 ∷ 0x25 ∷ 0x08 ∷ 0x75 ∷ 0x04 ∷ 0x95 ∷ 0x01 ∷ 0x81 ∷ 0x42 ∷ 0xc0
    ∷ 0xc0 ∷ []

pub record Slot : Type 0 where
  pub gamepad_id : ℕ
  pub buttons : ℕ
  pub axis_left_x : ℕ
  pub axis_left_y : ℕ
  pub axis_right_x : ℕ
  pub axis_right_y : ℕ
  pub axis_left_trigger : ℕ
  pub axis_right_trigger : ℕ

-- `hid->slots`.
abbrev pub Gamepad : Type 0
Gamepad = List Slot

-- `enum sc_gamepad_button` and `enum sc_gamepad_axis`; what SDL reports beyond them is unknown.
pub data Button : Type 0 where
  unknown south east west north back guide start left_stick right_stick : Button
  left_shoulder right_shoulder dpad_up dpad_down dpad_left dpad_right : Button

pub data Axis : Type 0 where
  unknown left_x left_y right_x right_y left_trigger right_trigger : Axis

pub data Action : Type 0 where
  down up : Action

-- `AXIS_RESCALE`, of a 16-bit value.
abbrev pub axis_rescale : ℤ → ℕ
axis_rescale (pos n) = u16 (n + 0x8000)
axis_rescale (negsuc n) = u16 (2 ^ 16 + 0x7fff - u16 n)

-- A slot whose memory was not set.
abbrev pub unset : Slot
unset = record {
  gamepad_id = 0;
  buttons = 0;
  axis_left_x = 0;
  axis_left_y = 0;
  axis_right_x = 0;
  axis_right_y = 0;
  axis_left_trigger = 0;
  axis_right_trigger = 0;
}

unfoldable pub slot_init : ℕ → Slot
slot_init gamepad_id = record {
  gamepad_id = gamepad_id;
  buttons = 0;
  axis_left_x = axis_rescale (pos 0);
  axis_left_y = axis_rescale (pos 0);
  axis_right_x = axis_rescale (pos 0);
  axis_right_y = axis_rescale (pos 0);
  axis_left_trigger = 0;
  axis_right_trigger = 0;
}

-- The index of the first slot of that id; `none` is -1.
unfoldable pub slot_find : Gamepad → ℕ → Option ℕ
slot_find [] gamepad_id = none
slot_find (slot ∷ slots) gamepad_id =
    let rest = slot_find slots gamepad_id in
    if gamepad_id == slot.gamepad_id
    then some 0
    else elim rest [ none ↦ none | some i ↦ some (suc i) ]

-- The other members of a slot are set when it is opened.
unfoldable pub init : Gamepad
init = replicate max_gamepads (record unset { gamepad_id = gamepad_id_invalid })

unfoldable pub slot_get_id : ℕ → ℕ
slot_get_id slot_idx = u16 (hid_id_gamepad_first + slot_idx)

-- `none` is the result false, with nothing changed.
unfoldable pub generate_open : Gamepad → ℕ → Option (HidOpen × Gamepad)
generate_open hid gamepad_id = elim (slot_find hid gamepad_id_invalid) [
  | none ↦ none
  | some slot_idx ↦ some (
    record { hid_id = slot_get_id slot_idx; report_desc = report_desc },
    set hid slot_idx (slot_init gamepad_id),
  )
]

-- The result has the id to close.
unfoldable pub generate_close : Gamepad → ℕ → Option (ℕ × Gamepad)
generate_close hid gamepad_id = elim (slot_find hid gamepad_id) [
  | none ↦ none
  | some slot_idx ↦ some (
    slot_get_id slot_idx,
    set hid slot_idx (record (get_or hid slot_idx unset) { gamepad_id = gamepad_id_invalid }),
  )
]

abbrev pub has : ℕ → ℕ → Bool
has buttons bit = not (bit_and buttons bit == 0)

-- The positions of the hat switch: 8 1 2 above, 7 0 3 in the middle, 6 5 4 below.
unfoldable pub get_dpad_value : ℕ → ℕ
get_dpad_value buttons =
    if has buttons 0x10000
    then (if has buttons 0x40000 then 8 else if has buttons 0x80000 then 2 else 1)
    else if has buttons 0x20000
    then (if has buttons 0x40000 then 6 else if has buttons 0x80000 then 4 else 5)
    else if has buttons 0x40000
    then 7
    else if has buttons 0x80000
    then 3
    else 0

unfoldable pub event_from_slot : ℕ → Slot → HidInput
event_from_slot hid_id slot = record {
  hid_id = hid_id;
  size = 15;
  bytes =
      write16le slot.axis_left_x
      ++ (write16le slot.axis_left_y
          ++ (write16le slot.axis_right_x
              ++ (write16le slot.axis_right_y
                  ++ (write16le slot.axis_left_trigger
                      ++ (write16le slot.axis_right_trigger
                          ++ (write16le (bit_and slot.buttons 0xffff)
                              ++ (get_dpad_value slot.buttons ∷ [])))))));
}

unfoldable pub get_button_id : Button → ℕ
get_button_id Button.south = 0x0001
get_button_id Button.east = 0x0002
get_button_id Button.west = 0x0008
get_button_id Button.north = 0x0010
get_button_id Button.back = 0x0400
get_button_id Button.guide = 0x1000
get_button_id Button.start = 0x0800
get_button_id Button.left_stick = 0x2000
get_button_id Button.right_stick = 0x4000
get_button_id Button.left_shoulder = 0x0040
get_button_id Button.right_shoulder = 0x0080
get_button_id Button.dpad_up = 0x10000
get_button_id Button.dpad_down = 0x20000
get_button_id Button.dpad_left = 0x40000
get_button_id Button.dpad_right = 0x80000
get_button_id Button.unknown = 0

abbrev pub set_button : Slot → Action → ℕ → Slot
set_button slot Action.down button = record slot { buttons = bit_or slot.buttons button }
set_button slot Action.up button = record slot {
  buttons = bit_and slot.buttons (2 ^ 32 - 1 - button);
}

-- An unknown button is refused by its id, as by its range.
unfoldable pub generate_input_from_button :
    Gamepad → ℕ → Action → Button → Option (HidInput × Gamepad)
generate_input_from_button hid gamepad_id action button = elim (slot_find hid gamepad_id) [
  | none ↦ none
  | some slot_idx ↦
      let slot = set_button (get_or hid slot_idx unset) action (get_button_id button) in
      if get_button_id button == 0
      then none
      else some (event_from_slot (slot_get_id slot_idx) slot, set hid slot_idx slot)
]

-- `none` is an axis that the `switch` does not know.
abbrev pub set_axis : Slot → Axis → ℤ → Option Slot
set_axis slot Axis.left_x value = some (record slot { axis_left_x = axis_rescale value })
set_axis slot Axis.left_y value = some (record slot { axis_left_y = axis_rescale value })
set_axis slot Axis.right_x value = some (record slot { axis_right_x = axis_rescale value })
set_axis slot Axis.right_y value = some (record slot { axis_right_y = axis_rescale value })
set_axis slot Axis.left_trigger value =
    some (record slot { axis_left_trigger = u16 (pos_part value) })
set_axis slot Axis.right_trigger value =
    some (record slot { axis_right_trigger = u16 (pos_part value) })
set_axis slot Axis.unknown value = none

unfoldable pub generate_input_from_axis : Gamepad → ℕ → Axis → ℤ → Option (HidInput × Gamepad)
generate_input_from_axis hid gamepad_id axis value = elim (slot_find hid gamepad_id) [
  | none ↦ none
  | some slot_idx ↦ elim (set_axis (get_or hid slot_idx unset) axis value) [
    | none ↦ none
    | some slot ↦ some (event_from_slot (slot_get_id slot_idx) slot, set hid slot_idx slot)
  ]
]
