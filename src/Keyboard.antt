-- ===== src/Keyboard.antt =====
-- app/src/hid/hid_keyboard.{h,c}: the keyboard of the client as a HID device.
pub mod Keys
pub mod Session
use droidctl.Base.{
  ℕ, zero, suc, ◌+◌, Bool, true, false, not, ◌&&◌, ◌||◌, Option, none, some, List, [], ◌∷◌, ◌++◌,
  set, replicate, ltb, leb, ◌==◌, if◌then◌else◌, bit_and, bit_or,
}
use droidctl.Hid.{HidOpen, HidInput}
use droidctl.Binary.{u8}

abbrev pub keyboard_keys : ℕ
keyboard_keys = 0x66

abbrev pub keyboard_max_keys : ℕ
keyboard_max_keys = 6

abbrev pub hid_id_keyboard : ℕ
hid_id_keyboard = 1

-- `SC_HID_KEYBOARD_REPORT_DESC`
abbrev pub report_desc : List ℕ
report_desc =
    0x05 ∷ 0x01 ∷ 0x09 ∷ 0x06 ∷ 0xa1 ∷ 0x01 ∷ 0x05 ∷ 0x07 ∷ 0x19 ∷ 0xe0 ∷ 0x29 ∷ 0xe7 ∷ 0x15 ∷ 0x00
    ∷ 0x25 ∷ 0x01 ∷ 0x75 ∷ 0x01 ∷ 0x95 ∷ 0x08 ∷ 0x81 ∷ 0x02 ∷ 0x75 ∷ 0x08 ∷ 0x95 ∷ 0x01 ∷ 0x81
    ∷ 0x01 ∷ 0x05 ∷ 0x08 ∷ 0x19 ∷ 0x01 ∷ 0x29 ∷ 0x05 ∷ 0x75 ∷ 0x01 ∷ 0x95 ∷ 0x05 ∷ 0x91 ∷ 0x02
    ∷ 0x75 ∷ 0x03 ∷ 0x95 ∷ 0x01 ∷ 0x91 ∷ 0x01 ∷ 0x05 ∷ 0x07 ∷ 0x19 ∷ 0x00 ∷ 0x29 ∷ 0x65 ∷ 0x15
    ∷ 0x00 ∷ 0x25 ∷ 0x65 ∷ 0x75 ∷ 0x08 ∷ 0x95 ∷ 6 ∷ 0x81 ∷ 0x00 ∷ 0xc0 ∷ []

-- `hid->keys`
abbrev pub Keyboard : Type 0
Keyboard = List Bool

pub data Action : Type 0 where
  down up : Action

-- The values that app/src/input_events.h takes from SDL.
pub record Sdl : Type 0 where
  pub mod_lctrl : ℕ
  pub mod_lshift : ℕ
  pub mod_lalt : ℕ
  pub mod_lgui : ℕ
  pub mod_rctrl : ℕ
  pub mod_rshift : ℕ
  pub mod_ralt : ℕ
  pub mod_rgui : ℕ
  pub mod_caps : ℕ
  pub mod_num : ℕ
  pub scancode_lctrl : ℕ
  pub scancode_rgui : ℕ
  pub scancode_capslock : ℕ
  pub scancode_numlock : ℕ

unfoldable pub init : Keyboard
init = replicate keyboard_keys false

-- The report, from its modifiers and its six keys.
abbrev pub input_with : ℕ → List ℕ → HidInput
input_with mods keys = record { hid_id = hid_id_keyboard; size = 8; bytes = u8 mods ∷ 0 ∷ keys }

-- The flag `bit` if the modifier `mask` is in `mod`.
abbrev pub flag : ℕ → ℕ → ℕ → ℕ
flag mod_ mask bit = if bit_and mod_ mask == 0 then 0 else bit

-- The loop over the keys from `i` on, with `keys_data` and `keys_pressed_count`.
unfoldable pub fill_keys : ℕ → List Bool → List ℕ → ℕ → List ℕ
fill_keys i [] keys_data count = keys_data
fill_keys i (false ∷ keys) keys_data count = fill_keys (suc i) keys keys_data count
fill_keys i (true ∷ keys) keys_data count =
    let rest = fill_keys (suc i) keys (set keys_data count (u8 i)) (count + 1) in
    if leb keyboard_max_keys count then replicate keyboard_max_keys 1 else rest

abbrev pub is_down : Action → Bool
is_down Action.down = true
is_down Action.up = false

-- `hid->keys[scancode] = …`, within the array.
abbrev pub press : Keyboard → ℕ → Action → Keyboard
press hid scancode action =
    if ltb scancode keyboard_keys then set hid scancode (is_down action) else hid

module _ (sdl : Sdl) where
  open sdl use {
    mod_lctrl, mod_lshift, mod_lalt, mod_lgui, mod_rctrl, mod_rshift, mod_ralt, mod_rgui, mod_caps,
    mod_num, scancode_lctrl, scancode_rgui, scancode_capslock, scancode_numlock,
  }

  unfoldable pub mod_from_sdl_keymod : ℕ → ℕ
  mod_from_sdl_keymod keymod =
      let mods = flag keymod mod_lctrl 0x01 in
      let mods = bit_or mods (flag keymod mod_lshift 0x02) in
      let mods = bit_or mods (flag keymod mod_lalt 0x04) in
      let mods = bit_or mods (flag keymod mod_lgui 0x08) in
      let mods = bit_or mods (flag keymod mod_rctrl 0x10) in
      let mods = bit_or mods (flag keymod mod_rshift 0x20) in
      let mods = bit_or mods (flag keymod mod_ralt 0x40) in bit_or mods (flag keymod mod_rgui 0x80)

  abbrev pub scancode_is_modifier : ℕ → Bool
  scancode_is_modifier scancode = leb scancode_lctrl scancode && leb scancode scancode_rgui

  -- `none` is the result false, with nothing changed.
  unfoldable pub generate_input_from_key : Keyboard → ℕ → Action → ℕ → Option (HidInput × Keyboard)
  generate_input_from_key hid scancode action mods_state =
      let hid' = press hid scancode action in
      if leb keyboard_keys scancode && not (scancode_is_modifier scancode)
      then none
      else some (
        input_with (mod_from_sdl_keymod mods_state)
            (fill_keys 0 hid' (replicate keyboard_max_keys 0) 0),
        hid',
      )

  unfoldable pub generate_input_from_mods : ℕ → Option HidInput
  generate_input_from_mods mods_state =
      let capslock = not (bit_and mods_state mod_caps == 0) in
      let numlock = not (bit_and mods_state mod_num == 0) in
      let keys = replicate keyboard_max_keys 0 in
      let keys = if capslock then set keys 0 (u8 scancode_capslock) else keys in
      let keys =
        if numlock then set keys (if capslock then 1 else 0) (u8 scancode_numlock) else keys in
      if not capslock && not numlock then none else some (input_with 0 keys)

unfoldable pub generate_open : HidOpen
generate_open = record { hid_id = hid_id_keyboard; report_desc = report_desc }

unfoldable pub generate_close : ℕ
generate_close = hid_id_keyboard
