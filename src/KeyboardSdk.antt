-- ===== src/KeyboardSdk.antt =====
-- app/src/keyboard_sdk.{h,c}: the keyboard whose keys and texts the device injects.
pub mod Typed
use droidctl.Base.{ℕ, ◌+◌, ◌%◌, ◌^◌, Bool, true, false, not, ◌&&◌, ◌||◌, Option, none, some}
use droidctl.Base.{List, [], ◌∷◌, ◌==◌, if◌then◌else◌, bit_and, bit_or, get_or}
use droidctl.Keyboard.{Action, Sdl}
use droidctl.Keycodes.{Keycode, special_keys, kp_nav_keys, alphaspace_keys, numbers_punct_keys}
use droidctl.ControlMsg.{ControlMsg}

-- `enum sc_key_inject_mode` of app/src/options.h.
pub data InjectMode : Type 0 where
  mixed text raw : InjectMode

abbrev pub is_text : InjectMode → Bool
is_text InjectMode.text = true
is_text _ = false

abbrev pub is_raw : InjectMode → Bool
is_raw InjectMode.raw = true
is_raw _ = false

abbrev pub is_mixed : InjectMode → Bool
is_mixed InjectMode.mixed = true
is_mixed _ = false

-- `struct sc_key_event` of app/src/input_events.h.
pub record KeyEvent : Type 0 where
  pub action : Action
  pub keycode : Keycode
  pub scancode : ℕ
  pub mods_state : ℕ
  pub repeat : Bool

-- `struct sc_keyboard_sdk`, without the trait and the controller.
pub record KeyboardSdk : Type 0 where
  pub repeat : ℕ
  pub key_inject_mode : InjectMode
  pub forward_key_repeat : Bool

unfoldable pub init : InjectMode → Bool → KeyboardSdk
init mode forward = record { repeat = 0; key_inject_mode = mode; forward_key_repeat = forward }

abbrev pub convert_keycode_action : Action → ℕ
convert_keycode_action Action.down = 0
convert_keycode_action Action.up = 1

-- The entry of a table, or what is found behind it.
unfoldable pub or_else : Option ℕ → Option ℕ → Option ℕ
or_else (some value) rest = some value
or_else none rest = rest

-- `metastate |= …` if one of the bits of `mask` is in `from`.
unfoldable pub add_if : ℕ → ℕ → ℕ → ℕ → ℕ
add_if from mask bits metastate =
    if bit_and from mask == 0 then metastate else bit_or metastate bits

unfoldable pub autocomplete_metastate : ℕ → ℕ
autocomplete_metastate metastate =
    let metastate = add_if metastate (bit_or 0x40 0x80) 0x01 metastate in
    let metastate = add_if metastate (bit_or 0x2000 0x4000) 0x1000 metastate in
    let metastate = add_if metastate (bit_or 0x10 0x20) 0x02 metastate in
    add_if metastate (bit_or 0x20000 0x40000) 0x10000 metastate

-- `++kb->repeat` on 32 bits, or its reset.
abbrev pub count_repeat : Bool → ℕ → ℕ
count_repeat true repeat = (repeat + 1) % 2 ^ 32
count_repeat false repeat = 0

module _ (sdl : Sdl) where
  open sdl use {
    mod_lctrl, mod_lshift, mod_lalt, mod_lgui, mod_rctrl, mod_rshift, mod_ralt, mod_rgui, mod_caps,
    mod_num,
  }

  -- The keys of the numpad that move, when neither Num Lock nor Shift is on.
  unfoldable pub find_kp_nav : Keycode → ℕ → Option ℕ
  find_kp_nav from mods =
      if bit_and mods (bit_or (bit_or mod_num mod_lshift) mod_rshift) == 0
      then kp_nav_keys from
      else none

  unfoldable pub convert_keycode : Keycode → ℕ → InjectMode → Option ℕ
  convert_keycode from mods mode =
      let typed =
        if is_text mode && bit_and mods (bit_or mod_lctrl mod_rctrl) == 0
        then none
        else or_else (alphaspace_keys from)
            (if is_raw mode then numbers_punct_keys from else none) in
      or_else (special_keys from) (or_else (find_kp_nav from mods) typed)

  unfoldable pub convert_meta_state : ℕ → ℕ
  convert_meta_state mods =
      let metastate = add_if mods mod_lshift 0x40 0 in
      let metastate = add_if mods mod_rshift 0x80 metastate in
      let metastate = add_if mods mod_lctrl 0x2000 metastate in
      let metastate = add_if mods mod_rctrl 0x4000 metastate in
      let metastate = add_if mods mod_lalt 0x10 metastate in
      let metastate = add_if mods mod_ralt 0x20 metastate in
      let metastate = add_if mods mod_lgui 0x20000 metastate in
      let metastate = add_if mods mod_rgui 0x40000 metastate in
      let metastate = add_if mods mod_num 0x200000 metastate in
      autocomplete_metastate (add_if mods mod_caps 0x100000 metastate)

  module _ {Float : Type 0} where
    -- The message with the keycode found.
    unfoldable pub keycode_msg : Option ℕ → KeyEvent → ℕ → Option (ControlMsg Float)
    keycode_msg none event repeat = none
    keycode_msg (some keycode) event repeat = some (
        ControlMsg.inject_keycode (convert_keycode_action event.action) keycode repeat
          (convert_meta_state event.mods_state))

    unfoldable pub convert_input_key : KeyEvent → InjectMode → ℕ → Option (ControlMsg Float)
    convert_input_key event mode repeat =
        keycode_msg (convert_keycode event.keycode event.mods_state mode) event repeat

    -- The keyboard behind the event, and the message that is pushed to the controller; that the
    -- queue refuses it is only logged.
    unfoldable pub process_key : KeyboardSdk → KeyEvent → KeyboardSdk × Option (ControlMsg Float)
    process_key kb event =
        let count = count_repeat event.repeat kb.repeat in
        if event.repeat && not kb.forward_key_repeat
        then (kb, none)
        else (record kb { repeat = count }, convert_input_key event kb.key_inject_mode count)

-- The text that is pushed to the controller, if any; `none` is that the assertion on the length of a
-- letter or space fails. `isalpha` is the one of C, and `duplicated` tells whether there is memory
-- for the copy.
unfoldable pub process_text :
    {Float : Type 0} → (ℕ → Bool) → Bool → KeyboardSdk → List ℕ → Option (Option (ControlMsg Float))
process_text isalpha duplicated kb bytes =
    let c = get_or bytes 0 0 in
    if is_raw kb.key_inject_mode
    then some none
    else if is_mixed kb.key_inject_mode && (isalpha c || c == 0x20)
    then if get_or bytes 1 0 == 0 then some none else none
    else if duplicated
    then some (some (ControlMsg.inject_text (some bytes)))
    else some none
