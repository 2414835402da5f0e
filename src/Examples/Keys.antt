-- ===== src/Examples/Keys.antt =====
-- Keys that type, and their texts.
use droidctl.Base.{ℕ, ◌≡◌, refl, Bool, true, ◌&&◌, some, [], ◌∷◌, leb}
use droidctl.Keyboard.{Action}
use droidctl.Keycodes.{Keycode}
use droidctl.ControlMsg.{ControlMsg}
use droidctl.KeyboardSdk.{
  InjectMode, KeyEvent, KeyboardSdk, init, process_key, process_text, convert_meta_state,
  convert_keycode,
}
use droidctl.KeyboardSdk.Typed.{pushed, typed-once}
use droidctl.Examples.Devices.{sdl}

-- `isalpha`, on ASCII.
abbrev ascii_letter : ℕ → Bool
ascii_letter c = leb 97 c && leb c 122

-- The key of `a`, repeated while Shift is held.
abbrev held_a : KeyEvent
held_a = record {
  action = Action.down;
  keycode = Keycode.key_a;
  scancode = 4;
  mods_state = 0x01;
  repeat = true;
}

typed-once_example :
    ((process_key sdl {Float = ℕ} (init InjectMode.mixed true) held_a).0
      ≡ record { repeat = 1; key_inject_mode = InjectMode.mixed; forward_key_repeat = true })
    × (pushed
          (process_key sdl {Float = ℕ} (init InjectMode.mixed true) held_a).1
          (process_text {Float = ℕ} ascii_letter true (init InjectMode.mixed true) (97 ∷ []))
        ≡ some (ControlMsg.inject_keycode 0 29 1 (convert_meta_state sdl 0x01) ∷ []))
unfolding init droidctl.Keycodes.special_keys droidctl.KeyboardSdk.find_kp_nav
    droidctl.KeyboardSdk.Typed.typed_code droidctl.Keycodes.alphaspace_keys
    droidctl.KeyboardSdk.or_else droidctl.KeyboardSdk.Typed.by_key
typed-once_example =
    typed-once sdl ascii_letter (init InjectMode.mixed true) held_a (97 ∷ []) 29 refl refl refl refl
      refl (λ letter. refl) refl

shift_meta : convert_meta_state sdl 0x01 ≡ 0x41
unfolding convert_meta_state droidctl.KeyboardSdk.add_if droidctl.KeyboardSdk.autocomplete_metastate
shift_meta = refl

percent_types_a_period : convert_keycode sdl Keycode.key_percent 0 InjectMode.raw ≡ some 56
unfolding convert_keycode droidctl.Keycodes.special_keys droidctl.Keycodes.kp_nav_keys
    droidctl.KeyboardSdk.find_kp_nav droidctl.Keycodes.alphaspace_keys
    droidctl.Keycodes.numbers_punct_keys droidctl.KeyboardSdk.or_else
percent_types_a_period = refl
