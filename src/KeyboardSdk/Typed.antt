-- ===== src/KeyboardSdk/Typed.antt =====
-- app/src/keyboard_sdk.c: a key that types a character, and the text of it.
use droidctl.Base.{
  ℕ, Bool, true, false, not, ◌&&◌, ◌||◌, Option, none, some, List, [], ◌∷◌, ◌++◌, get_or, ◌≡◌, refl,
  bit_and, bit_or, if◌then◌else◌, ◌==◌,
}
use droidctl.ControlMsg.{ControlMsg}
use droidctl.Keyboard.{Sdl}
use droidctl.Keycodes.{Keycode, special_keys, alphaspace_keys, numbers_punct_keys}
use droidctl.KeyboardSdk.{
  InjectMode, KeyEvent, KeyboardSdk, or_else, find_kp_nav, convert_keycode, convert_keycode_action,
  convert_meta_state, count_repeat, keycode_msg, convert_input_key, process_key, process_text,
  is_text, is_raw, is_mixed,
}

abbrev pub is_found : Option ℕ → Bool
is_found (some value) = true
is_found none = false

-- Whether a key reaches the device as a key rather than as a text, as app/src/options.h documents the
-- modes: everything is injected as keys, letters and space alone are, or none of them is.
unfoldable pub by_key : InjectMode → Bool → Bool
by_key InjectMode.raw letter = true
by_key InjectMode.mixed letter = letter
by_key InjectMode.text letter = false

-- The keycode of a letter, a space, a number or a punctuation mark.
unfoldable pub typed_code : Keycode → Option ℕ
typed_code from = or_else (alphaspace_keys from) (numbers_punct_keys from)

letter_or_other :
    (ctrl : ℕ) (letters others : Option ℕ) (keycode : ℕ) (mode : InjectMode)
    → ctrl ≡ 0
    → or_else letters others ≡ some keycode
    → (if is_text mode && ctrl == 0
        then none
        else or_else letters (if is_raw mode then others else none))
      ≡ (if by_key mode (is_found letters) then some keycode else none)
unfolding or_else by_key
letter_or_other ctrl (some value) others keycode InjectMode.mixed none_held found = found
letter_or_other ctrl (some value) others keycode InjectMode.raw none_held found = found
letter_or_other ctrl none others keycode InjectMode.mixed none_held found = refl
letter_or_other ctrl none others keycode InjectMode.raw none_held found = found
letter_or_other ctrl letters others keycode InjectMode.text none_held found = rw (none_held) refl

text_or_none :
    {Float : Type 0} (mode : InjectMode) (letter : Bool) (second : ℕ) (msg : ControlMsg Float)
    → (letter ≡ true → second ≡ 0)
    → (if is_raw mode
        then some none
        else if is_mixed mode && letter
        then if second == 0 then some none else none
        else some (some msg))
      ≡ some (if by_key mode letter then none else some msg)
unfolding by_key
text_or_none InjectMode.raw letter second msg single = refl
text_or_none InjectMode.text letter second msg single = refl
text_or_none InjectMode.mixed true second msg single = rw (single refl) refl
text_or_none InjectMode.mixed false second msg single = refl

abbrev listed : {A : Type 0} → Option A → List A
listed none = []
listed (some x) = x ∷ []

-- What a key and its text push to the controller, unless the assertion on the text fails.
abbrev pub pushed :
    {Float : Type 0}
    → Option (ControlMsg Float)
    → Option (Option (ControlMsg Float))
    → Option (List (ControlMsg Float))
pushed key none = none
pushed key (some text) = some (listed key ++ listed text)

pushed-if :
    {Float : Type 0} (sent : Bool) (key text : ControlMsg Float)
    → pushed (if sent then some key else none) (some (if sent then none else some text))
      ≡ some ((if sent then key else text) ∷ [])
pushed-if true key text = refl
pushed-if false key text = refl

module _ (sdl : Sdl) where
  convert_keycode_typed :
      (from : Keycode) (mods keycode : ℕ) (mode : InjectMode)
      → special_keys from ≡ none
      → find_kp_nav sdl from mods ≡ none
      → bit_and mods (bit_or sdl.mod_lctrl sdl.mod_rctrl) ≡ 0
      → typed_code from ≡ some keycode
      → convert_keycode sdl from mods mode
        ≡ (if by_key mode (is_found (alphaspace_keys from)) then some keycode else none)
  unfolding convert_keycode typed_code or_else
  convert_keycode_typed from mods keycode mode no_special no_nav no_ctrl found =
      rw (convert_keycode, no_special, no_nav)
        (letter_or_other _ (alphaspace_keys from) (numbers_punct_keys from) keycode mode no_ctrl
          found)

  module _ {Float : Type 0} where
    keycode_msg_if :
        (sent : Bool) (keycode : ℕ) (event : KeyEvent) (repeat : ℕ)
        → keycode_msg sdl {Float = Float} (if sent then some keycode else none) event repeat ≡ (
            if sent
            then some (
                ControlMsg.inject_keycode
                  (convert_keycode_action event.action)
                  keycode
                  repeat
                  (convert_meta_state sdl event.mods_state))
            else none)
    unfolding keycode_msg
    keycode_msg_if true keycode event repeat = refl
    keycode_msg_if false keycode event repeat = refl

    -- A letter, a space, a number or a punctuation mark of the tables that is no special key, no
    -- key of a moving numpad, and is hit while no Ctrl is held, pushes, with its text, exactly one
    -- message, when its repetitions are forwarded or it is not repeated, there is memory for the
    -- text, the text starts with a letter or a space exactly when the key is one, and is then a
    -- single byte: either the keycode, with the count of its repetitions and the modifiers, or the
    -- text, as the mode is documented.
    pub typed-once :
        (isalpha : ℕ → Bool) (kb : KeyboardSdk) (event : KeyEvent) (bytes : List ℕ) (keycode : ℕ)
        → special_keys event.keycode ≡ none
        → find_kp_nav sdl event.keycode event.mods_state ≡ none
        → bit_and event.mods_state (bit_or sdl.mod_lctrl sdl.mod_rctrl) ≡ 0
        → typed_code event.keycode ≡ some keycode
        → (isalpha (get_or bytes 0 0) || get_or bytes 0 0 == 0x20)
          ≡ is_found (alphaspace_keys event.keycode)
        → (is_found (alphaspace_keys event.keycode) ≡ true → get_or bytes 1 0 ≡ 0)
        → (event.repeat && not kb.forward_key_repeat) ≡ false
        → let count = count_repeat event.repeat kb.repeat in
          ((process_key sdl {Float = Float} kb event).0 ≡ record kb { repeat = count })
          × (pushed
                (process_key sdl {Float = Float} kb event).1
                (process_text {Float = Float} isalpha true kb bytes)
              ≡ some (
                  (if by_key kb.key_inject_mode (is_found (alphaspace_keys event.keycode))
                    then ControlMsg.inject_keycode
                        (convert_keycode_action event.action)
                        keycode
                        count
                        (convert_meta_state sdl event.mods_state)
                    else ControlMsg.inject_text (some bytes))
                  ∷ []))
    unfolding process_key process_text convert_input_key
    typed-once isalpha kb event bytes keycode no_special no_nav no_ctrl found letter single
          forwarded =
        (
          rw (process_key, forwarded) refl,
          rw
              (
                process_key,
                forwarded,
                convert_keycode_typed event.keycode event.mods_state keycode kb.key_inject_mode
                    no_special no_nav no_ctrl found,
                keycode_msg_if sent keycode event (count_repeat event.repeat kb.repeat),
                process_text,
                letter,
                text_or_none kb.key_inject_mode (is_found (alphaspace_keys event.keycode))
                    (get_or bytes 1 0) (ControlMsg.inject_text (some bytes)) single,
              )
              (pushed-if sent _ _),
        )
      where
        sent : Bool
        sent = by_key kb.key_inject_mode (is_found (alphaspace_keys event.keycode))
