-- ===== src/ControlMsg/RoundTrip.antt =====
-- The device reads back every message that the client serializes.
use droidctl.Base.{ℕ, ◌/◌, ◌<◌, ◌^◌, ◌≡◌, refl, ap, ◌∙◌, some, append_assoc}
use droidctl.Base.{List, ◌∷◌, ◌++◌, length, take, Bool, not, ◌==◌, true, false, arith}
use droidctl.Base.Int.{
  ℤ, pos, negsuc, to_signed, to_unsigned, to_signed-to_unsigned, to_unsigned-lt,
}
use droidctl.Floats.{Floats}
use droidctl.Binary.{u8, u32, write16be, write32be, write64be, float_to_u16fp}
use droidctl.ControlMsg.{
  ControlMsg, CString, flag, copy_key_code, CopyKey, type_code, scroll_fp, Position,
}
use droidctl.ControlMsg.{
  inject_text_max_length, clipboard_text_max_length, scan_file_path_max_length,
}
use droidctl.ControlMsg.Encoding.{encoding, IsValid, IsText, payload}
use droidctl.ControlMsg.Frames.{text-Sent}
use droidctl.ControlMsg.Reader.{ControlMessage, parse_string, read, read_message}
use droidctl.ControlMsg.Reader.{u16_fixed_point_to_float, i16_fixed_point_to_float}
use droidctl.ControlMsg.Reader.{parse_inject_touch_event, parse_inject_scroll_event}
use droidctl.ControlMsg.Reader.{parse_set_clipboard, parse_uhid_create}
use droidctl.ControlMsg.Fields.{be16_lem, be32_lem, be64_lem, array_1, array_2, array_4}
use droidctl.ControlMsg.Reader.{>>=-some, parse_byte_array}

flag_lem : (b : Bool) → not (flag b == 0) ≡ b
flag_lem true = refl
flag_lem false = refl

float_to_u16fp-lt : (floats : Floats) (f : floats.Float) → float_to_u16fp floats f < 2 ^ 16
unfolding float_to_u16fp
float_to_u16fp-lt floats f = omega arith

to_unsigned_16-lt : (z : ℤ) → to_unsigned 16 z < 2 ^ 16
to_unsigned_16-lt (pos n) = omega arith
to_unsigned_16-lt (negsuc n) = omega arith

scroll_fp-lt : (floats : Floats) (f : floats.Float) → scroll_fp floats f < 2 ^ 16
unfolding scroll_fp
scroll_fp-lt floats f = to_unsigned_16-lt _

module _ (floats : Floats) {Text : Type 0} (new_string : List ℕ → Text) where
  open floats use {Float, mul_16}

  -- What the device makes of a message: the same numbers, as Java's signed types, the texts as far
  -- as they are sent, and the fixed-point values as floats.
  abbrev pub received : ControlMsg Float → ControlMessage Text Float
  received (ControlMsg.inject_keycode action keycode repeat metastate) =
      ControlMessage.inject_keycode action (to_signed 32 keycode) (to_signed 32 repeat)
        (to_signed 32 metastate)
  received (ControlMsg.inject_text text) =
      ControlMessage.inject_text (new_string (payload text inject_text_max_length))
  received
        (ControlMsg.inject_touch_event action action_button buttons pointer_id position pressure) =
      ControlMessage.inject_touch_event action (to_signed 64 pointer_id) position
        (u16_fixed_point_to_float floats new_string (to_signed 16 (float_to_u16fp floats pressure)))
        (to_signed 32 action_button) (to_signed 32 buttons)
  received (ControlMsg.inject_scroll_event position hscroll vscroll buttons) =
      ControlMessage.inject_scroll_event position
        (mul_16
          (i16_fixed_point_to_float floats new_string (to_signed 16 (scroll_fp floats hscroll))))
        (mul_16
          (i16_fixed_point_to_float floats new_string (to_signed 16 (scroll_fp floats vscroll))))
        (to_signed 32 buttons)
  received (ControlMsg.back_or_screen_on action) = ControlMessage.back_or_screen_on action
  received (ControlMsg.get_clipboard copy_key) =
      ControlMessage.get_clipboard (copy_key_code copy_key)
  received (ControlMsg.set_clipboard sequence text paste) =
      ControlMessage.set_clipboard (to_signed 64 sequence)
        (new_string (payload text clipboard_text_max_length)) paste
  received (ControlMsg.set_display_power on) = ControlMessage.set_display_power on
  received (ControlMsg.uhid_create id vendor_id product_id name size desc) =
      ControlMessage.uhid_create id vendor_id product_id (new_string (payload name 127))
        (take size desc)
  received (ControlMsg.uhid_input id size bytes) = ControlMessage.uhid_input id (take size bytes)
  received (ControlMsg.uhid_destroy id) = ControlMessage.uhid_destroy id
  received (ControlMsg.start_app name) = ControlMessage.start_app (new_string (payload name 255))
  received (ControlMsg.camera_set_torch on) = ControlMessage.camera_set_torch on
  received (ControlMsg.resize_display width height) = ControlMessage.resize_display width height
  received (ControlMsg.scan_file path) =
      ControlMessage.scan_file (new_string (payload path scan_file_path_max_length))
  received msg = ControlMessage.empty (type_code msg)

  Reads : ControlMsg Float → List ℕ → Type 0
  Reads msg rest = read floats new_string (encoding floats msg ++ rest) ≡ some (received msg, rest)

  inject_keycode-Reads :
      (action keycode repeat metastate : ℕ) (rest : List ℕ)
      → IsValid {Float = Float} (ControlMsg.inject_keycode action keycode repeat metastate)
      → Reads (ControlMsg.inject_keycode action keycode repeat metastate) rest
  unfolding Reads read read_message write32be
  inject_keycode-Reads action keycode repeat metastate rest v =
      rw (be32_lem keycode v.1, be32_lem repeat v.2, be32_lem metastate v.3, small)
    where
      small : u8 action ≡ action
      small = omega (arith, v.0)

  text-Reads :
      (text : CString) (max_len : ℕ) (rest : List ℕ)
      → IsText text
      → max_len < 2 ^ 31
      → let sent = payload text max_len in
        parse_string floats new_string 4 (write32be (u32 (length sent)) ++ (sent ++ rest))
        ≡ some (new_string sent, rest)
  unfolding parse_string
  text-Reads text max_len rest h lt =
      >>=-some (parse_byte_array 4) _ _
        (array_4 (payload text max_len) rest (omega (arith, (text-Sent text max_len h).short)))

  tiny_text-Reads :
      (text : CString) (max_len : ℕ) (rest : List ℕ)
      → IsText text
      → max_len < 256
      → let sent = payload text max_len in
        parse_string floats new_string 1 (u8 (length sent) ∷ (sent ++ rest))
        ≡ some (new_string sent, rest)
  unfolding parse_string
  tiny_text-Reads text max_len rest h lt =
      >>=-some (parse_byte_array 1) _ _
        (array_1 (payload text max_len) rest (omega (arith, (text-Sent text max_len h).short)))

  touch-Reads :
      (action action_button buttons pointer_id : ℕ) (position : Position) (pressure : Float)
      (rest : List ℕ)
      → IsValid
          (ControlMsg.inject_touch_event action action_button buttons pointer_id position pressure)
      → Reads
          (ControlMsg.inject_touch_event action action_button buttons pointer_id position pressure)
          rest
  unfolding Reads read read_message parse_inject_touch_event write64be write32be write16be
  touch-Reads action action_button buttons pointer_id position pressure rest v = rw (
    small,
    be32_lem (u32 (pointer_id / 2 ^ 32)) (omega arith),
    be32_lem (u32 pointer_id) (omega arith),
    be64_lem pointer_id v.3,
    be32_lem (to_unsigned 32 position.x) (to_unsigned-lt position.x),
    be32_lem (to_unsigned 32 position.y) (to_unsigned-lt position.y),
    be16_lem position.width (omega (arith, v)),
    be16_lem position.height (omega (arith, v)),
    be16_lem (float_to_u16fp floats pressure) (float_to_u16fp-lt floats pressure),
    be32_lem action_button v.1,
    be32_lem buttons v.2,
    to_signed-to_unsigned position.x v.4.0,
    to_signed-to_unsigned position.y v.4.1,
  )
    where
      small : u8 action ≡ action
      small = omega (arith, v.0)

  scroll-Reads :
      (position : Position) (hscroll vscroll : Float) (buttons : ℕ) (rest : List ℕ)
      → IsValid (ControlMsg.inject_scroll_event position hscroll vscroll buttons)
      → Reads (ControlMsg.inject_scroll_event position hscroll vscroll buttons) rest
  unfolding Reads read read_message parse_inject_scroll_event write32be write16be
  scroll-Reads position hscroll vscroll buttons rest v = rw (
    be32_lem (to_unsigned 32 position.x) (to_unsigned-lt position.x),
    be32_lem (to_unsigned 32 position.y) (to_unsigned-lt position.y),
    be16_lem position.width (omega (arith, v)),
    be16_lem position.height (omega (arith, v)),
    be16_lem (scroll_fp floats hscroll) (scroll_fp-lt floats hscroll),
    be16_lem (scroll_fp floats vscroll) (scroll_fp-lt floats vscroll),
    be32_lem buttons v.1,
    to_signed-to_unsigned position.x v.0.0,
    to_signed-to_unsigned position.y v.0.1,
  )

  set_clipboard-Reads :
      (sequence : ℕ) (text : CString) (paste : Bool) (rest : List ℕ)
      → IsValid {Float = Float} (ControlMsg.set_clipboard sequence text paste)
      → Reads (ControlMsg.set_clipboard sequence text paste) rest
  unfolding Reads read read_message parse_set_clipboard write64be write32be
  set_clipboard-Reads sequence text paste rest v =
      >>=-some (parse_string floats new_string 4) _ _
        (text-Reads text clipboard_text_max_length rest v.1 (omega arith))
      ∙ rw (
        be32_lem (u32 (sequence / 2 ^ 32)) (omega arith),
        be32_lem (u32 sequence) (omega arith),
        be64_lem sequence v.0,
        flag_lem paste,
      )

  uhid_create-Reads :
      (id vendor_id product_id : ℕ) (name : CString) (size : ℕ) (desc rest : List ℕ)
      → IsValid {Float = Float} (ControlMsg.uhid_create id vendor_id product_id name size desc)
      → Reads (ControlMsg.uhid_create id vendor_id product_id name size desc) rest
  unfolding Reads read read_message parse_uhid_create write16be
  uhid_create-Reads id vendor_id product_id name size desc rest v = rw append_assoc (
      >>=-some (parse_string floats new_string 1) _ _
        (tiny_text-Reads name 127 (write16be size ++ (take size desc ++ rest)) v.3 (omega arith))
      ∙ >>=-some (parse_byte_array 2) _ _ (array_2 desc rest size v.4 v.5)
      ∙ rw (be16_lem id v.0, be16_lem vendor_id v.1, be16_lem product_id v.2))

  uhid_input-Reads :
      (id size : ℕ) (bytes rest : List ℕ)
      → IsValid {Float = Float} (ControlMsg.uhid_input id size bytes)
      → Reads (ControlMsg.uhid_input id size bytes) rest
  unfolding Reads read read_message write16be
  uhid_input-Reads id size bytes rest v =
      >>=-some (parse_byte_array 2) _ _ (array_2 bytes rest size (omega (arith, v)) v.2)
      ∙ rw (be16_lem id v.0)

  -- `ControlMessageReader.read`, on the wire format of a valid message with any bytes behind it,
  -- returns that message, each text as far as it is sent, and leaves the bytes behind it.
  pub read-encoding :
      (msg : ControlMsg Float) (rest : List ℕ)
      → IsValid msg
      → read floats new_string (encoding floats msg ++ rest) ≡ some (received msg, rest)
  unfolding Reads read read_message write16be write32be
  read-encoding (ControlMsg.inject_keycode action keycode repeat metastate) rest v =
      inject_keycode-Reads action keycode repeat metastate rest v
  read-encoding (ControlMsg.inject_text text) rest v =
      >>=-some (parse_string floats new_string 4) _ _
        (text-Reads text inject_text_max_length rest v (omega arith))
  read-encoding
        (ControlMsg.inject_touch_event action action_button buttons pointer_id position pressure)
        rest v =
      touch-Reads action action_button buttons pointer_id position pressure rest v
  read-encoding (ControlMsg.inject_scroll_event position hscroll vscroll buttons) rest v =
      scroll-Reads position hscroll vscroll buttons rest v
  read-encoding (ControlMsg.back_or_screen_on action) rest v =
      ap (λ a. some (ControlMessage.back_or_screen_on a, rest)) {x = u8 action} (omega (arith, v))
  read-encoding (ControlMsg.get_clipboard copy_key) rest v = copy_key-Reads copy_key
    where
      copy_key-Reads :
          (key : CopyKey)
          → read floats new_string (encoding floats (ControlMsg.get_clipboard key) ++ rest)
            ≡ some (received (ControlMsg.get_clipboard key), rest)
      copy_key-Reads CopyKey.none_key = refl
      copy_key-Reads CopyKey.copy = refl
      copy_key-Reads CopyKey.cut = refl
  read-encoding (ControlMsg.set_clipboard sequence text paste) rest v =
      set_clipboard-Reads sequence text paste rest v
  read-encoding (ControlMsg.set_display_power on) rest v = rw (flag_lem on)
  read-encoding (ControlMsg.uhid_create id vendor_id product_id name size desc) rest v =
      uhid_create-Reads id vendor_id product_id name size desc rest v
  read-encoding (ControlMsg.uhid_input id size bytes) rest v = uhid_input-Reads id size bytes rest v
  read-encoding (ControlMsg.uhid_destroy id) rest v = rw (be16_lem id v)
  read-encoding (ControlMsg.start_app name) rest v =
      >>=-some (parse_string floats new_string 1) _ _
        (tiny_text-Reads name 255 rest v (omega arith))
  read-encoding (ControlMsg.camera_set_torch on) rest v = rw (flag_lem on)
  read-encoding (ControlMsg.resize_display width height) rest v =
      rw (be16_lem width v.0, be16_lem height v.1)
  read-encoding (ControlMsg.scan_file path) rest v =
      >>=-some (parse_string floats new_string 4) _ _
        (text-Reads path scan_file_path_max_length rest v (omega arith))
  read-encoding ControlMsg.expand_notification_panel rest v = refl
  read-encoding ControlMsg.expand_settings_panel rest v = refl
  read-encoding ControlMsg.collapse_panels rest v = refl
  read-encoding ControlMsg.rotate_device rest v = refl
  read-encoding ControlMsg.open_hard_keyboard_settings rest v = refl
  read-encoding ControlMsg.reset_video rest v = refl
  read-encoding ControlMsg.camera_zoom_in rest v = refl
  read-encoding ControlMsg.camera_zoom_out rest v = refl
