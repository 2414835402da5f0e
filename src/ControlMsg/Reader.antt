-- ===== src/ControlMsg/Reader.antt =====
-- server/src/main/java/com/genymobile/scrcpy/control/ControlMessageReader.java: the device's end,
-- which reads control messages from a stream of bytes. `none` is an exception, such as the end of
-- the stream.
use droidctl.Base.{
  ◌≡◌, ap, ℕ, zero, suc, ◌+◌, ◌*◌, ◌^◌, ◌%◌, Bool, not, ◌||◌, Option, none, some, List, [], ◌∷◌,
}
use droidctl.Base.{length, take, drop, bit_or, ltb, ◌==◌, if◌then◌else◌}
use droidctl.Base.Int.{ℤ, pos, negsuc, to_signed, to_unsigned}
use droidctl.Floats.{Floats}
use droidctl.ControlMsg.{Position}

-- What reads a value from the stream, and leaves the rest.
abbrev pub Read : Type 0 → Type 0
Read A = List ℕ → Option (A × List ℕ)

infixl 5 ◌>>=◌
abbrev pub ◌>>=◌ : {A B : Type 0} → Read A → (A → Read B) → Read B
◌>>=◌ m f stream = elim (m stream) [ none ↦ none | some p ↦ f p.0 p.1 ]

pub >>=-some :
    {A B : Type 0} (m : Read A) (f : A → Read B) (stream : List ℕ) {a : A} {rest : List ℕ}
    → m stream ≡ some (a, rest)
    → (m >>= f) stream ≡ f a rest
>>=-some {A} {B} m f stream e = ap (elim [ none ↦ none | some p ↦ f p.0 p.1 ]) e

abbrev pub return : {A : Type 0} → A → Read A
return a stream = some (a, stream)

abbrev throw : {A : Type 0} → Read A
throw stream = none

-- `java.io.DataInputStream`.
abbrev pub read_unsigned_byte : Read ℕ
read_unsigned_byte [] = none
read_unsigned_byte (b ∷ rest) = some (b, rest)

unfoldable pub be16 : ℕ → ℕ → ℕ
be16 a b = a * 2 ^ 8 + b

unfoldable pub be32 : ℕ → ℕ → ℕ → ℕ → ℕ
be32 a b c d = a * 2 ^ 24 + b * 2 ^ 16 + c * 2 ^ 8 + d

abbrev pub read_unsigned_short : Read ℕ
read_unsigned_short = do a ← read_unsigned_byte; b ← read_unsigned_byte; return (be16 a b)

abbrev pub read_short : Read ℤ
read_short = do value ← read_unsigned_short; return (to_signed 16 value)

abbrev pub read_bits_32 : Read ℕ
read_bits_32 = do
  a ← read_unsigned_byte
  b ← read_unsigned_byte
  c ← read_unsigned_byte
  d ← read_unsigned_byte
  return (be32 a b c d)

abbrev pub read_int : Read ℤ
read_int = do value ← read_bits_32; return (to_signed 32 value)

unfoldable pub be64 : ℕ → ℕ → ℕ
be64 high low = high * 2 ^ 32 + low

abbrev pub read_long : Read ℤ
read_long = do high ← read_bits_32; low ← read_bits_32; return (to_signed 64 (be64 high low))

abbrev pub read_boolean : Read Bool
read_boolean = do b ← read_unsigned_byte; return (not (b == 0))

unfoldable pub read_fully : ℕ → Read (List ℕ)
read_fully n stream = if ltb (length stream) n then none else some (take n stream, drop n stream)

-- `ControlMessage`, as its factory methods make it.
pub data ControlMessage (Text Float : Type 0) : Type 0 where
  inject_keycode : (action : ℕ) (keycode repeat meta_state : ℤ) → ControlMessage Text Float
  inject_text : Text → ControlMessage Text Float
  inject_touch_event :
      (action : ℕ) (pointer_id : ℤ) (position : Position) (pressure : Float)
      (action_button buttons : ℤ)
      → ControlMessage Text Float
  inject_scroll_event :
      (position : Position) (hscroll vscroll : Float) (buttons : ℤ) → ControlMessage Text Float
  back_or_screen_on : (action : ℕ) → ControlMessage Text Float
  get_clipboard : (copy_key : ℕ) → ControlMessage Text Float
  set_clipboard : (sequence : ℤ) (text : Text) (paste : Bool) → ControlMessage Text Float
  set_display_power : Bool → ControlMessage Text Float
  uhid_create :
      (id vendor_id product_id : ℕ) (name : Text) (report_desc : List ℕ) → ControlMessage Text Float
  uhid_input : (id : ℕ) (bytes : List ℕ) → ControlMessage Text Float
  uhid_destroy : (id : ℕ) → ControlMessage Text Float
  start_app : (name : Text) → ControlMessage Text Float
  camera_set_torch : Bool → ControlMessage Text Float
  resize_display : (width height : ℕ) → ControlMessage Text Float
  scan_file : (path : Text) → ControlMessage Text Float
  empty : (type : ℕ) → ControlMessage Text Float

-- The loop of `parseBufferLength` over a 32-bit `int`, kept as its bit pattern.
unfoldable pub parse_buffer_length : ℕ → ℕ → Read ℕ
parse_buffer_length zero value = return value
parse_buffer_length (suc bytes) value = do
  b ← read_unsigned_byte
  parse_buffer_length bytes (bit_or (value * 2 ^ 8 % 2 ^ 32) b)

-- An array of a negative length cannot be made.
unfoldable pub parse_byte_array : ℕ → Read (List ℕ)
parse_byte_array size_bytes = do
  len ← parse_buffer_length size_bytes 0
  if ltb len (2 ^ 31) then read_fully len else throw

abbrev pub parse_position : Read Position
parse_position = do
  x ← read_int
  y ← read_int
  screen_width ← read_unsigned_short
  screen_height ← read_unsigned_short
  return (record { x = x; y = y; width = screen_width; height = screen_height })

-- `new_string` is the decoding of UTF-8 by the class `String`.
module _ (floats : Floats) {Text : Type 0} (new_string : List ℕ → Text) where
  open floats use {Float, one, mul_16, unscale_16, unscale_15}

  -- server/src/main/java/com/genymobile/scrcpy/util/Binary.java.
  unfoldable pub u16_fixed_point_to_float : ℤ → Float
  u16_fixed_point_to_float value =
      let unsigned_short = to_unsigned 16 value in
      if unsigned_short == 0xffff then one else unscale_16 unsigned_short

  unfoldable pub i16_fixed_point_to_float : ℤ → Float
  i16_fixed_point_to_float (pos n) = if n == 0x7fff then one else unscale_15 (pos n)
  i16_fixed_point_to_float (negsuc n) = unscale_15 (negsuc n)

  abbrev pub Message : Type 0
  Message = ControlMessage Text Float

  unfoldable pub parse_string : ℕ → Read Text
  parse_string size_bytes = do bytes ← parse_byte_array size_bytes; return (new_string bytes)

  unfoldable pub parse_inject_touch_event : Read Message
  parse_inject_touch_event = do
    action ← read_unsigned_byte
    pointer_id ← read_long
    position ← parse_position
    pressure ← read_short
    action_button ← read_int
    buttons ← read_int
    return (
        ControlMessage.inject_touch_event action pointer_id position
          (u16_fixed_point_to_float pressure) action_button buttons)

  unfoldable pub parse_inject_scroll_event : Read Message
  parse_inject_scroll_event = do
    position ← parse_position
    hscroll ← read_short
    vscroll ← read_short
    buttons ← read_int
    return (
        ControlMessage.inject_scroll_event position (mul_16 (i16_fixed_point_to_float hscroll))
          (mul_16 (i16_fixed_point_to_float vscroll)) buttons)

  unfoldable pub parse_set_clipboard : Read Message
  parse_set_clipboard = do
    sequence ← read_long
    paste ← read_boolean
    text ← parse_string 4
    return (ControlMessage.set_clipboard sequence text paste)

  unfoldable pub parse_uhid_create : Read Message
  parse_uhid_create = do
    id ← read_unsigned_short
    vendor_id ← read_unsigned_short
    product_id ← read_unsigned_short
    name ← parse_string 1
    report_desc ← parse_byte_array 2
    return (ControlMessage.uhid_create id vendor_id product_id name report_desc)

  abbrev pub parse_inject_keycode : Read Message
  parse_inject_keycode = do
    action ← read_unsigned_byte
    keycode ← read_int
    repeat ← read_int
    meta_state ← read_int
    return (ControlMessage.inject_keycode action keycode repeat meta_state)

  abbrev pub parse_inject_text : Read Message
  parse_inject_text = do text ← parse_string 4; return (ControlMessage.inject_text text)

  abbrev pub parse_back_or_screen_on_event : Read Message
  parse_back_or_screen_on_event = do
    action ← read_unsigned_byte
    return (ControlMessage.back_or_screen_on action)

  abbrev pub parse_get_clipboard : Read Message
  parse_get_clipboard = do
    copy_key ← read_unsigned_byte
    return (ControlMessage.get_clipboard copy_key)

  abbrev pub parse_set_display_power : Read Message
  parse_set_display_power = do on ← read_boolean; return (ControlMessage.set_display_power on)

  abbrev pub parse_uhid_input : Read Message
  parse_uhid_input = do
    id ← read_unsigned_short
    bytes ← parse_byte_array 2
    return (ControlMessage.uhid_input id bytes)

  abbrev pub parse_uhid_destroy : Read Message
  parse_uhid_destroy = do id ← read_unsigned_short; return (ControlMessage.uhid_destroy id)

  abbrev pub parse_start_app : Read Message
  parse_start_app = do name ← parse_string 1; return (ControlMessage.start_app name)

  abbrev pub parse_camera_set_torch : Read Message
  parse_camera_set_torch = do on ← read_boolean; return (ControlMessage.camera_set_torch on)

  abbrev pub parse_resize_display : Read Message
  parse_resize_display = do
    width ← read_unsigned_short
    height ← read_unsigned_short
    return (ControlMessage.resize_display width height)

  abbrev pub parse_scan_file : Read Message
  parse_scan_file = do path ← parse_string 4; return (ControlMessage.scan_file path)

  -- The types that carry nothing.
  abbrev is_empty_type : ℕ → Bool
  is_empty_type type =
      type == 5
      || type == 6
      || type == 7
      || type == 11
      || type == 15
      || type == 17
      || type == 19
      || type == 20

  -- The `switch` of `ControlMessageReader.read`.
  unfoldable pub read_message : ℕ → Read Message
  read_message type =
      if type == 0
      then parse_inject_keycode
      else if type == 1
      then parse_inject_text
      else if type == 2
      then parse_inject_touch_event
      else if type == 3
      then parse_inject_scroll_event
      else if type == 4
      then parse_back_or_screen_on_event
      else if type == 8
      then parse_get_clipboard
      else if type == 9
      then parse_set_clipboard
      else if type == 10
      then parse_set_display_power
      else if type == 12
      then parse_uhid_create
      else if type == 13
      then parse_uhid_input
      else if type == 14
      then parse_uhid_destroy
      else if type == 16
      then parse_start_app
      else if type == 18
      then parse_camera_set_torch
      else if type == 21
      then parse_resize_display
      else if type == 22
      then parse_scan_file
      else if is_empty_type type
      then return (ControlMessage.empty type)
      else throw

  unfoldable pub read : Read Message
  read = do type ← read_unsigned_byte; read_message type
