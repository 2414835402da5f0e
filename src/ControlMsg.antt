-- ===== src/ControlMsg.antt =====
-- app/src/control_msg.{h,c}: the messages that the client sends to the device, and their encoding.
pub mod Encoding
pub mod Frames
pub mod Serialized
pub mod Wire
pub mod Within
pub mod Reader
pub mod Fields
pub mod RoundTrip
use droidctl.Base.{ℕ, zero, ◌+◌, ◌*◌, ◌^◌, ◌-◌, Bool, not, ◌&&◌, Option, none, some}
use droidctl.Base.{List, [], ◌∷◌, ◌++◌, take, if◌then◌else◌, ◌==◌}
use droidctl.Base.Int.{ℤ, to_unsigned}
use droidctl.Base.Buffer.{write_at}
use droidctl.Floats.{Floats}
use droidctl.Binary.{u8, u16, u32, write16be, write32be, write64be, float_to_u16fp, float_to_i16fp}
use droidctl.Str.{utf8_truncation_index}

abbrev pub control_msg_max_size : ℕ
control_msg_max_size = 2 ^ 18

abbrev pub inject_text_max_length : ℕ
inject_text_max_length = 300

-- type: 1 byte; sequence: 8 bytes; paste flag: 1 byte; length: 4 bytes
abbrev pub clipboard_text_max_length : ℕ
clipboard_text_max_length = control_msg_max_size - 14

abbrev pub scan_file_path_max_length : ℕ
scan_file_path_max_length = 256

-- A `char *`: NULL, or the bytes before the terminator.
abbrev pub CString : Type 0
CString = Option (List ℕ)

-- `struct sc_position` of app/src/coords.h.
pub record Position : Type 0 where
  pub x : ℤ
  pub y : ℤ
  pub width : ℕ
  pub height : ℕ

pub data CopyKey : Type 0 where
  none_key copy cut : CopyKey

abbrev pub copy_key_code : CopyKey → ℕ
copy_key_code CopyKey.none_key = 0
copy_key_code CopyKey.copy = 1
copy_key_code CopyKey.cut = 2

-- `struct sc_control_msg`: a constructor for each type, with its member of the union. Values of the
-- Android enumerations are numbers.
pub data ControlMsg (Float : Type 0) : Type 0 where
  inject_keycode : (action keycode repeat metastate : ℕ) → ControlMsg Float
  inject_text : (text : CString) → ControlMsg Float
  inject_touch_event :
      (action action_button buttons pointer_id : ℕ) (position : Position) (pressure : Float)
      → ControlMsg Float
  inject_scroll_event :
      (position : Position) (hscroll vscroll : Float) (buttons : ℕ) → ControlMsg Float
  back_or_screen_on : (action : ℕ) → ControlMsg Float
  expand_notification_panel : ControlMsg Float
  expand_settings_panel : ControlMsg Float
  collapse_panels : ControlMsg Float
  get_clipboard : CopyKey → ControlMsg Float
  set_clipboard : (sequence : ℕ) (text : CString) (paste : Bool) → ControlMsg Float
  set_display_power : Bool → ControlMsg Float
  rotate_device : ControlMsg Float
  uhid_create :
      (id vendor_id product_id : ℕ) (name : CString) (report_desc_size : ℕ) (report_desc : List ℕ)
      → ControlMsg Float
  uhid_input : (id size : ℕ) (bytes : List ℕ) → ControlMsg Float
  uhid_destroy : (id : ℕ) → ControlMsg Float
  open_hard_keyboard_settings : ControlMsg Float
  start_app : (name : CString) → ControlMsg Float
  reset_video : ControlMsg Float
  camera_set_torch : Bool → ControlMsg Float
  camera_zoom_in : ControlMsg Float
  camera_zoom_out : ControlMsg Float
  resize_display : (width height : ℕ) → ControlMsg Float
  scan_file : (path : CString) → ControlMsg Float

-- `msg->type`, in the order of `enum sc_control_msg_type`.
abbrev pub type_code : {Float : Type 0} → ControlMsg Float → ℕ
type_code (inject_keycode _ _ _ _) = 0
type_code (inject_text _) = 1
type_code (inject_touch_event _ _ _ _ _ _) = 2
type_code (inject_scroll_event _ _ _ _) = 3
type_code (back_or_screen_on _) = 4
type_code expand_notification_panel = 5
type_code expand_settings_panel = 6
type_code collapse_panels = 7
type_code (get_clipboard _) = 8
type_code (set_clipboard _ _ _) = 9
type_code (set_display_power _) = 10
type_code rotate_device = 11
type_code (uhid_create _ _ _ _ _ _) = 12
type_code (uhid_input _ _ _) = 13
type_code (uhid_destroy _) = 14
type_code open_hard_keyboard_settings = 15
type_code (start_app _) = 16
type_code reset_video = 17
type_code (camera_set_torch _) = 18
type_code camera_zoom_in = 19
type_code camera_zoom_out = 20
type_code (resize_display _ _) = 21
type_code (scan_file _) = 22

-- The buffer after the writes, and the size that the function returns. `none` is the read out of
-- bounds of `sc_str_utf8_truncation_index`.
abbrev pub Written : Type 0
Written = Option (List ℕ × ℕ)

infixl 5 ◌>>=◌
abbrev pub ◌>>=◌ {ℓ κ} : {A : Type ℓ} {B : Type κ} → Option A → (A → Option B) → Option B
none >>= f = none
some a >>= f = f a

unfoldable pub write_position : List ℕ → ℕ → Position → List ℕ
write_position buf at position =
    let buf = write_at buf at (write32be (to_unsigned 32 position.x)) in
    let buf = write_at buf (at + 4) (write32be (to_unsigned 32 position.y)) in
    let buf = write_at buf (at + 8) (write16be position.width) in
    write_at buf (at + 10) (write16be position.height)

unfoldable pub write_string_payload : List ℕ → ℕ → CString → ℕ → Written
write_string_payload buf at none max_len = some (buf, 0)
write_string_payload buf at (some utf8) max_len = do
  len ← utf8_truncation_index utf8 max_len
  some (write_at buf at (take len utf8), len)

unfoldable pub write_string : List ℕ → ℕ → CString → ℕ → Written
unfolding write_string_payload
write_string buf at utf8 max_len = do
  (buf, len) ← write_string_payload buf (at + 4) utf8 max_len
  some (write_at buf at (write32be (u32 len)), 4 + len)

unfoldable pub write_string_tiny : List ℕ → ℕ → CString → ℕ → Written
unfolding write_string_payload
write_string_tiny buf at utf8 max_len = do
  (buf, len) ← write_string_payload buf (at + 1) utf8 max_len
  some (write_at buf at (u8 len ∷ []), 1 + len)

abbrev pub flag : Bool → ℕ
flag b = if b then 1 else 0

module _ (floats : Floats) where
  open floats use {Float, lt, one, minus_one, div_16}

  -- `CLAMP(value, -1, 1)`
  abbrev pub clamp_unit : Float → Float
  clamp_unit value =
      let low = if lt minus_one value then value else minus_one in if lt low one then low else one

  -- A scroll value of the range [-16, 16] as a 16-bit pattern.
  unfoldable pub scroll_fp : Float → ℕ
  unfolding float_to_i16fp
  scroll_fp scroll = to_unsigned 16 (float_to_i16fp floats (clamp_unit (div_16 scroll)))

  -- The `switch` of `sc_control_msg_serialize`, after `buf[0]` has been written.
  unfoldable pub serialize_fields : ControlMsg Float → List ℕ → Written
  unfolding write_position write_string write_string_tiny scroll_fp float_to_u16fp
  serialize_fields (inject_keycode action keycode repeat metastate) buf =
      let buf = write_at buf 1 (u8 action ∷ []) in
      let buf = write_at buf 2 (write32be keycode) in
      let buf = write_at buf 6 (write32be repeat) in
      let buf = write_at buf 10 (write32be metastate) in some (buf, 14)
  serialize_fields (inject_text text) buf = do
    (buf, len) ← write_string buf 1 text inject_text_max_length
    some (buf, 1 + len)
  serialize_fields (inject_touch_event action action_button buttons pointer_id position pressure)
        buf =
      let buf = write_at buf 1 (u8 action ∷ []) in
      let buf = write_at buf 2 (write64be pointer_id) in
      let buf = write_position buf 10 position in
      let buf = write_at buf 22 (write16be (float_to_u16fp floats pressure)) in
      let buf = write_at buf 24 (write32be action_button) in
      let buf = write_at buf 28 (write32be buttons) in some (buf, 32)
  serialize_fields (inject_scroll_event position hscroll vscroll buttons) buf =
      let buf = write_position buf 1 position in
      let buf = write_at buf 13 (write16be (scroll_fp hscroll)) in
      let buf = write_at buf 15 (write16be (scroll_fp vscroll)) in
      let buf = write_at buf 17 (write32be buttons) in some (buf, 21)
  serialize_fields (back_or_screen_on action) buf = some (write_at buf 1 (u8 action ∷ []), 2)
  serialize_fields (get_clipboard copy_key) buf =
      some (write_at buf 1 (u8 (copy_key_code copy_key) ∷ []), 2)
  serialize_fields (set_clipboard sequence text paste) buf = do
    let buf = write_at buf 1 (write64be sequence)
    let buf = write_at buf 9 (flag paste ∷ [])
    (buf, len) ← write_string buf 10 text clipboard_text_max_length
    some (buf, 10 + len)
  serialize_fields (set_display_power on) buf = some (write_at buf 1 (flag on ∷ []), 2)
  serialize_fields (uhid_create id vendor_id product_id name report_desc_size report_desc) buf = do
    let buf = write_at buf 1 (write16be id)
    let buf = write_at buf 3 (write16be vendor_id)
    let buf = write_at buf 5 (write16be product_id)
    (buf, len) ← write_string_tiny buf 7 name 127
    let index = 7 + len
    let buf = write_at buf index (write16be report_desc_size)
    let index = index + 2
    let buf = write_at buf index (take report_desc_size report_desc)
    some (buf, index + report_desc_size)
  serialize_fields (uhid_input id size bytes) buf =
      let buf = write_at buf 1 (write16be id) in
      let buf = write_at buf 3 (write16be size) in
      let buf = write_at buf 5 (take size bytes) in some (buf, 5 + size)
  serialize_fields (uhid_destroy id) buf = some (write_at buf 1 (write16be id), 3)
  serialize_fields (start_app name) buf = do
    (buf, len) ← write_string_tiny buf 1 name 255
    some (buf, 1 + len)
  serialize_fields (camera_set_torch on) buf = some (write_at buf 1 (flag on ∷ []), 2)
  serialize_fields (resize_display width height) buf =
      let buf = write_at buf 1 (write16be width) in some (write_at buf 3 (write16be height), 5)
  serialize_fields (scan_file path) buf = do
    (buf, len) ← write_string buf 1 path scan_file_path_max_length
    some (buf, 1 + len)
  serialize_fields expand_notification_panel buf = some (buf, 1)
  serialize_fields expand_settings_panel buf = some (buf, 1)
  serialize_fields collapse_panels buf = some (buf, 1)
  serialize_fields rotate_device buf = some (buf, 1)
  serialize_fields open_hard_keyboard_settings buf = some (buf, 1)
  serialize_fields reset_video buf = some (buf, 1)
  serialize_fields camera_zoom_in buf = some (buf, 1)
  serialize_fields camera_zoom_out buf = some (buf, 1)

  unfoldable pub serialize : ControlMsg Float → List ℕ → Written
  unfolding serialize_fields
  serialize msg buf = serialize_fields msg (write_at buf 0 (u8 (type_code msg) ∷ []))

-- Messages that must not be dropped even when the queue is full.
unfoldable pub is_droppable : {Float : Type 0} → ControlMsg Float → Bool
is_droppable msg = not (type_code msg == 12) && not (type_code msg == 14)
