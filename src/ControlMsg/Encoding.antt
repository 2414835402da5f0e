-- ===== src/ControlMsg/Encoding.antt =====
-- The wire format of a control message, field by field, and the messages that the client builds.
use droidctl.Base.{ℕ, ◌≤◌, ◌<◌, ◌^◌, none, some, List, [], ◌∷◌, ◌++◌}
use droidctl.Base.{length, take}
use droidctl.Base.Int.{to_unsigned, IsInt32}
use droidctl.Floats.{Floats}
use droidctl.Binary.{u8, u32, write16be, write32be, write64be, float_to_u16fp}
use droidctl.Str.{utf8_truncation_index}
use droidctl.Str.Truncation.{StartsCodepoint}
use droidctl.ControlMsg.{ControlMsg, CString, Position, type_code, copy_key_code, flag}
use droidctl.ControlMsg.{scroll_fp, inject_text_max_length, clipboard_text_max_length}
use droidctl.ControlMsg.{scan_file_path_max_length}

-- The part of a text that is sent.
unfoldable pub payload : CString → ℕ → List ℕ
payload none max_len = []
payload (some utf8) max_len = elim (utf8_truncation_index utf8 max_len) [
  | none ↦ []
  | some n ↦ take n utf8
]

abbrev pub position_bytes : Position → List ℕ
position_bytes p =
    write32be (to_unsigned 32 p.x)
    ++ (write32be (to_unsigned 32 p.y) ++ (write16be p.width ++ write16be p.height))

-- A length on 4 bytes or on 1, and the text.
abbrev pub string_bytes : CString → ℕ → List ℕ
string_bytes text max_len = let sent = payload text max_len in write32be (u32 (length sent)) ++ sent

abbrev pub tiny_string_bytes : CString → ℕ → List ℕ
tiny_string_bytes text max_len = let sent = payload text max_len in u8 (length sent) ∷ sent

module _ (floats : Floats) where
  open floats use {Float}

  abbrev pub fields : ControlMsg Float → List ℕ
  fields (ControlMsg.inject_keycode action keycode repeat metastate) =
      u8 action ∷ (write32be keycode ++ (write32be repeat ++ write32be metastate))
  fields (ControlMsg.inject_text text) = string_bytes text inject_text_max_length
  fields (ControlMsg.inject_touch_event action action_button buttons pointer_id position pressure) =
      u8 action
      ∷ (write64be pointer_id
          ++ (position_bytes position
              ++ (write16be (float_to_u16fp floats pressure)
                  ++ (write32be action_button ++ write32be buttons))))
  fields (ControlMsg.inject_scroll_event position hscroll vscroll buttons) =
      position_bytes position
      ++ (write16be (scroll_fp floats hscroll)
          ++ (write16be (scroll_fp floats vscroll) ++ write32be buttons))
  fields (ControlMsg.back_or_screen_on action) = u8 action ∷ []
  fields (ControlMsg.get_clipboard copy_key) = u8 (copy_key_code copy_key) ∷ []
  fields (ControlMsg.set_clipboard sequence text paste) =
      write64be sequence ++ (flag paste ∷ string_bytes text clipboard_text_max_length)
  fields (ControlMsg.set_display_power on) = flag on ∷ []
  fields (ControlMsg.uhid_create id vendor_id product_id name size desc) =
      write16be id
      ++ (write16be vendor_id
          ++ (write16be product_id
              ++ (tiny_string_bytes name 127 ++ (write16be size ++ take size desc))))
  fields (ControlMsg.uhid_input id size bytes) = write16be id ++ (write16be size ++ take size bytes)
  fields (ControlMsg.uhid_destroy id) = write16be id
  fields (ControlMsg.start_app name) = tiny_string_bytes name 255
  fields (ControlMsg.camera_set_torch on) = flag on ∷ []
  fields (ControlMsg.resize_display width height) = write16be width ++ write16be height
  fields (ControlMsg.scan_file path) = string_bytes path scan_file_path_max_length
  fields msg = []

  -- The bytes that a message is on the wire.
  abbrev pub encoding : ControlMsg Float → List ℕ
  encoding msg = u8 (type_code msg) ∷ fields msg

abbrev pub IsText : CString → Type 0
IsText none = Unit
IsText (some utf8) = StartsCodepoint utf8

abbrev pub IsPosition : Position → Type 0
IsPosition p = IsInt32 p.x × IsInt32 p.y × (p.width < 2 ^ 16) × (p.height < 2 ^ 16)

-- Each field is a value of its C type, each text starts a codepoint, and each size is that of the
-- bytes behind it.
abbrev pub IsValid : {Float : Type 0} → ControlMsg Float → Type 0
IsValid (ControlMsg.inject_keycode action keycode repeat metastate) =
    (action < 2 ^ 8) × (keycode < 2 ^ 32) × (repeat < 2 ^ 32) × (metastate < 2 ^ 32)
IsValid (ControlMsg.inject_text text) = IsText text
IsValid (ControlMsg.inject_touch_event action action_button buttons pointer_id position pressure) =
    (action < 2 ^ 8)
    × (action_button < 2 ^ 32)
    × (buttons < 2 ^ 32)
    × (pointer_id < 2 ^ 64)
    × IsPosition position
IsValid (ControlMsg.inject_scroll_event position hscroll vscroll buttons) =
    IsPosition position × (buttons < 2 ^ 32)
IsValid (ControlMsg.back_or_screen_on action) = action < 2 ^ 8
IsValid (ControlMsg.set_clipboard sequence text paste) = (sequence < 2 ^ 64) × IsText text
IsValid (ControlMsg.uhid_create id vendor_id product_id name size desc) =
    (id < 2 ^ 16)
    × (vendor_id < 2 ^ 16)
    × (product_id < 2 ^ 16)
    × IsText name
    × (size < 2 ^ 16)
    × (size ≤ length desc)
IsValid (ControlMsg.uhid_input id size bytes) = (id < 2 ^ 16) × (size ≤ 15) × (size ≤ length bytes)
IsValid (ControlMsg.uhid_destroy id) = id < 2 ^ 16
IsValid (ControlMsg.start_app name) = IsText name
IsValid (ControlMsg.resize_display width height) = (width < 2 ^ 16) × (height < 2 ^ 16)
IsValid (ControlMsg.scan_file path) = IsText path
IsValid msg = Unit
