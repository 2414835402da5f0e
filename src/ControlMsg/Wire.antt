-- ===== src/ControlMsg/Wire.antt =====
-- `sc_control_msg_serialize` writes the wire format of every message, within its buffer.
use droidctl.Base.{ℕ, ◌+◌, ◌≤◌, ◌≡◌, refl, ap, ◌∙◌, some, List, [], ◌∷◌, ◌++◌}
use droidctl.Base.{length, drop, take, arith, length-append, length-take}
use droidctl.Base.Buffer.{write_at}
use droidctl.Floats.{Floats}
use droidctl.Binary.{u8, write16be, write32be, write64be}
use droidctl.ControlMsg.{ControlMsg, control_msg_max_size, serialize, copy_key_code, flag}
use droidctl.ControlMsg.{inject_text_max_length}
use droidctl.ControlMsg.{scan_file_path_max_length, clipboard_text_max_length}
use droidctl.ControlMsg.Encoding.{encoding, IsValid, payload}
use droidctl.ControlMsg.Frames.{Wrote, Starts-next, Wrote-as, text-Sent}
use droidctl.ControlMsg.Serialized.{Done, Starts-type, inject_keycode-Done, inject_touch_event-Done}
use droidctl.ControlMsg.Serialized.{inject_scroll_event-Done, text-Done, tiny_text-Done}
use droidctl.ControlMsg.Serialized.{set_clipboard-Done, uhid_create-Done, uhid_input-Done}

module _ (floats : Floats) (buf : List ℕ) (room : control_msg_max_size ≤ length buf) where
  open floats use {Float}

  no_data : (code : ℕ) → Wrote buf [] (code ∷ []) 1 (some (write_at buf 0 (code ∷ []), 1))
  no_data code = record { out = _; returned = refl; starts = Starts-type buf room code }

  one_byte :
      (code b : ℕ)
      → Wrote buf [] (code ∷ b ∷ []) 2 (some (write_at (write_at buf 0 (code ∷ [])) 1 (b ∷ []), 2))
  one_byte code b = record {
    out = _;
    returned = refl;
    starts = Starts-next buf 1 (b ∷ []) (Starts-type buf room code) refl (omega arith);
  }

  serialize-Done : (msg : ControlMsg Float) → IsValid msg → Done floats buf room msg
  unfolding Done serialize write16be write32be
  serialize-Done (ControlMsg.inject_keycode action keycode repeat metastate) v =
      inject_keycode-Done floats buf room action keycode repeat metastate
  serialize-Done (ControlMsg.inject_text text) v =
      Wrote-as buf {n = 1 + (4 + length (payload text inject_text_max_length))} _ _ refl
        (omega arith) (text-Done floats buf room 1 text inject_text_max_length v (omega arith))
  serialize-Done
        (ControlMsg.inject_touch_event action action_button buttons pointer_id position pressure)
        v =
      inject_touch_event-Done floats buf room action action_button buttons pointer_id position
        pressure
  serialize-Done (ControlMsg.inject_scroll_event position hscroll vscroll buttons) v =
      inject_scroll_event-Done floats buf room position hscroll vscroll buttons
  serialize-Done (ControlMsg.back_or_screen_on action) v = one_byte 4 (u8 action)
  serialize-Done (ControlMsg.get_clipboard copy_key) v = one_byte 8 (u8 (copy_key_code copy_key))
  serialize-Done (ControlMsg.set_clipboard sequence text paste) v =
      set_clipboard-Done floats buf room sequence text paste v.1
  serialize-Done (ControlMsg.set_display_power on) v = one_byte 10 (flag on)
  serialize-Done (ControlMsg.uhid_create id vendor_id product_id name size desc) v =
      uhid_create-Done floats buf room id vendor_id product_id name size desc v.3 v.4 v.5
  serialize-Done (ControlMsg.uhid_input id size bytes) v =
      uhid_input-Done floats buf room id size bytes v.1 v.2
  serialize-Done (ControlMsg.uhid_destroy id) v = record {
    out = _;
    returned = refl;
    starts = Starts-next buf 1 (write16be id) (Starts-type buf room 14) refl (omega arith);
  }
  serialize-Done (ControlMsg.start_app name) v =
      Wrote-as buf {n = 1 + (1 + length (payload name 255))} _ _ refl (omega arith)
        (tiny_text-Done floats buf room 16 name 255 v (omega arith))
  serialize-Done (ControlMsg.camera_set_torch on) v = one_byte 18 (flag on)
  serialize-Done (ControlMsg.resize_display width height) v = record {
    out = _;
    returned = refl;
    starts =
        Starts-next buf 3 (write16be height)
          (Starts-next buf 1 (write16be width) (Starts-type buf room 21) refl (omega arith)) refl
          (omega arith);
  }
  serialize-Done (ControlMsg.scan_file path) v =
      Wrote-as buf {n = 1 + (4 + length (payload path scan_file_path_max_length))} _ _ refl
        (omega arith) (text-Done floats buf room 22 path scan_file_path_max_length v (omega arith))
  serialize-Done ControlMsg.expand_notification_panel v = no_data 5
  serialize-Done ControlMsg.expand_settings_panel v = no_data 6
  serialize-Done ControlMsg.collapse_panels v = no_data 7
  serialize-Done ControlMsg.rotate_device v = no_data 11
  serialize-Done ControlMsg.open_hard_keyboard_settings v = no_data 15
  serialize-Done ControlMsg.reset_video v = no_data 17
  serialize-Done ControlMsg.camera_zoom_in v = no_data 19
  serialize-Done ControlMsg.camera_zoom_out v = no_data 20

  -- In a buffer of the maximal size, `sc_control_msg_serialize` on a valid message writes exactly
  -- its wire format, leaves the bytes behind it as they were, and returns its size.
  pub serialize-encoding :
      (msg : ControlMsg Float)
      → IsValid msg
      → serialize floats msg buf
        ≡ some (
          encoding floats msg ++ drop (length (encoding floats msg)) buf,
          length (encoding floats msg),
        )
  unfolding Done
  serialize-encoding msg v =
      let w = serialize-Done msg v in
      w.returned ∙ ap (λ o. some (o, length (encoding floats msg))) w.starts.holds

-- The wire format of a valid message is not empty, and fits the buffers of both ends.
pub length-encoding :
    (floats : Floats) (msg : ControlMsg floats.Float)
    → IsValid msg
    → (1 ≤ length (encoding floats msg)) × (length (encoding floats msg) ≤ control_msg_max_size)
unfolding write16be write32be write64be
length-encoding floats (ControlMsg.inject_text text) v =
    omega (arith, (text-Sent text inject_text_max_length v).short)
length-encoding floats (ControlMsg.set_clipboard sequence text paste) v =
    omega (arith, (text-Sent text clipboard_text_max_length v.1).short)
length-encoding floats (ControlMsg.uhid_create id vendor_id product_id name size desc) v = omega (
  arith,
  (text-Sent name 127 v.3).short,
  length-append (payload name 127) (write16be size ++ take size desc),
  length-take size desc,
)
length-encoding floats (ControlMsg.uhid_input id size bytes) v =
    omega (arith, length-take size bytes)
length-encoding floats (ControlMsg.start_app name) v = omega (arith, (text-Sent name 255 v).short)
length-encoding floats (ControlMsg.scan_file path) v =
    omega (arith, (text-Sent path scan_file_path_max_length v).short)
length-encoding floats _ v = omega arith
