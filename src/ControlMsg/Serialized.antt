-- ===== src/ControlMsg/Serialized.antt =====
-- `sc_control_msg_serialize`, with its offsets: the messages of more than one field.
use droidctl.Base.{ℕ, ◌+◌, ◌≤◌, ◌≡◌, ◌<◌, ◌^◌, refl, ap, some, List, [], ◌∷◌, ◌++◌}
use droidctl.Base.{length, take, arith, length-append, length-take, append_assoc}
use droidctl.Base.Buffer.{write_at}
use droidctl.Base.Int.{to_unsigned}
use droidctl.Floats.{Floats}
use droidctl.Binary.{u8, write16be, write32be, write64be, float_to_u16fp}
use droidctl.ControlMsg.{CString, Position, control_msg_max_size, serialize, write_position}
use droidctl.ControlMsg.{write_string, write_string_tiny, ControlMsg, ◌>>=◌}
use droidctl.ControlMsg.{scroll_fp}
use droidctl.ControlMsg.Encoding.{encoding, IsText, payload, string_bytes, tiny_string_bytes}
use droidctl.ControlMsg.Frames.{
  Starts, Starts-next, text-Sent, Wrote, write_string-Wrote, write_string_tiny-Wrote, Wrote-as,
}
use droidctl.Base.{Bool}
use droidctl.ControlMsg.{flag, clipboard_text_max_length}

module _ (buf : List ℕ) (room : control_msg_max_size ≤ length buf) where
  -- The first byte.
  pub Starts-type : (code : ℕ) → Starts buf (code ∷ []) (write_at buf 0 (code ∷ []))
  Starts-type code =
      Starts-next buf {front = []} 0 (code ∷ []) (record { holds = refl }) refl (omega arith)

module _ (floats : Floats) (buf : List ℕ) (room : control_msg_max_size ≤ length buf) where
  open floats use {Float}

  -- What the function leaves in the buffer and returns.
  unfoldable pub Done : ControlMsg Float → Type 0
  Done msg =
      Wrote buf [] (encoding floats msg) (length (encoding floats msg)) (serialize floats msg buf)

  pub inject_keycode-Done :
      (action keycode repeat metastate : ℕ)
      → Done (ControlMsg.inject_keycode action keycode repeat metastate)
  unfolding Done serialize write32be
  inject_keycode-Done action keycode repeat metastate = record {
    out = _;
    returned = refl;
    starts =
        Starts-next buf 10 (write32be metastate)
          (Starts-next buf 6 (write32be repeat)
            (Starts-next buf 2 (write32be keycode)
              (Starts-next buf 1 (u8 action ∷ []) (Starts-type buf room 0) refl (omega arith)) refl
              (omega arith))
            refl (omega arith))
          refl (omega arith);
  }

  pub inject_touch_event-Done :
      (action action_button buttons pointer_id : ℕ) (p : Position) (pressure : Float)
      → Done (ControlMsg.inject_touch_event action action_button buttons pointer_id p pressure)
  unfolding Done serialize write64be write32be write16be write_position
  inject_touch_event-Done action action_button buttons pointer_id p pressure = record {
    out = _;
    returned = refl;
    starts =
        Starts-next buf 28 (write32be buttons)
          (Starts-next buf 24 (write32be action_button)
            (Starts-next buf 22 (write16be (float_to_u16fp floats pressure))
              (Starts-next buf 20 (write16be p.height)
                (Starts-next buf 18 (write16be p.width)
                  (Starts-next buf 14 (write32be (to_unsigned 32 p.y))
                    (Starts-next buf 10 (write32be (to_unsigned 32 p.x))
                      (Starts-next buf 2 (write64be pointer_id)
                        (Starts-next buf 1 (u8 action ∷ []) (Starts-type buf room 2) refl
                          (omega arith))
                        refl (omega arith))
                      refl (omega arith))
                    refl (omega arith))
                  refl (omega arith))
                refl (omega arith))
              refl (omega arith))
            refl (omega arith))
          refl (omega arith);
  }

  pub inject_scroll_event-Done :
      (p : Position) (hscroll vscroll : Float) (buttons : ℕ)
      → Done (ControlMsg.inject_scroll_event p hscroll vscroll buttons)
  unfolding Done serialize write32be write16be write_position
  inject_scroll_event-Done p hscroll vscroll buttons = record {
    out = _;
    returned = refl;
    starts =
        Starts-next buf 17 (write32be buttons)
          (Starts-next buf 15 (write16be (scroll_fp floats vscroll))
            (Starts-next buf 13 (write16be (scroll_fp floats hscroll))
              (Starts-next buf 11 (write16be p.height)
                (Starts-next buf 9 (write16be p.width)
                  (Starts-next buf 5 (write32be (to_unsigned 32 p.y))
                    (Starts-next buf 1 (write32be (to_unsigned 32 p.x)) (Starts-type buf room 3)
                      refl (omega arith))
                    refl (omega arith))
                  refl (omega arith))
                refl (omega arith))
              refl (omega arith))
            refl (omega arith))
          refl (omega arith);
  }

  -- A message that is a text on 4 + n bytes.
  pub text-Done :
      (code : ℕ) (text : CString) (max_len : ℕ)
      → IsText text
      → 5 + max_len ≤ length buf
      → Wrote buf []
          (code ∷ string_bytes text max_len)
          (1 + (4 + length (payload text max_len)))
          (write_string (write_at buf 0 (code ∷ [])) 1 text max_len >>= λ p. some (p.0, 1 + p.1))
  unfolding write32be
  text-Done code text max_len h fits =
      let w =
        write_string-Wrote buf 1 text max_len h (Starts-type buf room code) refl (omega arith) in
      record { out = w.out; returned = rw w.returned; starts = w.starts }

  pub tiny_text-Done :
      (code : ℕ) (text : CString) (max_len : ℕ)
      → IsText text
      → 2 + max_len ≤ length buf
      → Wrote buf []
          (code ∷ tiny_string_bytes text max_len)
          (1 + (1 + length (payload text max_len)))
          (write_string_tiny (write_at buf 0 (code ∷ [])) 1 text max_len >>= λ p.
            some (p.0, 1 + p.1))
  tiny_text-Done code text max_len h fits =
      let w =
        write_string_tiny-Wrote buf 1 text max_len h (Starts-type buf room code) refl
          (omega arith) in
      record { out = w.out; returned = rw w.returned; starts = w.starts }

  pub set_clipboard-Done :
      (sequence : ℕ) (text : CString) (paste : Bool)
      → IsText text
      → Done (ControlMsg.set_clipboard sequence text paste)
  unfolding Done serialize write64be write32be
  set_clipboard-Done sequence text paste h =
      let w =
        write_string-Wrote buf 10 text clipboard_text_max_length h
          (Starts-next buf 9 (flag paste ∷ [])
            (Starts-next buf 1 (write64be sequence) (Starts-type buf room 9) refl (omega arith))
            refl (omega arith))
          refl (omega arith) in
      Wrote-as buf {n = 10 + (4 + length (payload text clipboard_text_max_length))} _ _ refl
        (omega arith) (record { out = w.out; returned = rw w.returned; starts = w.starts })

  pub uhid_create-Done :
      (id vendor_id product_id : ℕ) (name : CString) (size : ℕ) (desc : List ℕ)
      → IsText name
      → size < 2 ^ 16
      → size ≤ length desc
      → Done (ControlMsg.uhid_create id vendor_id product_id name size desc)
  unfolding Done serialize write16be
  uhid_create-Done id vendor_id product_id name size desc h small inside =
      let sent = payload name 127 in
      let short = (text-Sent name 127 h).short in
      let full : length (take size desc) ≡ size = omega (arith, length-take size desc) in
      let head =
        Starts-next buf 5 (write16be product_id)
          (Starts-next buf 3 (write16be vendor_id)
            (Starts-next buf 1 (write16be id) (Starts-type buf room 12) refl (omega arith)) refl
            (omega arith))
          refl (omega arith) in
      let w = write_string_tiny-Wrote buf 7 name 127 h head refl (omega arith) in
      let count : length (sent ++ write16be size) ≡ length sent + 2 =
        length-append sent (write16be size) in
      let all : length (sent ++ (write16be size ++ take size desc)) ≡ length sent + (2 + size) =
        omega (arith, full, length-append sent (write16be size ++ take size desc)) in
      let behind =
        Starts-next buf (7 + (1 + length sent) + 2) (take size desc)
          (Starts-next buf (7 + (1 + length sent)) (write16be size) w.starts (omega arith)
            (omega (arith, short)))
          (omega (arith, count)) (omega (arith, count, full, short)) in
      Wrote-as buf {n = 7 + (1 + length sent) + 2 + size} _ _
        (ap
          (λ l.
            12
            ∷ (write16be id
                ++ (write16be vendor_id ++ (write16be product_id ++ (u8 (length sent) ∷ l)))))
          (append_assoc sent (write16be size) (take size desc)))
        (omega (arith, all)) (record { out = _; returned = rw w.returned; starts = behind })

  pub uhid_input-Done :
      (id size : ℕ) (bytes : List ℕ)
      → size ≤ 15
      → size ≤ length bytes
      → Done (ControlMsg.uhid_input id size bytes)
  unfolding Done serialize write16be
  uhid_input-Done id size bytes small inside =
      let full : length (take size bytes) ≡ size = omega (arith, length-take size bytes) in
      Wrote-as buf {n = 5 + size} _ _ refl (omega (arith, full)) (record {
        out = _;
        returned = refl;
        starts =
            Starts-next buf 5 (take size bytes)
              (Starts-next buf 3 (write16be size)
                (Starts-next buf 1 (write16be id) (Starts-type buf room 13) refl (omega arith)) refl
                (omega arith))
              refl (omega (arith, full));
      })
