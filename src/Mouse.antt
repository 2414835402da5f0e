-- ===== src/Mouse.antt =====
-- app/src/hid/hid_mouse.{h,c}: the mouse of the client as a HID device.
pub mod Motion
use droidctl.Base.{
  ℕ, ◌+◌, ◌≤◌, Bool, true, false, not, ◌&&◌, Option, none, some, List, [], ◌∷◌, ltb, leb, ◌==◌,
  if◌then◌else◌, bit_and, bit_or,
}
use droidctl.Base.Int.{ℤ, pos, negsuc, ltb_ℤ, to_unsigned}
use droidctl.Hid.{HidOpen, HidInput}

abbrev pub hid_id_mouse : ℕ
hid_id_mouse = 2

-- `SC_HID_MOUSE_INPUT_SIZE`
abbrev pub mouse_input_size : ℕ
mouse_input_size = 5

-- `SC_HID_MOUSE_REPORT_DESC`
abbrev pub report_desc : List ℕ
report_desc =
    0x05 ∷ 0x01 ∷ 0x09 ∷ 0x02 ∷ 0xa1 ∷ 0x01 ∷ 0x09 ∷ 0x01 ∷ 0xa1 ∷ 0x00 ∷ 0x05 ∷ 0x09 ∷ 0x19 ∷ 0x01
    ∷ 0x29 ∷ 0x05 ∷ 0x15 ∷ 0x00 ∷ 0x25 ∷ 0x01 ∷ 0x95 ∷ 0x05 ∷ 0x75 ∷ 0x01 ∷ 0x81 ∷ 0x02 ∷ 0x95
    ∷ 0x01 ∷ 0x75 ∷ 0x03 ∷ 0x81 ∷ 0x01 ∷ 0x05 ∷ 0x01 ∷ 0x09 ∷ 0x30 ∷ 0x09 ∷ 0x31 ∷ 0x09 ∷ 0x38
    ∷ 0x15 ∷ 0x81 ∷ 0x25 ∷ 0x7f ∷ 0x75 ∷ 0x08 ∷ 0x95 ∷ 0x03 ∷ 0x81 ∷ 0x06 ∷ 0x05 ∷ 0x0c ∷ 0x0a
    ∷ 0x38 ∷ 0x02 ∷ 0x15 ∷ 0x81 ∷ 0x25 ∷ 0x7f ∷ 0x75 ∷ 0x08 ∷ 0x95 ∷ 0x01 ∷ 0x81 ∷ 0x06 ∷ 0xc0
    ∷ 0xc0 ∷ []

-- The masks of the buttons, which app/src/input_events.h takes from SDL.
pub record Buttons : Type 0 where
  pub button_left : ℕ
  pub button_right : ℕ
  pub button_middle : ℕ
  pub button_x1 : ℕ
  pub button_x2 : ℕ

-- The `float` operations that scrolling uses.
pub record Scrolling : Type 1 where
  pub Float : Type 0
  pub zero : Float
  pub add : Float → Float → Float
  -- `CLAMP(v, -127, 127)`
  pub clamp : Float → Float
  -- `(int8_t) v` and `v - n`
  pub truncate : Float → ℤ
  pub sub_int : Float → ℤ → Float

-- `CLAMP(v, -127, 127)` of an `int32_t`
unfoldable pub clamp_127 : ℤ → ℤ
clamp_127 v =
    let low = if ltb_ℤ v (negsuc 126) then negsuc 126 else v in
    if ltb_ℤ (pos 127) low then pos 127 else low

abbrev pub input_with : List ℕ → HidInput
input_with bytes = record { hid_id = hid_id_mouse; size = mouse_input_size; bytes = bytes }

-- `c` with the bit when one of the buttons of the mask is down.
abbrev pub with_button : ℕ → ℕ → ℕ → ℕ → ℕ
with_button buttons_state mask bit c = if bit_and buttons_state mask == 0 then c else bit_or c bit

unfoldable pub buttons_from_buttons_state : Buttons → ℕ → ℕ
buttons_from_buttons_state b state =
    let c = with_button state b.button_left 0x01 0 in
    let c = with_button state b.button_right 0x02 c in
    let c = with_button state b.button_middle 0x04 c in
    let c = with_button state b.button_x1 0x08 c in with_button state b.button_x2 0x10 c

unfoldable pub generate_input_from_motion : Buttons → ℕ → ℤ → ℤ → HidInput
generate_input_from_motion b buttons_state xrel yrel = input_with (
    buttons_from_buttons_state b buttons_state
    ∷ to_unsigned 8 (clamp_127 xrel)
    ∷ to_unsigned 8 (clamp_127 yrel)
    ∷ 0
    ∷ 0
    ∷ [])

unfoldable pub generate_input_from_click : Buttons → ℕ → HidInput
generate_input_from_click b buttons_state =
    input_with (buttons_from_buttons_state b buttons_state ∷ 0 ∷ 0 ∷ 0 ∷ 0 ∷ [])

module _ (s : Scrolling) where
  open s use {Float, zero, add, clamp, truncate, sub_int}

  pub record Mouse : Type 0 where
    pub residual_hscroll : Float
    pub residual_vscroll : Float

  abbrev pub init : Mouse
  init = record { residual_hscroll = zero; residual_vscroll = zero }

  -- The integer that is consumed, and the residual.
  unfoldable pub consume_scroll_integer : Float → ℤ × Float
  consume_scroll_integer scroll =
      let value = clamp scroll in let consume = truncate value in (consume, sub_int value consume)

  abbrev pub is_zero : ℤ → Bool
  is_zero (pos n) = n == 0
  is_zero (negsuc n) = false

  -- `none` is the result false.
  unfoldable pub generate_input_from_scroll : Mouse → Float → Float → Option HidInput × Mouse
  generate_input_from_scroll hid hscroll vscroll =
      let (h, residual_h) = consume_scroll_integer (add hid.residual_hscroll hscroll) in
      let (v, residual_v) = consume_scroll_integer (add hid.residual_vscroll vscroll) in
      let hid' : Mouse = record { residual_hscroll = residual_h; residual_vscroll = residual_v } in
      if is_zero h && is_zero v
      then (none, hid')
      else (some (input_with (0 ∷ 0 ∷ 0 ∷ to_unsigned 8 v ∷ to_unsigned 8 h ∷ [])), hid')

unfoldable pub generate_open : HidOpen
generate_open = record { hid_id = hid_id_mouse; report_desc = report_desc }

unfoldable pub generate_close : ℕ
generate_close = hid_id_mouse
