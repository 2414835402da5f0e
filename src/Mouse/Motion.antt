-- ===== src/Mouse/Motion.antt =====
-- What a device reads in a report of a motion or of a click.
use droidctl.Base.{
  ℕ, ◌^◌, ◌≡◌, ap, ap₂, ◌∙◌, Bool, not, Option, none, some, List, [], ◌∷◌, leb, ◌==◌, if◌then◌else◌,
  bit_and, bit_or, arith,
}
use droidctl.Base.Int.{ℤ, pos, negsuc, to_unsigned, to_signed}
use droidctl.Mouse.{Buttons, clamp_127, buttons_from_buttons_state, generate_input_from_motion}

-- A number from -127 to 127, for those outside the nearest of them.
abbrev pub nearest : ℤ → ℤ
nearest (pos n) = if leb n 127 then pos n else pos 127
nearest (negsuc n) = if leb n 126 then negsuc n else negsuc 126

-- Bit `i` of a byte.
abbrev pub bit : ℕ → ℕ → Bool
bit i c = not (bit_and c (2 ^ i) == 0)

abbrev pub is_held : ℕ → ℕ → Bool
is_held state mask = not (bit_and state mask == 0)

-- What the report says of each button, of the motion and of the wheel.
pub record Read : Type 0 where
  pub buttons : List Bool
  pub x : ℤ
  pub y : ℤ
  pub wheel : ℤ
  pub pan : ℤ

-- The fields, in the order of the descriptor: five bits, three of padding, four signed bytes.
abbrev pub read : List ℕ → Option Read
read (c ∷ x ∷ y ∷ wheel ∷ pan ∷ []) = some record {
  buttons = bit 0 c ∷ bit 1 c ∷ bit 2 c ∷ bit 3 c ∷ bit 4 c ∷ [];
  x = to_signed 8 x;
  y = to_signed 8 y;
  wheel = to_signed 8 wheel;
  pan = to_signed 8 pan;
}
read _ = none

signed-clamp_127 : (z : ℤ) → to_signed 8 (to_unsigned 8 (clamp_127 z)) ≡ nearest z
unfolding clamp_127
signed-clamp_127 z = ground arith

abbrev pub held : Buttons → ℕ → List Bool
held b state =
    is_held state b.button_left
    ∷ is_held state b.button_right
    ∷ is_held state b.button_middle
    ∷ is_held state b.button_x1
    ∷ is_held state b.button_x2
    ∷ []

abbrev five_bits : ℕ → List Bool
five_bits c = bit 0 c ∷ bit 1 c ∷ bit 2 c ∷ bit 3 c ∷ bit 4 c ∷ []

-- The bits of the byte, for each outcome of the five tests.
abbrev byte : (l r m x1 x2 : Bool) → ℕ
byte l r m x1 x2 =
    let c = if l then 0 else bit_or 0 0x01 in
    let c = if r then c else bit_or c 0x02 in
    let c = if m then c else bit_or c 0x04 in
    let c = if x1 then c else bit_or c 0x08 in if x2 then c else bit_or c 0x10

five_bits-byte :
    (l r m x1 x2 : Bool)
    → five_bits (byte l r m x1 x2) ≡ (not l ∷ not r ∷ not m ∷ not x1 ∷ not x2 ∷ [])
five_bits-byte l r m x1 x2 = ground arith

buttons_lem :
    (b : Buttons) (state : ℕ) → five_bits (buttons_from_buttons_state b state) ≡ held b state
unfolding buttons_from_buttons_state
buttons_lem b state =
    five_bits-byte (bit_and state b.button_left == 0) (bit_and state b.button_right == 0)
      (bit_and state b.button_middle == 0) (bit_and state b.button_x1 == 0)
      (bit_and state b.button_x2 == 0)

abbrev fields : List Bool → ℤ → ℤ → Option Read
fields buttons x y = some record { buttons = buttons; x = x; y = y; wheel = pos 0; pan = pos 0 }

-- The report of a motion reads, by the layout of the descriptor, as the state of each of the five
-- buttons, the motion brought to the range from -127 to 127, and no scrolling.
pub read-generate_input_from_motion :
    (b : Buttons) (state : ℕ) (xrel yrel : ℤ)
    → read (generate_input_from_motion b state xrel yrel).bytes
      ≡ some record {
        buttons = held b state;
        x = nearest xrel;
        y = nearest yrel;
        wheel = pos 0;
        pan = pos 0;
      }
unfolding generate_input_from_motion
read-generate_input_from_motion b state xrel yrel =
    ap
      (λ buttons.
        fields buttons (to_signed 8 (to_unsigned 8 (clamp_127 xrel)))
          (to_signed 8 (to_unsigned 8 (clamp_127 yrel))))
      (buttons_lem b state)
    ∙ ap₂ (λ x y. fields (held b state) x y) (signed-clamp_127 xrel) (signed-clamp_127 yrel)
