-- ===== src/Screen/Points.antt =====
-- The point of the frame that is shown at a point of the content.
use droidctl.Base.{ℕ, zero, suc, ◌≡◌, refl, ap₂, if◌then◌else◌, arith}
use droidctl.Base.Int.{ℤ}
use droidctl.Orientation.{
  Orientation, turn_0, turn_90, turn_180, turn_270, flip_0, flip_90, flip_180, flip_270, code,
  is_mirror, get_rotation,
}
use droidctl.Screen.{Size, Point, get_oriented_size, from_end, frame_point}

-- A point between the pixels of an image of that size.
pub record Shown : Type 0 where
  pub size : Size
  pub at : Point

abbrev pub flipped : Shown → Shown
flipped s = record s { at = record { x = from_end s.size.width s.at.x; y = s.at.y } }

-- Clockwise by 90 degrees.
abbrev pub turned : Shown → Shown
turned s = record {
  size = record { width = s.size.height; height = s.size.width };
  at = record { x = from_end s.size.height s.at.y; y = s.at.x };
}

abbrev pub times : ℕ → Shown → Shown
times zero s = s
times (suc n) s = turned (times n s)

-- The flip comes before the rotation.
abbrev pub shown : ℕ → Shown → Shown
shown orientation s =
    times (get_rotation orientation) (if is_mirror orientation then flipped s else s)

from_end_twice : (w : ℕ) (x : ℤ) → from_end w (from_end w x) ≡ x
from_end_twice w x = ground arith

at_point : ℤ → ℤ → Point
at_point a b = record { x = a; y = b }

-- Where a point of the frame is shown, the conversion gives that point back.
pub frame_point-shown :
    (orientation : Orientation) (size : Size) (p : Point)
    → let s = shown (code orientation) (record { size = size; at = p }) in
      (s.size ≡ get_oriented_size size (code orientation))
      × (frame_point orientation (get_oriented_size size (code orientation)) s.at.x s.at.y ≡ p)
unfolding frame_point get_oriented_size at_point
frame_point-shown turn_0 size p = (refl, refl)
frame_point-shown turn_90 size p = (refl, ap₂ at_point refl (from_end_twice size.height p.y))
frame_point-shown turn_180 size p =
    (refl, ap₂ at_point (from_end_twice size.width p.x) (from_end_twice size.height p.y))
frame_point-shown turn_270 size p =
    (refl, ap₂ at_point (from_end_twice size.width p.x) (from_end_twice size.height p.y))
frame_point-shown flip_0 size p = (refl, ap₂ at_point (from_end_twice size.width p.x) refl)
frame_point-shown flip_90 size p =
    (refl, ap₂ at_point (from_end_twice size.width p.x) (from_end_twice size.height p.y))
frame_point-shown flip_180 size p =
    (refl, ap₂ at_point (from_end_twice size.width p.x) (from_end_twice size.height p.y))
frame_point-shown flip_270 size p =
    (refl, ap₂ at_point (from_end_twice size.width p.x) (from_end_twice size.height p.y))
