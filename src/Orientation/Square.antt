-- ===== src/Orientation/Square.antt =====
-- What an orientation does to the pixels of an image, and that `apply` composes.
use droidctl.Base.{ℕ, zero, suc, ◌-◌, ◌<◌, ◌≡◌, arith, if◌then◌else◌}
use droidctl.Orientation.{Orientation, code, is_mirror, is_swap, get_rotation, apply}

-- A pixel of an image of that size.
pub record Pixel : Type 0 where
  pub width : ℕ
  pub height : ℕ
  pub x : ℕ
  pub y : ℕ

abbrev pub flip : Pixel → Pixel
flip p = record p { x = p.width - 1 - p.x }

abbrev pub turn : Pixel → Pixel
turn p = record { width = p.height; height = p.width; x = p.height - 1 - p.y; y = p.x }

abbrev pub turns : ℕ → Pixel → Pixel
turns zero p = p
turns (suc n) p = turn (turns n p)

-- The horizontal flip is applied before the rotation.
unfoldable pub place : ℕ → Pixel → Pixel
place orientation p = turns (get_rotation orientation) (if is_mirror orientation then flip p else p)

-- Applying one orientation after another to an image places every pixel as the orientation that
-- `sc_orientation_apply` returns.
pub place-apply :
    (src transform : Orientation) (p : Pixel)
    → p.x < p.width
    → p.y < p.height
    → place (apply (code src) (code transform)) p ≡ place (code transform) (place (code src) p)
unfolding place apply
place-apply Orientation.turn_0 transform p in_x in_y = ground arith
place-apply Orientation.turn_90 transform p in_x in_y = ground arith
place-apply Orientation.turn_180 transform p in_x in_y = ground arith
place-apply Orientation.turn_270 transform p in_x in_y = ground arith
place-apply Orientation.flip_0 transform p in_x in_y = ground arith
place-apply Orientation.flip_90 transform p in_x in_y = ground arith
place-apply Orientation.flip_180 transform p in_x in_y = ground arith
place-apply Orientation.flip_270 transform p in_x in_y = ground arith

-- An orientation swaps width and height exactly when `sc_orientation_is_swap` says so, and keeps
-- every pixel inside the image.
pub place-bounds :
    (orientation : Orientation) (p : Pixel)
    → p.x < p.width
    → p.y < p.height
    → let q = place (code orientation) p in
      (q.width ≡ (if is_swap (code orientation) then p.height else p.width))
      × (q.height ≡ (if is_swap (code orientation) then p.width else p.height))
      × (q.x < q.width)
      × (q.y < q.height)
unfolding place
place-bounds orientation p in_x in_y = ground arith
