-- ===== src/Screen.antt =====
-- app/src/screen.c: the sizes of the window, and the point of the frame under a point of the content.
pub mod Points
pub mod Sizes
use droidctl.Base.{
  ℕ, zero, suc, ◌+◌, ◌-◌, ◌*◌, ◌/◌, ◌%◌, ◌^◌, min, Bool, not, ◌&&◌, ◌||◌, Option, none, some, ltb,
  leb, ◌==◌, if◌then◌else◌,
}
use droidctl.Base.Int.{ℤ, pos, negsuc}
use droidctl.Binary.{u16, u32}
use droidctl.Orientation.{
  Orientation, turn_0, turn_90, turn_180, turn_270, flip_0, flip_90, flip_180, flip_270, code,
  is_swap,
}

-- `struct sc_size`
pub record Size : Type 0 where
  pub width : ℕ
  pub height : ℕ

-- `struct sc_point`
pub record Point : Type 0 where
  pub x : ℤ
  pub y : ℤ

abbrev pub display_margins : ℕ
display_margins = 96

unfoldable pub get_oriented_size : Size → ℕ → Size
get_oriented_size size orientation =
    if is_swap orientation
    then record { width = size.height; height = size.width }
    else record { width = size.width; height = size.height }

-- `get_preferred_display_bounds`, from the usable bounds that SDL gives, if any.
unfoldable pub get_preferred_display_bounds : Option Size → Option Size
get_preferred_display_bounds none = none
get_preferred_display_bounds (some rect) = some record {
  width = u16 (rect.width - display_margins);
  height = u16 (rect.height - display_margins);
}

unfoldable pub is_optimal_size : Size → Size → Bool
is_optimal_size current_size content_size =
    (current_size.height == u32 (current_size.width * content_size.height) / content_size.width)
    || (current_size.width == u32 (current_size.height * content_size.width) / content_size.height)

-- `display` is what SDL gives when the size must be within the display.
unfoldable pub get_optimal_size : Option Size → Size → Size → Bool → Size
get_optimal_size display current_size content_size within_display_bounds =
    let bounds = if within_display_bounds then get_preferred_display_bounds display else none in
    let window_size : Size = elim bounds [
      | none ↦ current_size
      | some display_size ↦ record {
        width = min current_size.width display_size.width;
        height = min current_size.height display_size.height;
      }
    ] in
    let keep_width =
      ltb (u32 (content_size.height * window_size.width))
        (u32 (content_size.width * window_size.height)) in
    if content_size.width == 0 || content_size.height == 0
    then current_size
    else if is_optimal_size window_size content_size
    then window_size
    else if keep_width
    then record window_size {
      height = u16 (u32 (content_size.height * window_size.width) / content_size.width);
    }
    else record window_size {
      width = u16 (u32 (content_size.width * window_size.height) / content_size.height);
    }

unfoldable pub get_initial_optimal_size : Option Size → Size → ℕ → ℕ → Size
get_initial_optimal_size display content_size req_width req_height =
    if req_width == 0 && req_height == 0
    then get_optimal_size display content_size content_size Bool.true
    else record {
      width =
          if not (req_width == 0)
          then req_width
          else u16 (u32 (req_height * content_size.width) / content_size.height);
      height =
          if not (req_height == 0)
          then req_height
          else u16 (u32 (req_width * content_size.height) / content_size.width);
    }

-- `w - x`
abbrev pub from_end : ℕ → ℤ → ℤ
from_end w (pos n) = if leb n w then pos (w - n) else negsuc (n - w - 1)
from_end w (negsuc n) = pos (w + suc n)

-- The `switch` of `sc_screen_convert_window_to_frame_coords`.
unfoldable pub frame_point : Orientation → Size → ℤ → ℤ → Point
frame_point turn_0 size x y = record { x = x; y = y }
frame_point turn_90 size x y = record { x = y; y = from_end size.width x }
frame_point turn_180 size x y = record { x = from_end size.width x; y = from_end size.height y }
frame_point turn_270 size x y = record { x = from_end size.height y; y = x }
frame_point flip_0 size x y = record { x = from_end size.width x; y = y }
frame_point flip_90 size x y = record { x = from_end size.height y; y = from_end size.width x }
frame_point flip_180 size x y = record { x = x; y = from_end size.height y }
frame_point flip_270 size x y = record { x = y; y = x }
