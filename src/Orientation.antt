-- ===== src/Orientation.antt =====
-- app/src/options.{h,c}: the orientations of an image, a flip and then a clockwise rotation.
pub mod Square
use droidctl.Base.{ℕ, ◌+◌, ◌%◌, Bool, not, ◌&&◌, ◌==◌, if◌then◌else◌, bit_and, bit_or, bit_xor}

-- `enum sc_orientation`
pub data Orientation : Type 0 where
  turn_0 turn_90 turn_180 turn_270 flip_0 flip_90 flip_180 flip_270 : Orientation

abbrev pub code : Orientation → ℕ
code Orientation.turn_0 = 0
code Orientation.turn_90 = 1
code Orientation.turn_180 = 2
code Orientation.turn_270 = 3
code Orientation.flip_0 = 4
code Orientation.flip_90 = 5
code Orientation.flip_180 = 6
code Orientation.flip_270 = 7

abbrev pub is_mirror : ℕ → Bool
is_mirror orientation = not (bit_and orientation 4 == 0)

abbrev pub is_swap : ℕ → Bool
is_swap orientation = not (bit_and orientation 1 == 0)

abbrev pub get_rotation : ℕ → ℕ
get_rotation orientation = bit_and orientation 3

-- `sc_orientation_apply`, on the numbers of the enumeration.
unfoldable pub apply : ℕ → ℕ → ℕ
apply src transform =
    let transform_hflip = bit_and transform 4 in
    let transform_rotation = bit_and transform 3 in
    let src_hflip = bit_and src 4 in
    let src_rotation = bit_and src 3 in
    let src_swap = bit_and src 1 in
    let src_rotation =
      if not (src_swap == 0) && not (transform_hflip == 0)
      then src_rotation + 2
      else src_rotation in
    let result_hflip = bit_xor src_hflip transform_hflip in
    let result_rotation = (transform_rotation + src_rotation) % 4 in
    bit_or result_hflip result_rotation
