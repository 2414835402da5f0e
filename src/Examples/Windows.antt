-- ===== src/Examples/Windows.antt =====
-- Sizes and points of the window.
use droidctl.Base.{◌≡◌, arith, true, some}
use droidctl.Base.Int.{pos, negsuc}
use droidctl.Orientation.{Orientation, code}
use droidctl.Screen.{Size, Point, get_optimal_size, get_oriented_size, frame_point}
use droidctl.Screen.Points.{shown, frame_point-shown}
use droidctl.Screen.Sizes.{Fits, limited, bounds_of, get_optimal_size-Fits}

abbrev phone : Size
phone = record { width = 1080; height = 2400 }

abbrev display : Size
display = record { width = 1920; height = 1080 }

get_optimal_size-Fits_example :
    Fits
      (get_optimal_size (some display) phone phone true)
      (limited (bounds_of (some display) true) phone)
      phone
get_optimal_size-Fits_example =
    get_optimal_size-Fits (some display) phone phone true (omega arith, omega arith)
      (omega arith, omega arith) (omega arith) (omega arith)

abbrev point : Point
point = record { x = pos 100; y = negsuc 4 }

frame_point-shown_example :
    ((shown (code Orientation.flip_90) (record { size = phone; at = point })).size
      ≡ get_oriented_size phone (code Orientation.flip_90))
    × (frame_point Orientation.flip_90
          (get_oriented_size phone (code Orientation.flip_90))
          (shown (code Orientation.flip_90) (record { size = phone; at = point })).at.x
          (shown (code Orientation.flip_90) (record { size = phone; at = point })).at.y
        ≡ point)
frame_point-shown_example = frame_point-shown Orientation.flip_90 phone point
