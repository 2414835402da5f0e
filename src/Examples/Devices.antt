-- ===== src/Examples/Devices.antt =====
-- The keyboard, the mouse and the orientations.
use droidctl.Base.{
  ℕ, ◌<◌, ◌≡◌, refl, arith, not, ◌&&◌, none, some, List, [], ◌∷◌, leb, if◌then◌else◌,
}
use droidctl.Base.Int.{pos, negsuc}
use droidctl.Orientation.{Orientation, code, is_swap, apply}
use droidctl.Orientation.Square.{Pixel, place, place-apply, place-bounds}
use droidctl.Keyboard.{
  Sdl, Action, keyboard_keys, input_with, mod_from_sdl_keymod, scancode_is_modifier,
  generate_input_from_key,
}
use droidctl.Keyboard.Keys.{six_keys}
use droidctl.Keyboard.Session.{Event, held, select, run, report, generate_input_from_key-held}
use droidctl.Mouse.{Buttons, generate_input_from_motion}
use droidctl.Mouse.Motion.{read-generate_input_from_motion}
use droidctl.Mouse.Motion as motion

abbrev pub sdl : Sdl
sdl = record {
  mod_lctrl = 0x40;
  mod_lshift = 0x01;
  mod_lalt = 0x100;
  mod_lgui = 0x400;
  mod_rctrl = 0x80;
  mod_rshift = 0x02;
  mod_ralt = 0x200;
  mod_rgui = 0x800;
  mod_caps = 0x2000;
  mod_num = 0x1000;
  scancode_lctrl = 224;
  scancode_rgui = 231;
  scancode_capslock = 57;
  scancode_numlock = 83;
}

abbrev key : ℕ → Action → Event
key scancode action = record { scancode = scancode; action = action; mods_state = 0x01 }

-- The key 4 goes down, then 5, then 4 goes up; then 7 goes down.
abbrev earlier : List Event
earlier = key 4 Action.up ∷ key 5 Action.down ∷ key 4 Action.down ∷ []

generate_input_from_key-held_example :
    report (generate_input_from_key sdl (run sdl earlier) 7 Action.down 0x01) ≡ (
      if leb keyboard_keys 7 && not (scancode_is_modifier sdl 7)
      then none
      else some (
          input_with
            (mod_from_sdl_keymod sdl 0x01)
            (six_keys (select 0 keyboard_keys (held (key 7 Action.down ∷ earlier))))))
generate_input_from_key-held_example = generate_input_from_key-held sdl earlier (key 7 Action.down)

two_keys :
    report (generate_input_from_key sdl (run sdl earlier) 7 Action.down 0x01)
    ≡ some (input_with 2 (5 ∷ 7 ∷ 0 ∷ 0 ∷ 0 ∷ 0 ∷ []))
unfolding generate_input_from_key mod_from_sdl_keymod droidctl.Keyboard.fill_keys
    droidctl.Keyboard.init
two_keys = refl

abbrev buttons : Buttons
buttons = record {
  button_left = 1;
  button_right = 4;
  button_middle = 2;
  button_x1 = 8;
  button_x2 = 16;
}

read-generate_input_from_motion_example :
    motion.read (generate_input_from_motion buttons 5 (pos 300) (negsuc 3)).bytes
    ≡ some record {
      buttons = motion.held buttons 5;
      x = motion.nearest (pos 300);
      y = motion.nearest (negsuc 3);
      wheel = pos 0;
      pan = pos 0;
    }
read-generate_input_from_motion_example =
    read-generate_input_from_motion buttons 5 (pos 300) (negsuc 3)

-- A pixel of an image of 10 times 20.
abbrev pixel : Pixel
pixel = record { width = 10; height = 20; x = 3; y = 4 }

place-apply_example :
    place (apply (code Orientation.flip_90) (code Orientation.turn_270)) pixel
    ≡ place (code Orientation.turn_270) (place (code Orientation.flip_90) pixel)
place-apply_example =
    place-apply Orientation.flip_90 Orientation.turn_270 pixel (omega arith) (omega arith)

turned_pixel_bounds :
    let q = place (code Orientation.turn_90) pixel in
    (q.width ≡ (if is_swap (code Orientation.turn_90) then 20 else 10))
    × (q.height ≡ (if is_swap (code Orientation.turn_90) then 10 else 20))
    × (q.x < q.width)
    × (q.y < q.height)
turned_pixel_bounds = place-bounds Orientation.turn_90 pixel (omega arith) (omega arith)
