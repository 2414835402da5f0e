-- ===== src/Examples/Gamepads.antt =====
-- Two gamepads that are connected at the same time.
use droidctl.Base.{ℕ, ◌≡◌, refl, Option, none, some, [], length, arith}
use droidctl.Gamepad.{
  Button, Action, generate_input_from_button, get_button_id, Gamepad, report_desc, slot_find,
  slot_init, slot_get_id, init, generate_open, generate_close,
}
use droidctl.Hid.{HidOpen, HidInput}
use droidctl.Gamepad.Session.{Run, generate_close-Run, button-Run}

abbrev opened_as : ℕ → HidOpen
opened_as hid_id = record { hid_id = hid_id; report_desc = report_desc }

abbrev or_none : Option (HidOpen × Gamepad) → Gamepad
or_none none = init
or_none (some p) = p.1

abbrev one : Gamepad
one = or_none (generate_open init 7)

abbrev two : Gamepad
two = or_none (generate_open one 9)

absent : slot_find init 7 ≡ none
unfolding slot_find init
absent = refl

first_opened : generate_open init 7 ≡ some (opened_as 3, one)
unfolding slot_find init generate_open slot_init slot_get_id
first_opened = refl

second_opened : generate_open one 9 ≡ some (opened_as 4, two)
unfolding slot_find init generate_open slot_init slot_get_id
second_opened = refl

run : Run 7 one two
run = Run.connect 9 Run.start (omega arith) second_opened

generate_close-Run_example : (closed : Gamepad) × (generate_close two 7 ≡ some (3, closed))
generate_close-Run_example =
    generate_close-Run 7 init one two (opened_as 3) (omega arith) absent first_opened run

abbrev report_or_none : Option (HidInput × Gamepad) → HidInput
report_or_none none = record { hid_id = 0; size = 0; bytes = [] }
report_or_none (some p) = p.0

abbrev after_or_none : Option (HidInput × Gamepad) → Gamepad
after_or_none none = init
after_or_none (some p) = p.1

abbrev pressed : Option (HidInput × Gamepad)
pressed = generate_input_from_button two 7 Action.down Button.dpad_up

was_pressed :
    generate_input_from_button two 7 Action.down Button.dpad_up
    ≡ some (report_or_none pressed, after_or_none pressed)
unfolding slot_find init generate_open slot_init generate_input_from_button get_button_id
was_pressed = refl

button-Run_example :
    ((report_or_none pressed).hid_id ≡ 3)
    × ((report_or_none pressed).size ≡ 15)
    × (length ((report_or_none pressed).bytes) ≡ 15)
button-Run_example =
    button-Run 7 init one two (after_or_none pressed) (opened_as 3) (report_or_none pressed)
      Action.down Button.dpad_up (omega arith) absent first_opened run was_pressed
