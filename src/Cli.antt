-- ===== src/Cli.antt =====
-- app/src/cli.c: the parsers of the values of some options. A failure is `none`; the text is
-- what stands before the terminator.
pub mod Colors
pub mod Bindings
pub mod Shortcuts
use droidctl.Base.{
  ℕ, zero, suc, ◌+◌, ◌-◌, ◌*◌, Bool, not, ◌&&◌, ◌||◌, Option, none, some, List, [], ◌∷◌, length,
  get_or, take, drop, leb, ◌==◌, if◌then◌else◌, bit_or,
}
use droidctl.Base.Text.{text, same_text}
use droidctl.Binary.{u8}
use droidctl.Str.Tokens.{strcspn}

-- 0 when the item is no modifier.
unfoldable pub parse_shortcut_mods_item : List ℕ → ℕ
parse_shortcut_mods_item item =
    if same_text (text "lctrl") item
    then 1
    else if same_text (text "rctrl") item
    then 2
    else if same_text (text "lalt") item
    then 4
    else if same_text (text "ralt") item
    then 8
    else if same_text (text "lsuper") item
    then 16
    else if same_text (text "rsuper") item
    then 32
    else 0

-- The loop of `parse_shortcut_mods`: the outer `none` is a loop that is still running. Each round
-- but the last goes past a comma. The assertion that no item before a comma is empty is left out;
-- without it such an item is no modifier.
unfoldable pub shortcut_loop : ℕ → List ℕ → ℕ → Option (Option ℕ)
shortcut_loop zero s mods = none
shortcut_loop (suc fuel) s mods =
    let limit = strcspn (λ c. c == 44) s in
    let mod_ = parse_shortcut_mods_item (take limit s) in
    let mods' = u8 (bit_or mods mod_) in
    let next = shortcut_loop fuel (drop (limit + 1) s) mods' in
    if mod_ == 0 then some none else if leb (length s) limit then some (some mods') else next

unfoldable pub parse_shortcut_mods : List ℕ → Option (Option ℕ)
parse_shortcut_mods s = shortcut_loop (suc (length s)) s 0

unfoldable pub parse_hex_char : ℕ → Option ℕ
parse_hex_char c =
    if leb 48 c && leb c 57
    then some (c - 48)
    else if leb 97 c && leb c 102
    then some (c - 97 + 10)
    else if leb 65 c && leb c 70
    then some (c - 65 + 10)
    else none

-- `left << 4 | right`
unfoldable pub hex_pair : Option ℕ → Option ℕ → Option ℕ
hex_pair (some left) (some right) = some (u8 (bit_or (left * 16) right))
hex_pair _ _ = none

unfoldable pub parse_hex_byte : List ℕ → Option ℕ
parse_hex_byte s = hex_pair (parse_hex_char (get_or s 0 0)) (parse_hex_char (get_or s 1 0))

-- `rgb[i] *= 0x11`
unfoldable pub doubled : Option ℕ → Option ℕ
doubled (some value) = some (u8 (value * 0x11))
doubled none = none

-- `rgb[0] << 16 | rgb[1] << 8 | rgb[2]`
unfoldable pub color_of : Option ℕ → Option ℕ → Option ℕ → Option ℕ
color_of (some r) (some g) (some b) = some (bit_or (bit_or (r * 65536) (g * 256)) b)
color_of _ _ _ = none

-- The text behind a `#`.
unfoldable pub parse_hex_digits : List ℕ → Option ℕ
parse_hex_digits s =
    if not (length s == 3) && not (length s == 6)
    then none
    else if length s == 3
    then color_of (doubled (parse_hex_char (get_or s 0 0)))
        (doubled (parse_hex_char (get_or s 1 0))) (doubled (parse_hex_char (get_or s 2 0)))
    else color_of (parse_hex_byte s) (parse_hex_byte (drop 2 s)) (parse_hex_byte (drop 4 s))

unfoldable pub parse_hex_color : List ℕ → Option ℕ
parse_hex_color s = parse_hex_digits (if get_or s 0 0 == 35 then drop 1 s else s)
