-- ===== src/Examples/Options.antt =====
-- Values of options.
use droidctl.Base.{◌≡◌, refl, arith, true, false, some, [], ◌∷◌, ◌++◌}
use droidctl.Base.Text.{text}
use droidctl.Cli.{parse_shortcut_mods, parse_hex_color}
use droidctl.Cli.Colors.{hash, color_digits, parse_hex_color-digits}
use droidctl.Cli.Shortcuts.{ShortcutMod, listed, parse_shortcut_mods-listed}

parse_shortcut_mods-listed_example :
    parse_shortcut_mods (listed ShortcutMod.lctrl (ShortcutMod.rsuper ∷ [])) ≡ some (some 33)
unfolding droidctl.Cli.Shortcuts.codes
parse_shortcut_mods-listed_example =
    parse_shortcut_mods-listed ShortcutMod.lctrl (ShortcutMod.rsuper ∷ [])

lctrl_rsuper : listed ShortcutMod.lctrl (ShortcutMod.rsuper ∷ []) ≡ text "lctrl,rsuper"
unfolding listed
lctrl_rsuper = refl

parse_hex_color-digits_example :
    parse_hex_color (hash true ++ color_digits false 255 128 0) ≡ some 0xff8000
parse_hex_color-digits_example =
    parse_hex_color-digits true false 255 128 0 (omega arith) (omega arith) (omega arith)

orange : hash true ++ color_digits false 255 128 0 ≡ text "#ff8000"
unfolding color_digits droidctl.Cli.Colors.digit
orange = refl
