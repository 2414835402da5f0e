-- ===== src/Cli/Shortcuts.antt =====
-- app/src/cli.c: the list of the modifiers of the shortcuts.
use droidctl.Base.{
  ℕ, zero, suc, ◌/◌, ◌≤◌, ◌<◌, ◌^◌, ◌≡◌, refl, ◌∙◌, ap, arith, some, List, [], ◌∷◌, ◌++◌, length,
  bit_or, length-append,
}
use droidctl.Base.Bits.{bit_or_step}
use native.Mathlib.Nat.{pow-suc}
use droidctl.Base.Text.{text}
use droidctl.Binary.{u8}
use droidctl.Cli.{parse_shortcut_mods_item, shortcut_loop, parse_shortcut_mods}

-- `enum sc_shortcut_mod` of app/src/options.h.
pub data ShortcutMod : Type 0 where
  lctrl rctrl lalt ralt lsuper rsuper : ShortcutMod

abbrev pub code : ShortcutMod → ℕ
code ShortcutMod.lctrl = 1
code ShortcutMod.rctrl = 2
code ShortcutMod.lalt = 4
code ShortcutMod.ralt = 8
code ShortcutMod.lsuper = 16
code ShortcutMod.rsuper = 32

abbrev pub name : ShortcutMod → List ℕ
name ShortcutMod.lctrl = text "lctrl"
name ShortcutMod.rctrl = text "rctrl"
name ShortcutMod.lalt = text "lalt"
name ShortcutMod.ralt = text "ralt"
name ShortcutMod.lsuper = text "lsuper"
name ShortcutMod.rsuper = text "rsuper"

-- Names with a comma between two.
unfoldable pub listed : ShortcutMod → List ShortcutMod → List ℕ
listed m [] = name m
listed m (n ∷ ms) = name m ++ 44 ∷ listed n ms

unfoldable pub codes : ℕ → ShortcutMod → List ShortcutMod → ℕ
codes mods m [] = bit_or mods (code m)
codes mods m (n ∷ ms) = codes (bit_or mods (code m)) n ms

loop_last :
    (fuel : ℕ) (m : ShortcutMod) (mods : ℕ)
    → shortcut_loop (suc fuel) (name m) mods ≡ some (some (u8 (bit_or mods (code m))))
unfolding shortcut_loop parse_shortcut_mods_item
loop_last fuel ShortcutMod.lctrl mods = refl
loop_last fuel ShortcutMod.rctrl mods = refl
loop_last fuel ShortcutMod.lalt mods = refl
loop_last fuel ShortcutMod.ralt mods = refl
loop_last fuel ShortcutMod.lsuper mods = refl
loop_last fuel ShortcutMod.rsuper mods = refl

loop_more :
    (fuel : ℕ) (m : ShortcutMod) (rest : List ℕ) (mods : ℕ)
    → shortcut_loop (suc fuel) (name m ++ 44 ∷ rest) mods
      ≡ shortcut_loop fuel rest (u8 (bit_or mods (code m)))
unfolding shortcut_loop parse_shortcut_mods_item
loop_more fuel ShortcutMod.lctrl rest mods = ground arith
loop_more fuel ShortcutMod.rctrl rest mods = ground arith
loop_more fuel ShortcutMod.lalt rest mods = ground arith
loop_more fuel ShortcutMod.ralt rest mods = ground arith
loop_more fuel ShortcutMod.lsuper rest mods = ground arith
loop_more fuel ShortcutMod.rsuper rest mods = ground arith

bit_or_under : (n a b : ℕ) → a < 2 ^ n → b < 2 ^ n → bit_or a b < 2 ^ n
bit_or_under zero a b ha hb = omega (arith, zeros)
  where
    zeros : bit_or a b ≡ bit_or 0 0
    zeros =
        ap (λ x. bit_or x b) {x = a} {y = 0} (omega arith)
        ∙ ap (λ x. bit_or 0 x) {x = b} {y = 0} (omega arith)
bit_or_under (suc n) a b ha hb = omega (
  arith,
  bit_or_step a b,
  pow-suc 2 n,
  bit_or_under n (a / 2) (b / 2) (omega (arith, pow-suc 2 n)) (omega (arith, pow-suc 2 n)),
)

code-under : (m : ShortcutMod) → code m < 2 ^ 8
code-under ShortcutMod.lctrl = omega arith
code-under ShortcutMod.rctrl = omega arith
code-under ShortcutMod.lalt = omega arith
code-under ShortcutMod.ralt = omega arith
code-under ShortcutMod.lsuper = omega arith
code-under ShortcutMod.rsuper = omega arith

flag_kept :
    (m : ShortcutMod) (mods : ℕ) → mods < 2 ^ 8 → u8 (bit_or mods (code m)) ≡ bit_or mods (code m)
flag_kept m mods small = omega (arith, bit_or_under 8 mods (code m) small (code-under m))

loop_codes :
    (fuel : ℕ) (m : ShortcutMod) (ms : List ShortcutMod) (mods : ℕ)
    → length ms < fuel
    → mods < 2 ^ 8
    → shortcut_loop fuel (listed m ms) mods ≡ some (some (codes mods m ms))
unfolding listed codes
loop_codes zero m ms mods enough small = ground arith
loop_codes (suc fuel) m [] mods enough small =
    loop_last fuel m mods ∙ ap (λ n. some (some n)) (flag_kept m mods small)
loop_codes (suc fuel) m (n ∷ ms) mods enough small =
    loop_more fuel m (listed n ms) mods
    ∙ (rw (flag_kept m mods small) (
        loop_codes fuel n ms (bit_or mods (code m)) (omega arith)
          (bit_or_under 8 mods (code m) small (code-under m))))

length-listed : (m : ShortcutMod) (ms : List ShortcutMod) → length ms ≤ length (listed m ms)
unfolding listed
length-listed m [] = omega arith
length-listed m (n ∷ ms) =
    omega (arith, length-append (name m) (44 ∷ listed n ms), length-listed n ms)

-- `parse_shortcut_mods` ends on the names of one modifier or more, with a comma between two, and
-- gives the flags of exactly these modifiers.
pub parse_shortcut_mods-listed :
    (m : ShortcutMod) (ms : List ShortcutMod)
    → parse_shortcut_mods (listed m ms) ≡ some (some (codes 0 m ms))
unfolding parse_shortcut_mods
parse_shortcut_mods-listed m ms =
    loop_codes _ m ms 0 (omega (arith, length-listed m ms)) (omega arith)
