-- ===== src/Cli/Bindings.antt =====
-- app/src/cli.c: the bindings of the buttons of the mouse.
use droidctl.Base.{
  ℕ, not, ◌&&◌, ◌||◌, Option, none, some, List, [], ◌∷◌, length, get_or, drop, ◌==◌, ◌≡◌, refl,
  arith, if◌then◌else◌,
}

-- `enum sc_mouse_binding` of app/src/options.h.
pub data Binding : Type 0 where
  auto disabled click back home app_switch expand_notification_panel : Binding

pub record BindingSet : Type 0 where
  pub right_click : Binding
  pub middle_click : Binding
  pub click4 : Binding
  pub click5 : Binding

pub record Bindings : Type 0 where
  pub pri : BindingSet
  pub sec : BindingSet

unfoldable pub parse_mouse_binding : ℕ → Option Binding
parse_mouse_binding c =
    if c == 43
    then some Binding.click
    else if c == 45
    then some Binding.disabled
    else if c == 98
    then some Binding.back
    else if c == 104
    then some Binding.home
    else if c == 115
    then some Binding.app_switch
    else if c == 110
    then some Binding.expand_notification_panel
    else none

-- The set, when each of the four is there.
unfoldable pub set_of : (right middle fourth fifth : Option Binding) → Option BindingSet
set_of (some right) (some middle) (some fourth) (some fifth) =
    some (record { right_click = right; middle_click = middle; click4 = fourth; click5 = fifth })
set_of _ _ _ _ = none

unfoldable pub parse_mouse_binding_set : List ℕ → Option BindingSet
parse_mouse_binding_set s =
    set_of (parse_mouse_binding (get_or s 0 0)) (parse_mouse_binding (get_or s 1 0))
      (parse_mouse_binding (get_or s 2 0)) (parse_mouse_binding (get_or s 3 0))

-- Both sets, when both are there.
unfoldable pub both : Option BindingSet → Option BindingSet → Option Bindings
both (some pri) (some sec) = some (record { pri = pri; sec = sec })
both _ _ = none

unfoldable pub parse_mouse_bindings : List ℕ → Option Bindings
parse_mouse_bindings s =
    let len = length s in
    let pri = parse_mouse_binding_set s in
    if not (len == 4) && (not (len == 9) || not (get_or s 4 0 == 58))
    then none
    else if len == 9
    then both pri (parse_mouse_binding_set (drop 5 s))
    else both pri pri

-- The character of a binding; the default has none.
unfoldable pub letter : Binding → Option ℕ
letter Binding.auto = none
letter Binding.disabled = some 45
letter Binding.click = some 43
letter Binding.back = some 98
letter Binding.home = some 104
letter Binding.app_switch = some 115
letter Binding.expand_notification_panel = some 110

-- The characters are those of the bindings of the set.
abbrev pub Spells : BindingSet → (right middle fourth fifth : ℕ) → Type 0
Spells bindings right middle fourth fifth =
    (letter bindings.right_click ≡ some right)
    × (letter bindings.middle_click ≡ some middle)
    × (letter bindings.click4 ≡ some fourth)
    × (letter bindings.click5 ≡ some fifth)

parse_mouse_binding-letter :
    (binding : Binding) (c : ℕ) → letter binding ≡ some c → parse_mouse_binding c ≡ some binding
unfolding letter parse_mouse_binding
parse_mouse_binding-letter Binding.auto c h = ground arith
parse_mouse_binding-letter Binding.disabled c h = ground arith
parse_mouse_binding-letter Binding.click c h = ground arith
parse_mouse_binding-letter Binding.back c h = ground arith
parse_mouse_binding-letter Binding.home c h = ground arith
parse_mouse_binding-letter Binding.app_switch c h = ground arith
parse_mouse_binding-letter Binding.expand_notification_panel c h = ground arith

parse_mouse_binding_set-Spells :
    (bindings : BindingSet) (right middle fourth fifth : ℕ) (rest : List ℕ)
    → Spells bindings right middle fourth fifth
    → parse_mouse_binding_set (right ∷ middle ∷ fourth ∷ fifth ∷ rest) ≡ some bindings
unfolding parse_mouse_binding_set set_of
parse_mouse_binding_set-Spells bindings right middle fourth fifth rest (h0, h1, h2, h3) =
    rw
      (
        parse_mouse_binding_set,
        parse_mouse_binding-letter bindings.right_click right h0,
        parse_mouse_binding-letter bindings.middle_click middle h1,
        parse_mouse_binding-letter bindings.click4 fourth h2,
        parse_mouse_binding-letter bindings.click5 fifth h3,
      )
      refl

-- Two sets of bindings, spelled with a colon between them, are read as these.
pub parse_mouse_bindings_two :
    (pri sec : BindingSet) (a b c d e f g h : ℕ)
    → Spells pri a b c d
    → Spells sec e f g h
    → parse_mouse_bindings (a ∷ b ∷ c ∷ d ∷ 58 ∷ e ∷ f ∷ g ∷ h ∷ [])
      ≡ some (record { pri = pri; sec = sec })
unfolding parse_mouse_bindings both
parse_mouse_bindings_two pri sec a b c d e f g h first second =
    rw
      (
        parse_mouse_bindings,
        parse_mouse_binding_set-Spells pri a b c d (58 ∷ e ∷ f ∷ g ∷ h ∷ []) first,
        parse_mouse_binding_set-Spells sec e f g h [] second,
      )
      refl

-- One set is read as the bindings with Shift as well.
pub parse_mouse_bindings_one :
    (pri : BindingSet) (a b c d : ℕ)
    → Spells pri a b c d
    → parse_mouse_bindings (a ∷ b ∷ c ∷ d ∷ []) ≡ some (record { pri = pri; sec = pri })
unfolding parse_mouse_bindings both
parse_mouse_bindings_one pri a b c d first =
    rw (parse_mouse_bindings, parse_mouse_binding_set-Spells pri a b c d [] first) refl
