-- ===== src/Gamepad/Slots.antt =====
-- The slots of the gamepads: a gamepad keeps its HID id for as long as it is connected.
use droidctl.Base.{
  ℕ, zero, suc, ◌<◌, ◌≡◌, ◌≢◌, refl, ap, sym, ◌∙◌, inl, inr, Option, none, some, Option-cases,
}
use droidctl.Base.{[], ◌∷◌, length, get_or, set, ==_iff, eqb_ne, arith}
use droidctl.Gamepad.{Gamepad, Slot, unset, slot_find}
use native.Mathlib.Decide.{ℕ_discrete}
use mathlib.Core.Option.{none-ne-some, some-injective}

abbrev shifted : Option ℕ → Option ℕ
shifted none = none
shifted (some i) = some (suc i)

found_here :
    (s : Slot) (slots : Gamepad) (id : ℕ) → id ≡ s.gamepad_id → slot_find (s ∷ slots) id ≡ some 0
unfolding slot_find
found_here s slots id e = rw (slot_find, (==_iff id s.gamepad_id).1 e) refl

found_later :
    (s : Slot) (slots : Gamepad) (id : ℕ)
    → id ≢ s.gamepad_id
    → slot_find (s ∷ slots) id ≡ shifted (slot_find slots id)
unfolding slot_find
found_later s slots id ne = rw (slot_find, eqb_ne id s.gamepad_id ne) (by_rest (slot_find slots id))
  where
    by_rest : (o : Option ℕ) → elim o [ none ↦ none | some i ↦ some (suc i) ] ≡ shifted o
    by_rest none = refl
    by_rest (some i) = refl

-- The slot that is found has the id.
pub slot_find_lem :
    (slots : Gamepad) (id i : ℕ)
    → slot_find slots id ≡ some i
    → ((get_or slots i unset).gamepad_id ≡ id) × i < length slots
unfolding slot_find
slot_find_lem [] id i e = absurd (none-ne-some i e)
slot_find_lem (s ∷ slots) id i e = elim (ℕ_discrete id s.gamepad_id) [
  | yes here ↦
      let first : 0 ≡ i = some-injective 0 i (sym (found_here s slots id here) ∙ e) in
      rw (sym first) (sym here, omega arith)
  | no later ↦ elim (Option-cases (slot_find slots id)) [
    | inl nowhere ↦
        absurd (none-ne-some i (sym (found_later s slots id later ∙ ap shifted nowhere) ∙ e))
    | inr (j, found) ↦
        let next : suc j ≡ i =
          some-injective (suc j) i (sym (found_later s slots id later ∙ ap shifted found) ∙ e) in
        let (same, inside) = slot_find_lem slots id j found in
        rw (sym next) (same, omega (arith, inside))
  ]
]

-- A slot that neither had the id nor gets it does not matter.
pub slot_find-set_other :
    (slots : Gamepad) (i : ℕ) (s : Slot) (id : ℕ)
    → id ≢ (get_or slots i unset).gamepad_id
    → id ≢ s.gamepad_id
    → slot_find (set slots i s) id ≡ slot_find slots id
slot_find-set_other [] i s id was is = refl
slot_find-set_other (x ∷ slots) zero s id was is =
    found_later s slots id is ∙ sym (found_later x slots id was)
slot_find-set_other (x ∷ slots) (suc i) s id was is = elim (ℕ_discrete id x.gamepad_id) [
  | yes here ↦ found_here x (set slots i s) id here ∙ sym (found_here x slots id here)
  | no later ↦
      found_later x (set slots i s) id later
      ∙ ap shifted (slot_find-set_other slots i s id was is)
      ∙ sym (found_later x slots id later)
]

-- Nor does a slot that keeps its id.
pub slot_find-set_same :
    (slots : Gamepad) (i : ℕ) (s : Slot) (id : ℕ)
    → s.gamepad_id ≡ (get_or slots i unset).gamepad_id
    → slot_find (set slots i s) id ≡ slot_find slots id
slot_find-set_same [] i s id same = refl
slot_find-set_same (x ∷ slots) zero s id same = elim (ℕ_discrete id x.gamepad_id) [
  | yes here ↦ found_here s slots id (here ∙ sym same) ∙ sym (found_here x slots id here)
  | no later ↦ found_later s slots id (λ e. later (e ∙ same)) ∙ sym (found_later x slots id later)
]
slot_find-set_same (x ∷ slots) (suc i) s id same = elim (ℕ_discrete id x.gamepad_id) [
  | yes here ↦ found_here x (set slots i s) id here ∙ sym (found_here x slots id here)
  | no later ↦
      found_later x (set slots i s) id later
      ∙ ap shifted (slot_find-set_same slots i s id same)
      ∙ sym (found_later x slots id later)
]

-- A slot that gets an id that no slot had is the one found.
pub slot_find-set_new :
    (slots : Gamepad) (i : ℕ) (s : Slot) (id : ℕ)
    → slot_find slots id ≡ none
    → i < length slots
    → id ≡ s.gamepad_id
    → slot_find (set slots i s) id ≡ some i
slot_find-set_new [] i s id absent inside is = absurd (omega arith)
slot_find-set_new (x ∷ slots) zero s id absent inside is = found_here s slots id is
slot_find-set_new (x ∷ slots) (suc i) s id absent inside is = elim (ℕ_discrete id x.gamepad_id) [
  | yes here ↦ absurd (none-ne-some 0 (sym absent ∙ found_here x slots id here))
  | no later ↦
      found_later x (set slots i s) id later
      ∙ ap shifted (
          slot_find-set_new slots i s id
            (absent_later (slot_find slots id) (sym (found_later x slots id later) ∙ absent))
            (omega arith) is)
]
  where
    absent_later : (o : Option ℕ) → shifted o ≡ none → o ≡ none
    absent_later none e = refl
    absent_later (some j) e = absurd (none-ne-some (suc j) (sym e))
