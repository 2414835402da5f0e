-- ===== src/AdbParser/States.antt =====
-- The words for the state of a device.
use droidctl.Base.{
  ℕ, ◌≡◌, refl, ap, ap₂, sym, ◌∙◌, inl, inr, Bool, true, false, not, ◌&&◌, ◌||◌, List, [], ◌∷◌,
  ◌==◌, ==_iff, true≢false, Bool-cases, arith,
}
use droidctl.Base.Text.{text, same_text, starts_with}
use mathlib.Core.Path.{subst}
use droidctl.AdbParser.{is_blank, is_device_state}
use droidctl.AdbParser.Tokens.{IsToken}

-- A word of a state is no model.
pub state_no_model :
    (token : List ℕ) → is_device_state token ≡ true → starts_with (text "model:") token ≡ false
unfolding is_device_state
state_no_model [] h = refl
state_no_model (c ∷ token) h = elim (Bool-cases (109 == c)) [
  | inl e ↦ absurd (
      true≢false (
        sym h ∙ ap (λ d. is_device_state (d ∷ token)) {x = c} {y = 109} (sym ((==_iff 109 c).0 e))))
  | inr e ↦ rw e refl
]

either : {P : Type 0} (a b : Bool) → (a ≡ true → P) → (b ≡ true → P) → (a || b) ≡ true → P
either true b f g h = f refl
either false b f g h = g h

same_text-eq : (a b : List ℕ) → same_text a b ≡ true → a ≡ b
same_text-eq [] [] h = refl
same_text-eq [] (y ∷ ys) h = absurd (true≢false (sym h))
same_text-eq (x ∷ xs) [] h = absurd (true≢false (sym h))
same_text-eq (x ∷ xs) (y ∷ ys) h = elim (Bool-cases (x == y)) [
  | inl e ↦ ap₂ (λ a l. a ∷ l) ((==_iff x y).0 e) (same_text-eq xs ys (rw e at h))
  | inr e ↦ absurd (true≢false (sym h ∙ rw e refl))
]

abbrev pub no_blank : List ℕ → Bool
no_blank [] = false
no_blank (c ∷ []) = not (is_blank c)
no_blank (c ∷ d ∷ w) = not (is_blank c) && no_blank (d ∷ w)

not-true : (b : Bool) → not b ≡ true → b ≡ false
not-true true h = absurd (true≢false (sym h))
not-true false h = refl

pub no_blank-IsToken : (w : List ℕ) → no_blank w ≡ true → IsToken w
no_blank-IsToken [] h = absurd (true≢false (sym h))
no_blank-IsToken (c ∷ []) h = ((not-true _ h, tt), omega arith)
no_blank-IsToken (c ∷ d ∷ w) h = elim (Bool-cases (is_blank c)) [
  | inl e ↦ absurd (true≢false (sym h ∙ rw e refl))
  | inr e ↦ ((e, (no_blank-IsToken (d ∷ w) (rw e at h)).0), omega arith)
]

-- A state is a word.
pub state-IsToken : (state : List ℕ) → is_device_state state ≡ true → IsToken state
unfolding is_device_state
state-IsToken state h =
    either _ _
      (either _ _
        (either _ _
          (either _ _
            (either _ _
              (either _ _
                (either _ _
                  (either _ _
                    (either _ _
                      (either _ _ (word (text "device") refl) (word (text "unauthorized") refl))
                      (word (text "offline") refl))
                    (word (text "bootloader") refl))
                  (word (text "host") refl))
                (word (text "recovery") refl))
              (word (text "rescue") refl))
            (word (text "sideload") refl))
          (word (text "authorizing") refl))
        (word (text "connecting") refl))
      (word (text "detached") refl) h
  where
    word : (w : List ℕ) → no_blank w ≡ true → same_text state w ≡ true → IsToken state
    word w t same = subst IsToken (sym (same_text-eq state w same)) (no_blank-IsToken w t)
