-- ===== src/AdbParser/FirstLine.antt =====
-- The first line of the output.
use droidctl.Base.{
  ℕ, ◌≤◌, ◌≡◌, refl, ap, sym, inl, inr, Bool, true, false, true≢false, not, ◌&&◌, List, [], ◌∷◌,
  length, take, ◌==◌, Bool-cases, arith,
}
use droidctl.Base.Text.{starts_with}
use droidctl.Str.Tokens.{strcspn}

pub strcspn-length : (seps : ℕ → Bool) (s : List ℕ) → strcspn seps s ≤ length s
strcspn-length seps [] = omega arith
strcspn-length seps (c ∷ s) = elim (Bool-cases (seps c)) [
  | inl e ↦ rw e (omega arith)
  | inr e ↦ rw e (omega (arith, strcspn-length seps s))
]

and_right : (a b : Bool) → (a && b) ≡ true → b ≡ true
and_right true b h = h
and_right false b h = absurd (true≢false (sym h))

and_left : (a b : Bool) → (not a && b) ≡ true → a ≡ false
and_left true b h = absurd (true≢false (sym h))
and_left false b h = refl

differs : (x c : ℕ) → (x == 10) ≡ false → (c == 10) ≡ true → (x == c) ≡ false
differs x c h e = ground arith

-- No line feed in a text.
abbrev one_line : List ℕ → Bool
one_line [] = true
one_line (c ∷ w) = not (c == 10) && one_line w

-- A text without a line feed starts the output when it starts its first line.
pub starts_with-line :
    (w s : List ℕ)
    → one_line w ≡ true
    → starts_with w s ≡ starts_with w (take (strcspn (λ c. c == 10) s) s)
starts_with-line [] s h = refl
starts_with-line (x ∷ w) [] h = refl
starts_with-line (x ∷ w) (c ∷ s) h = elim (Bool-cases (c == 10)) [
  | inl e ↦ rw e (feed_lem e)
  | inr e ↦ rw e (ap (λ b. x == c && b) (starts_with-line w s (rest_line h)))
]
  where
    feed_lem : (c == 10) ≡ true → (x == c && starts_with w s) ≡ false
    feed_lem e = ap (λ b. b && starts_with w s) (differs x c (and_left (x == 10) (one_line w) h) e)

    rest_line : (not (x == 10) && one_line w) ≡ true → one_line w ≡ true
    rest_line h = and_right (not (x == 10)) (one_line w) h
