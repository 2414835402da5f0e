-- ===== src/Str/Listed.antt =====
-- Which texts `sc_str_list_contains` finds in a list.
use droidctl.Base.{
  ℕ, suc, ◌+◌, ◌≡◌, refl, ap, ap₂, sym, ◌∙◌, inl, inr, Bool, false, true, ◌||◌, ◌&&◌, List, [], ◌∷◌,
  length, take, drop, leb, ◌==◌, if◌then◌else◌, Bool-cases, arith,
}
use droidctl.Base.Text.{starts_with, same_text}
use droidctl.Str.Tokens.{strcspn}

abbrev cons_first : ℕ → List (List ℕ) → List (List ℕ)
cons_first c [] = (c ∷ []) ∷ []
cons_first c (token ∷ tokens) = (c ∷ token) ∷ tokens

-- The tokens of a text.
abbrev pub split : ℕ → List ℕ → List (List ℕ)
split sep [] = [] ∷ []
split sep (c ∷ s) = let rest = split sep s in if c == sep then [] ∷ rest else cons_first c rest

abbrev any_start : List (List ℕ) → List ℕ → Bool
any_start [] s = false
any_start (token ∷ tokens) s = starts_with token s || any_start tokens s

-- The text is one of the tokens.
abbrev pub is_token : List (List ℕ) → List ℕ → Bool
is_token [] s = false
is_token (token ∷ tokens) s = same_text token s || is_token tokens s

-- The text goes on behind `token`.
abbrev pub goes_on : List ℕ → List ℕ → Bool
goes_on [] [] = false
goes_on [] (y ∷ ys) = true
goes_on (x ∷ xs) [] = false
goes_on (x ∷ xs) (y ∷ ys) = x == y && goes_on xs ys

-- One of the tokens is a proper beginning of the text.
abbrev pub goes_on_behind : List (List ℕ) → List ℕ → Bool
goes_on_behind [] s = false
goes_on_behind (token ∷ tokens) s = goes_on token s || goes_on_behind tokens s

leb_zero : (n : ℕ) → leb (suc n) 0 ≡ false
leb_zero n = ground arith

leb-suc : (m n : ℕ) → leb (suc m) (suc n) ≡ leb m n
leb-suc m n = ground arith

-- The code's view of the text: the token before the first separator, and what is behind it.
pub split-strcspn :
    (sep : ℕ) (list : List ℕ)
    → split sep list
      ≡ take (strcspn (λ c. c == sep) list) list
        ∷ (if leb (length list) (strcspn (λ c. c == sep) list)
            then []
            else split sep (drop (strcspn (λ c. c == sep) list + 1) list))
split-strcspn sep [] = refl
split-strcspn sep (c ∷ s) = elim (Bool-cases (c == sep)) [
  | inl e ↦ rw (e, leb_zero (length s)) refl
  | inr e ↦ rw e (
      ap (cons_first c) (split-strcspn sep s)
      ∙ ap₂
          (λ b rest. (c ∷ take (strcspn (λ d. d == sep) s) s) ∷ (if b then [] else split sep rest))
          (sym (leb-suc (length s) (strcspn (λ d. d == sep) s)))
          (ap (λ k. drop k (c ∷ s)) {x = suc (strcspn (λ d. d == sep) s + 1)} (omega arith)))
]
