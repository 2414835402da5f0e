-- ===== src/AdbParser/Returns.antt =====
-- Carriage returns at the end of a line.
use droidctl.Base.{
  ℕ, zero, suc, ◌≤◌, ◌<◌, ◌≡◌, refl, ap, sym, ◌∙◌, inl, inr, false, ◌&&◌, List, [], ◌∷◌, ◌++◌,
  length, get_or, set, get_or-set_ne, length-append, take, ◌==◌, ==_iff, eqb_ne, if◌then◌else◌,
  Bool-cases, arith,
}
use droidctl.Str.Tokens.{remove_trailing_cr}

-- A line without the carriage returns at its end.
abbrev pub without_cr : List ℕ → List ℕ
without_cr [] = []
without_cr (c ∷ line) =
    let rest = without_cr line in if length rest == 0 && c == 13 then [] else c ∷ rest

without_cr-cr : (xs : List ℕ) → without_cr (xs ++ (13 ∷ [])) ≡ without_cr xs
without_cr-cr [] = refl
without_cr-cr (x ∷ xs) = rw (without_cr-cr xs) refl

without_cr-other :
    (xs : List ℕ) (c : ℕ) → (c == 13) ≡ false → without_cr (xs ++ (c ∷ [])) ≡ xs ++ (c ∷ [])
without_cr-other [] c h = rw h refl
without_cr-other (x ∷ xs) c h =
    rw
      (
        without_cr-other xs c h,
        eqb_ne (length (xs ++ (c ∷ []))) 0
            (λ e. absurd (omega (arith, e, length-append xs (c ∷ [])))),
      )
      refl

take-suc : (s : List ℕ) (n : ℕ) → n < length s → take (suc n) s ≡ take n s ++ (get_or s n 0 ∷ [])
take-suc [] n h = absurd (omega arith)
take-suc (x ∷ s) zero h = refl
take-suc (x ∷ s) (suc n) h = ap (λ l. x ∷ l) (take-suc s n (omega arith))

-- The result depends only on the bytes of the line.
remove_trailing_cr-same :
    (n : ℕ) (s t : List ℕ)
    → ((i : ℕ) → i < n → get_or s i 0 ≡ get_or t i 0)
    → (remove_trailing_cr s n).0 ≡ (remove_trailing_cr t n).0
unfolding remove_trailing_cr
remove_trailing_cr-same zero s t same = refl
remove_trailing_cr-same (suc n) s t same = elim (Bool-cases (get_or t n 0 == 13)) [
  | inl e ↦
      rw (same n (omega arith), e)
        (remove_trailing_cr-same n (set s n 0) (set t n 0) (λ i h.
          get_or-set_ne s {i = n} {j = i} 0 0 (λ k. absurd (omega (arith, h, k)))
          ∙ same i (omega (arith, h))
          ∙ sym (get_or-set_ne t {i = n} {j = i} 0 0 (λ k. absurd (omega (arith, h, k))))))
  | inr e ↦ rw (same n (omega arith), e) refl
]

-- The code cuts the carriage returns off in place.
pub cr_lem :
    (n : ℕ) (s : List ℕ) → n ≤ length s → take (remove_trailing_cr s n).0 s ≡ without_cr (take n s)
unfolding remove_trailing_cr
cr_lem zero s h = refl
cr_lem (suc n) s h = elim (Bool-cases (get_or s n 0 == 13)) [
  | inl e ↦ rw e (
      ap (λ k. take k s)
        (remove_trailing_cr-same n (set s n 0) s
          (λ i b. get_or-set_ne s {i = n} {j = i} 0 0 (λ k. absurd (omega (arith, b, k)))))
      ∙ cr_lem n s (omega arith)
      ∙ sym (
          ap without_cr
            (take-suc s n h ∙ ap (λ c. take n s ++ (c ∷ [])) ((==_iff (get_or s n 0) 13).0 e))
          ∙ without_cr-cr (take n s)))
  | inr e ↦ rw e (
      take-suc s n h
      ∙ sym (ap without_cr (take-suc s n h) ∙ without_cr-other (take n s) (get_or s n 0) e))
]
