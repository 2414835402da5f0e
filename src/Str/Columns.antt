-- ===== src/Str/Columns.antt =====
-- The columns of a line, and the index that `sc_str_index_of_column` finds.
use droidctl.Base.{
  ℕ, zero, suc, ◌+◌, ◌-◌, ◌≤◌, ◌<◌, ◌≡◌, ◌≢◌, refl, ap, ap₂, sym, ◌∙◌, inl, inr, Bool, true, false,
  ◌||◌, Option, none, some, List, [], ◌∷◌, length, drop, drop-drop, length-drop, get_elem?, leb,
  leb→le, leb_false→gt, ◌==◌, ==_iff, eqb_ne, if◌then◌else◌, Bool-cases, arith,
}
use droidctl.Str.Tokens.{strcspn, strspn, column_loop, index_of_column}
use native.Mathlib.Decide.{ℕ_discrete}

module _ (seps : ℕ → Bool) where
  -- Where the columns start in the rest of a line from index `i` on: at a character that is no
  -- separator behind one that is.
  abbrev pub later : Bool → List ℕ → ℕ → List ℕ
  later after_sep [] i = []
  later after_sep (c ∷ s) i =
      let behind = later (seps c) s (i + 1) in
      if seps c then behind else if after_sep then i ∷ behind else behind

  -- The first column starts at 0.
  abbrev pub columns : List ℕ → List ℕ
  columns s = 0 ∷ later false s 0

  -- Past the rest of a word.
  later-strcspn :
      (s : List ℕ) (i : ℕ)
      → later false s i ≡ later false (drop (strcspn seps s) s) (i + strcspn seps s)
  later-strcspn [] i = refl
  later-strcspn (c ∷ s) i = elim (Bool-cases (seps c)) [
    | inl e ↦ rw e (rw e (ap (λ k. later true s (k + 1)) {x = i} {y = i + 0} (omega arith)))
    | inr e ↦ rw e (
        later-strcspn s (i + 1)
        ∙ ap (λ k. later false (drop (strcspn seps s) s) k) {y = i + suc (strcspn seps s)}
            (omega arith))
  ]

  -- A column starts behind separators, unless the line ends there.
  abbrev from_start : List ℕ → ℕ → List ℕ
  from_start [] i = []
  from_start (c ∷ s) i = i ∷ later false (c ∷ s) i

  later-strspn :
      (s : List ℕ) (i : ℕ)
      → later true s i ≡ from_start (drop (strspn seps s) s) (i + strspn seps s)
  later-strspn [] i = refl
  later-strspn (c ∷ s) i = elim (Bool-cases (seps c)) [
    | inl e ↦ rw e (
        later-strspn s (i + 1)
        ∙ ap (from_start (drop (strspn seps s) s)) {y = i + suc (strspn seps s)} (omega arith))
    | inr e ↦ rw e (
        ap₂ (λ k l. k ∷ l) {x = i} {y = i + 0} (omega arith)
          (rw e (ap (λ k. later false s (k + 1)) {x = i} {y = i + 0} (omega arith))))
  ]

  -- What `strcspn` leaves starts with a separator.
  past_word :
      (s : List ℕ) (i : ℕ)
      → later false (drop (strcspn seps s) s) i ≡ later true (drop (strcspn seps s) s) i
  past_word [] i = refl
  past_word (c ∷ s) i = elim (Bool-cases (seps c)) [
    | inl e ↦ rw e (rw e refl)
    | inr e ↦ rw e (past_word s i)
  ]

  -- What is left of the line behind the word and the separators at its start, with the index.
  module _ (s : List ℕ) (idx : ℕ) where
    abbrev behind_word : ℕ
    behind_word = idx + strcspn seps (drop idx s)

    abbrev next_start : ℕ
    next_start = behind_word + strspn seps (drop behind_word s)

    later-next_start : later false (drop idx s) idx ≡ from_start (drop next_start s) next_start
    later-next_start =
        later-strcspn (drop idx s) idx
        ∙ past_word (drop idx s) behind_word
        ∙ ap (λ l. later true l behind_word) (drop-drop idx (strcspn seps (drop idx s)) s)
        ∙ later-strspn (drop behind_word s) behind_word
        ∙ ap (λ l. from_start l next_start)
            (drop-drop behind_word (strspn seps (drop behind_word s)) s)

  -- The columns from the index on, when it is at the start of one or at the end.
  abbrev rest_of : List ℕ → ℕ → ℕ → ℕ → Option ℕ
  rest_of s idx colidx col =
      if col == colidx
      then some idx
      else get_elem? (later false (drop idx s) idx) (col - colidx - 1)

  end_of : (s : List ℕ) (idx : ℕ) → length s ≤ idx → drop idx s ≡ []
  end_of [] zero h = refl
  end_of [] (suc idx) h = refl
  end_of (c ∷ s) zero h = absurd (omega arith)
  end_of (c ∷ s) (suc idx) h = end_of s idx (omega arith)

  from_start_more : (l : List ℕ) (i : ℕ) → 0 < length l → from_start l i ≡ i ∷ later false l i
  from_start_more [] i h = absurd (omega arith)
  from_start_more (c ∷ l) i h = refl

  -- Something is skipped, unless the word is the last.
  skipped : (l : List ℕ) → strcspn seps l < length l → 0 < strspn seps (drop (strcspn seps l) l)
  skipped [] h = absurd (omega arith)
  skipped (c ∷ l) h = elim (Bool-cases (seps c)) [
    | inl e ↦ rw e (rw e (omega arith))
    | inr e ↦ rw e (skipped l (omega (arith, shorter e)))
  ]
    where
      shorter : seps c ≡ false → strcspn seps (c ∷ l) ≡ suc (strcspn seps l)
      shorter e = rw e refl

  none_later :
      (s : List ℕ) (idx : ℕ) → length s ≤ behind_word s idx → later false (drop idx s) idx ≡ []
  none_later s idx h =
      later-next_start s idx
      ∙ ap (λ l. from_start l (next_start s idx)) (end_of s (next_start s idx) (omega arith))

  rest_of-none :
      (s : List ℕ) (idx colidx col : ℕ)
      → colidx ≢ col
      → later false (drop idx s) idx ≡ []
      → rest_of s idx colidx col ≡ none
  rest_of-none s idx colidx col before e =
      rw (eqb_ne col colidx (λ same. before (sym same)), e) refl

  get_elem_next :
      (x : ℕ) (xs : List ℕ) (k : ℕ)
      → get_elem? (x ∷ xs) k ≡ (if k == 0 then some x else get_elem? xs (k - 1))
  get_elem_next x xs zero = refl
  get_elem_next x xs (suc k) =
      rw (eqb_ne (suc k) 0 (λ e. absurd (omega (arith, e))))
        (ap (get_elem? xs) {x = k} {y = suc k - 1} (omega arith))

  rest_of-next :
      (s : List ℕ) (idx colidx col : ℕ)
      → colidx < col
      → next_start s idx < length s
      → rest_of s (next_start s idx) (colidx + 1) col ≡ rest_of s idx colidx col
  rest_of-next s idx colidx col before inside =
      ap₂
        (λ b k.
          if b
          then some (next_start s idx)
          else get_elem? (later false (drop (next_start s idx) s) (next_start s idx)) k)
        same_test (less_one)
      ∙ sym (
          get_elem_next (next_start s idx)
            (later false (drop (next_start s idx) s) (next_start s idx)) (col - colidx - 1))
      ∙ ap (λ l. get_elem? l (col - colidx - 1))
          (sym (
            later-next_start s idx
            ∙ from_start_more (drop (next_start s idx) s) (next_start s idx)
                (omega (arith, length-drop (next_start s idx) s))))
      ∙ sym (rw (eqb_ne col colidx (λ e. absurd (omega (arith, e)))) refl)
    where
      same_test : (col == (colidx + 1)) ≡ (col - colidx - 1 == 0)
      same_test = ground arith

      less_one : col - (colidx + 1) - 1 ≡ col - colidx - 1 - 1
      less_one = omega arith

  or_true : (b : Bool) → (b || true) ≡ true
  or_true true = refl
  or_true false = refl

  further :
      (s : List ℕ) (idx : ℕ) → behind_word s idx < length s → behind_word s idx < next_start s idx
  further s idx h = omega (
    arith,
    skipped (drop idx s) (omega (arith, length-drop idx s)),
    ap (strspn seps) (drop-drop idx (strcspn seps (drop idx s)) s),
  )

  no_further :
      (s : List ℕ) (idx colidx col : ℕ)
      → colidx ≢ col
      → length s ≤ next_start s idx
      → rest_of s (next_start s idx) colidx col ≡ rest_of s idx colidx col
  no_further s idx colidx col before h =
      rest_of-none s (next_start s idx) colidx col before
        (ap (λ l. later false l (next_start s idx)) (end_of s (next_start s idx) h))
      ∙ sym (
          rest_of-none s idx colidx col before (
            later-next_start s idx
            ∙ ap (λ l. from_start l (next_start s idx)) (end_of s (next_start s idx) h)))

  column_found :
      (fuel : ℕ) (s : List ℕ) (col idx colidx : ℕ)
      → colidx ≤ col
      → length s - idx < fuel
      → column_loop fuel s col seps idx colidx ≡ some (rest_of s idx colidx col)
  unfolding column_loop
  column_found zero s col idx colidx h enough = absurd (omega arith)
  column_found (suc fuel) s col idx colidx h enough = elim (ℕ_discrete colidx col) [
    | yes found ↦
        rw
          (
            (==_iff colidx col).1 found,
            or_true (leb (length s) idx),
            (==_iff col colidx).1 (sym found),
          )
          refl
    | no before ↦ elim (Bool-cases (leb (length s) idx)) [
      | inl ended ↦
          rw (ended, eqb_ne col colidx (λ same. before (sym same)))
            (ap (λ l. some (get_elem? (later false l idx) (col - colidx - 1)))
              (sym (end_of s idx (leb→le _ _ ended))))
      | inr more ↦
          rw (more, eqb_ne colidx col before)
            (elim (Bool-cases (leb (length s) (behind_word s idx))) [
              | inl last ↦ rw last (
                  ap some (
                    sym
                      (rest_of-none s idx colidx col before (none_later s idx (leb→le _ _ last)))))
              | inr next ↦ rw next (elim (Bool-cases (leb (length s) (next_start s idx))) [
                | inl done ↦ rw done (
                    column_found fuel s col (next_start s idx) colidx h
                      (omega (arith, leb_false→gt _ _ next, further s idx (leb_false→gt _ _ next)))
                    ∙ ap some (no_further s idx colidx col before (leb→le _ _ done)))
                | inr found ↦ rw found (
                    column_found fuel s col (next_start s idx) (colidx + 1) (omega arith)
                      (omega (arith, leb_false→gt _ _ next, further s idx (leb_false→gt _ _ next)))
                    ∙ ap some
                        (rest_of-next s idx colidx col (omega arith) (leb_false→gt _ _ found)))
              ])
            ])
    ]
  ]

  -- `sc_str_index_of_column` ends, with the index at which the column starts, where the first
  -- column starts at 0 and any other at a character that is no separator behind one that is; or with
  -- -1 when the text has no such column.
  pub index_of_column-columns :
      (s : List ℕ) (col : ℕ) → index_of_column s col seps ≡ some (get_elem? (columns s) col)
  unfolding index_of_column
  index_of_column-columns s col =
      column_found (suc (length s)) s col 0 0 (omega arith) (omega arith) ∙ ap some (first col)
    where
      first : (col : ℕ) → rest_of s 0 0 col ≡ get_elem? (columns s) col
      first zero = refl
      first (suc col) =
          rw (eqb_ne (suc col) 0 (λ e. absurd (omega (arith, e))))
            (ap (get_elem? (later false s 0)) {x = suc col - 0 - 1} {y = col} (omega arith))
