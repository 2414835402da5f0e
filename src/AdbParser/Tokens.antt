-- ===== src/AdbParser/Tokens.antt =====
-- Finding the last token of a line.
use droidctl.Base.{
  ℕ, suc, ◌+◌, ◌<◌, ◌≡◌, refl, ap, sym, ◌∙◌, true, false, List, [], ◌∷◌, ◌++◌, append_assoc, length,
  length-append, get_or, get_or-append_right, All, arith,
}
use droidctl.AdbParser.{is_blank, rstrip_len, token_start, locate_last_token}

-- A text without blanks, that is not empty.
abbrev pub IsToken : List ℕ → Type 0
IsToken token = All (λ c. is_blank c ≡ false) token × (0 < length token)

abbrev pub IsBlanks : List ℕ → Type 0
IsBlanks blanks = All (λ c. is_blank c ≡ true) blanks

-- The next byte of a line, at the end of what is in front.
module _ (s front : List ℕ) (c : ℕ) (rest : List ℕ) (e : s ≡ front ++ (c ∷ rest)) where
  byte_at : get_or s (length front) 0 ≡ c
  byte_at =
      ap (λ l. get_or l (length front) 0) e
      ∙ get_or-append_right front (c ∷ rest) (length front) 0 0 (omega arith)

  length-next : length (front ++ (c ∷ [])) ≡ suc (length front)
  length-next = omega (arith, length-append front (c ∷ []))

  next_split : s ≡ (front ++ (c ∷ [])) ++ rest
  next_split = e ∙ sym (append_assoc front (c ∷ []) rest)

  rstrip_len-blank :
      is_blank c ≡ true → rstrip_len s (suc (length front)) ≡ rstrip_len s (length front)
  unfolding rstrip_len
  rstrip_len-blank h = rw (byte_at, h) refl

  rstrip_len-other : is_blank c ≡ false → rstrip_len s (suc (length front)) ≡ suc (length front)
  unfolding rstrip_len
  rstrip_len-other h = rw (byte_at, h) refl

  token_start-blank : is_blank c ≡ true → token_start s (suc (length front)) ≡ suc (length front)
  unfolding token_start
  token_start-blank h = rw (byte_at, h) refl

  token_start-other :
      is_blank c ≡ false → token_start s (suc (length front)) ≡ token_start s (length front)
  unfolding token_start
  token_start-other h = rw (byte_at, h) refl

-- Blanks at the end do not count.
pub rstrip_len-blanks :
    (s front blanks rest : List ℕ)
    → s ≡ front ++ (blanks ++ rest)
    → IsBlanks blanks
    → rstrip_len s (length front + length blanks) ≡ rstrip_len s (length front)
rstrip_len-blanks s front [] rest e h = ap (rstrip_len s) {x = length front + 0} (omega arith)
rstrip_len-blanks s front (c ∷ blanks) rest e h =
    ap (rstrip_len s) {y = length (front ++ (c ∷ [])) + length blanks}
      (omega (arith, length-next s front c (blanks ++ rest) e))
    ∙ rstrip_len-blanks s (front ++ (c ∷ [])) blanks rest (next_split s front c (blanks ++ rest) e)
        h.1
    ∙ ap (rstrip_len s) (length-next s front c (blanks ++ rest) e)
    ∙ rstrip_len-blank s front c (blanks ++ rest) e h.0

-- A token does.
pub rstrip_len-token :
    (s front token rest : List ℕ)
    → s ≡ front ++ (token ++ rest)
    → IsToken token
    → rstrip_len s (length front + length token) ≡ length front + length token
rstrip_len-token s front [] rest e h = absurd (omega (arith, h.1))
rstrip_len-token s front (c ∷ []) rest e h =
    ap (rstrip_len s) {y = suc (length front)} (omega arith)
    ∙ rstrip_len-other s front c rest e h.0.0
    ∙ (omega arith)
rstrip_len-token s front (c ∷ d ∷ token) rest e h =
    ap (rstrip_len s) {y = length (front ++ (c ∷ [])) + length (d ∷ token)}
      (omega (arith, length-next s front c (d ∷ token ++ rest) e))
    ∙ rstrip_len-token s (front ++ (c ∷ [])) (d ∷ token) rest
        (next_split s front c (d ∷ token ++ rest) e) (h.0.1, omega arith)
    ∙ omega (arith, length-next s front c (d ∷ token ++ rest) e)

pub token_start-token :
    (s front token rest : List ℕ)
    → s ≡ front ++ (token ++ rest)
    → All (λ c. is_blank c ≡ false) token
    → token_start s (length front + length token) ≡ token_start s (length front)
token_start-token s front [] rest e h = ap (token_start s) {x = length front + 0} (omega arith)
token_start-token s front (c ∷ token) rest e h =
    ap (token_start s) {y = length (front ++ (c ∷ [])) + length token}
      (omega (arith, length-next s front c (token ++ rest) e))
    ∙ token_start-token s (front ++ (c ∷ [])) token rest (next_split s front c (token ++ rest) e)
        h.1
    ∙ ap (token_start s) (length-next s front c (token ++ rest) e)
    ∙ token_start-other s front c (token ++ rest) e h.0

-- A token behind a blank, with blanks behind it.
pub locate_last_token-token :
    (s front : List ℕ) (b : ℕ) (token blanks rest : List ℕ)
    → s ≡ front ++ (b ∷ (token ++ (blanks ++ rest)))
    → is_blank b ≡ true
    → IsToken token
    → IsBlanks blanks
    → locate_last_token s (length front + 1 + length token + length blanks)
      ≡ (length front + 1, length front + 1 + length token)
unfolding locate_last_token
locate_last_token-token s front b token blanks rest e blank t bs =
    ap (λ end. (token_start s end, end)) ends
    ∙ ap (λ n. (n, length front + 1 + length token)) starts
  where
    pre : List ℕ
    pre = front ++ (b ∷ [])

    size : length pre ≡ suc (length front)
    size = length-next s front b (token ++ (blanks ++ rest)) e

    whole : s ≡ pre ++ (token ++ (blanks ++ rest))
    whole = next_split s front b (token ++ (blanks ++ rest)) e

    both : length (pre ++ token) ≡ length front + 1 + length token
    both = omega (arith, size, length-append pre token)

    ends :
        rstrip_len s (length front + 1 + length token + length blanks)
        ≡ length front + 1 + length token
    ends =
        ap (rstrip_len s) {y = length (pre ++ token) + length blanks} (omega (arith, both))
        ∙ rstrip_len-blanks s (pre ++ token) blanks rest
            (whole ∙ sym (append_assoc pre token (blanks ++ rest))) bs
        ∙ ap (rstrip_len s) {y = length pre + length token} (length-append pre token)
        ∙ rstrip_len-token s pre token (blanks ++ rest) whole t
        ∙ omega (arith, size)

    starts : token_start s (length front + 1 + length token) ≡ length front + 1
    starts =
        ap (token_start s) {y = length pre + length token} (omega (arith, size))
        ∙ token_start-token s pre token (blanks ++ rest) whole t.0
        ∙ ap (token_start s) size
        ∙ token_start-blank s front b (token ++ (blanks ++ rest)) e blank
        ∙ omega arith
