-- ===== src/Str/Joined.antt =====
-- What `sc_str_join` leaves in the buffer.
use droidctl.Base.{
  ℕ, zero, suc, ◌+◌, ◌-◌, ◌^◌, ◌≤◌, ◌<◌, ◌≡◌, ◌≢◌, refl, ap, ap₂, sym, ◌∙◌, inl, inr, true, false,
  List, [], ◌∷◌, ◌++◌, append_assoc, length, length-append, length-take, eqb_ne, ==_iff, set, take,
  ltb, ltb→lt, take_all, take-append_left, take-append_longer, ltb_false→ge, lt→ltb, leb, ◌==◌,
  if◌then◌else◌, Bool-cases, arith,
}
use droidctl.Str.Copied.{at_start, strncpy_lem, length-at_start, set_last, covered}
use droidctl.Str.Join.{strncpy, truncated, join_loop, str_join}

-- The text so far, with one more token: the separator is left out at the start.
abbrev pub with_token : ℕ → List ℕ → List ℕ → List ℕ
with_token sep [] token = token
with_token sep (c ∷ text) token = (c ∷ text) ++ (sep ∷ token)

abbrev pub joined : ℕ → List ℕ → List (List ℕ) → List ℕ
joined sep text [] = text
joined sep text (token ∷ tokens) = joined sep (with_token sep text token) tokens

-- What a buffer of `n` bytes gets of a text, with its terminator.
abbrev pub fit : List ℕ → List ℕ → ℕ → ℕ × List ℕ
fit text dst n =
    if ltb (length text) n
    then (length text, at_start (text ++ (0 ∷ [])) dst)
    else (n, at_start (take (n - 1) text ++ (0 ∷ [])) dst)

joined_longer :
    (sep : ℕ) (tokens : List (List ℕ)) (text : List ℕ)
    → length text ≤ length (joined sep text tokens)
joined_longer sep [] text = omega arith
joined_longer sep (token ∷ tokens) [] = omega arith
joined_longer sep (token ∷ tokens) (c ∷ text) = omega (
  arith,
  joined_longer sep tokens (with_token sep (c ∷ text) token),
  length-append text (sep ∷ token),
)

take-joined :
    (sep k : ℕ) (tokens : List (List ℕ)) (text : List ℕ)
    → k ≤ length text
    → take k (joined sep text tokens) ≡ take k text
take-joined sep k [] text h = refl
take-joined sep zero (token ∷ tokens) [] h = refl
take-joined sep (suc k) (token ∷ tokens) [] h = absurd (omega arith)
take-joined sep k (token ∷ tokens) (c ∷ text) h =
    take-joined sep k tokens ((c ∷ text) ++ (sep ∷ token))
      (omega (arith, length-append text (sep ∷ token)))
    ∙ take-front k (c ∷ text) (sep ∷ token) h
  where
    take-front : (k : ℕ) (xs ys : List ℕ) → k ≤ length xs → take k (xs ++ ys) ≡ take k xs
    take-front zero xs ys h = refl
    take-front (suc k) [] ys h = absurd (omega arith)
    take-front (suc k) (x ∷ xs) ys h = ap (λ l. x ∷ l) (take-front k xs ys (omega arith))

-- A text whose start already fills the buffer.
fit_full :
    (sep n : ℕ) (tokens : List (List ℕ)) (text dst : List ℕ)
    → 0 < n
    → n ≤ length text
    → fit (joined sep text tokens) dst n ≡ (n, at_start (take (n - 1) text ++ (0 ∷ [])) dst)
fit_full sep n tokens text dst some_room h = rw (not_less) (
    ap (λ l. (n, at_start (l ++ (0 ∷ [])) dst)) (take-joined sep (n - 1) tokens text (omega arith)))
  where
    not_less : ltb (length (joined sep text tokens)) n ≡ false
    not_less = ground (arith, joined_longer sep tokens text)

-- What is done with a token behind `text`, once the separator is there.
abbrev token_step : List (List ℕ) → ℕ → ℕ → ℕ × List ℕ → ℕ → ℕ × List ℕ
token_step tokens sep n (w, dst) i =
    let rest = join_loop dst tokens sep n (i + w) in if leb (n - i) w then truncated dst n else rest

token_step-fit :
    (text buf dst token : List ℕ) (tokens : List (List ℕ)) (sep n : ℕ)
    → length text < n
    → n < 2 ^ 64
    → n ≤ length dst
    → length buf ≡ length dst
    → ((all : List ℕ) → length text < length all → at_start all buf ≡ at_start all dst)
    → (length (text ++ token) < n
        → join_loop
            (at_start ((text ++ token) ++ (0 ∷ [])) dst)
            tokens
            sep
            n
            (length (text ++ token))
          ≡ fit (joined sep (text ++ token) tokens) dst n)
    → token_step tokens sep n
        (strncpy (at_start text buf) (length text) token (n - length text))
        (length text)
      ≡ fit (joined sep (text ++ token) tokens) dst n
token_step-fit text buf dst token tokens sep n room small large same_length same rest =
    rw
      (strncpy_lem text buf token (n - length text) (omega arith) (omega arith)
        (omega (arith, same_length)))
      (elim (Bool-cases (ltb (length token) (n - length text))) [
        | inl whole ↦
            rw (whole, shorter whole)
              (ap₂ (λ d k. join_loop d tokens sep n k) (kept whole) (sym (length-append text token))
                ∙ rest (omega (arith, ltb→lt _ _ whole, length-append text token)))
        | inr cut ↦
            rw (cut, leb_refl (n - length text))
              (ap (λ d. (n, d)) (ended cut)
                ∙ sym (
                    fit_full sep n tokens (text ++ token) dst (omega arith)
                      (omega (arith, ltb_false→ge _ _ cut, length-append text token))))
      ])
  where
    shorter :
        ltb (length token) (n - length text) ≡ true → leb (n - length text) (length token) ≡ false
    shorter whole = ground arith

    leb_refl : (k : ℕ) → leb k k ≡ true
    leb_refl k = ground arith

    kept :
        ltb (length token) (n - length text) ≡ true
        → at_start ((text ++ take (n - length text - 1) token) ++ (0 ∷ [])) buf
          ≡ at_start ((text ++ token) ++ (0 ∷ [])) dst
    kept whole =
        ap (λ l. at_start ((text ++ l) ++ (0 ∷ [])) buf)
          (take_all (n - length text - 1) token (omega (arith, ltb→lt _ _ whole)))
        ∙ same ((text ++ token) ++ (0 ∷ []))
            (omega (arith, length-append (text ++ token) (0 ∷ []), length-append text token))

    ended :
        ltb (length token) (n - length text) ≡ false
        → set (at_start ((text ++ take (n - length text - 1) token) ++ (0 ∷ [])) buf) (n - 1) 0
          ≡ at_start (take (n - 1) (text ++ token) ++ (0 ∷ [])) dst
    ended cut =
        let all : List ℕ = text ++ take (n - length text - 1) token in
        let size : length all ≡ n - 1 = omega (
          arith,
          ltb_false→ge _ _ cut,
          length-append text (take (n - length text - 1) token),
          length-take (n - length text - 1) token,
        ) in
        ap (λ k. set (at_start (all ++ (0 ∷ [])) buf) k 0) (sym size)
        ∙ set_last all buf 0 0
        ∙ same (all ++ (0 ∷ [])) (omega (arith, length-append all (0 ∷ []), size))
        ∙ ap (λ k. at_start ((text ++ take k token) ++ (0 ∷ [])) dst) {y = n - 1 - length text}
            (omega arith)
        ∙ ap (λ l. at_start (l ++ (0 ∷ [])) dst)
            (sym (take-append_longer (n - 1) text token (omega arith)))

join_loop-separated :
    (buf : List ℕ) (token : List ℕ) (tokens : List (List ℕ)) (sep n i : ℕ)
    → (i == 0) ≡ false
    → join_loop buf (token ∷ tokens) sep n i ≡ (
        if i + 1 == n
        then truncated (set buf i sep) n
        else token_step tokens sep n (strncpy (set buf i sep) (i + 1) token (n - (i + 1))) (i + 1))
unfolding join_loop
join_loop-separated buf token tokens sep n i h = rw h refl

unequal : (a b : ℕ) → (a == b) ≡ false → a ≢ b
unequal a b h = ground arith

-- From a text that is in the buffer with its terminator.
join_loop-fit :
    (tokens : List (List ℕ)) (text dst : List ℕ) (sep n : ℕ)
    → length text < n
    → n < 2 ^ 64
    → n ≤ length dst
    → join_loop (at_start (text ++ (0 ∷ [])) dst) tokens sep n (length text)
      ≡ fit (joined sep text tokens) dst n
unfolding join_loop
join_loop-fit [] text dst sep n room small large = sym (rw (lt→ltb (length text) n room) refl)
join_loop-fit (token ∷ tokens) [] dst sep n room small large =
    token_step-fit [] (at_start (0 ∷ []) dst) dst token tokens sep n room small large
      (length-at_start (0 ∷ []) dst (omega arith)) (covered [] 0 dst)
      (λ h. join_loop-fit tokens token dst sep n h small large)
join_loop-fit (token ∷ tokens) (c ∷ text) dst sep n room small large =
    join_loop-separated (at_start (whole ++ (0 ∷ [])) dst) token tokens sep n (length whole)
      (eqb_ne (length whole) 0 (λ e. absurd (omega (arith, e))))
    ∙ ap
        (λ d.
          if length whole + 1 == n
          then truncated d n
          else token_step tokens sep n (strncpy d (length whole + 1) token (n - (length whole + 1)))
              (length whole + 1))
        (set_last whole dst 0 sep)
    ∙ elim (Bool-cases (length whole + 1 == n)) [
      | inl full ↦ rw full (
          ap (λ d. (n, d)) (ends (omega (arith, (==_iff (length whole + 1) n).0 full)))
          ∙ sym (
              fit_full sep n tokens (whole ++ (sep ∷ token)) dst (omega arith) (
                omega (
                  arith,
                  (==_iff (length whole + 1) n).0 full,
                  length-append whole (sep ∷ token),
                ))))
      | inr more ↦ rw more (
          ap (λ i. token_step tokens sep n (strncpy (at_start front dst) i token (n - i)) i)
            {y = length front} (sym (length-append whole (sep ∷ [])))
          ∙ token_step-fit front dst dst token tokens sep n
              (omega (arith, length-append whole (sep ∷ []), unequal (length whole + 1) n more))
              small large refl (λ all h. refl)
              (λ h. join_loop-fit tokens (front ++ token) dst sep n h small large)
          ∙ ap (λ l. fit (joined sep l tokens) dst n) (append_assoc whole (sep ∷ []) token))
    ]
  where
    whole : List ℕ
    whole = c ∷ text

    front : List ℕ
    front = whole ++ (sep ∷ [])

    ends :
        n - 1 ≡ length whole
        → set (at_start front dst) (n - 1) 0
          ≡ at_start (take (n - 1) (whole ++ (sep ∷ token)) ++ (0 ∷ [])) dst
    ends e =
        ap (λ k. set (at_start front dst) k 0) e
        ∙ set_last whole dst sep 0
        ∙ ap (λ l. at_start (l ++ (0 ∷ [])) dst)
            (sym (take-append_left whole (sep ∷ token) (n - 1) e))

-- `sc_str_join` of one token or more, with a buffer of `n` bytes, 1 or more: when the tokens with
-- their separators, which are left out as long as the text is empty, and the terminator fit, they
-- are what the buffer starts with, and their length is returned; otherwise as much of them as fits
-- with a terminator is, and `n` is returned. The memory behind the terminator is left as it was.
pub str_join-fit :
    (dst token : List ℕ) (tokens : List (List ℕ)) (sep n : ℕ)
    → 0 < n
    → n < 2 ^ 64
    → n ≤ length dst
    → str_join dst (token ∷ tokens) sep n ≡ fit (joined sep token tokens) dst n
unfolding str_join join_loop
str_join-fit dst token tokens sep n some_room small large =
    token_step-fit [] dst dst token tokens sep n some_room small large refl (λ all h. refl)
      (λ h. join_loop-fit tokens token dst sep n h small large)
