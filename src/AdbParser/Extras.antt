-- ===== src/AdbParser/Extras.antt =====
-- The words that follow the state, which the loop reads from the last.
use droidctl.Base.{
  ℕ, suc, ◌+◌, ◌-◌, ◌≡◌, refl, ap, sym, ◌∙◌, inl, inr, true, false, Option, some, List, [], ◌∷◌,
  ◌++◌, append_assoc, length, length-append, take, drop, take-append_left, drop-append_left, All,
  ◌==◌, if◌then◌else◌, Bool-cases, arith,
}
use droidctl.Base.Text.{text, starts_with}
use droidctl.AdbParser.{is_blank, locate_last_token, is_device_state, Found, token_loop}
use droidctl.AdbParser.Tokens.{IsToken, IsBlanks, locate_last_token-token}

-- What follows the state: no word of a state, each behind a space.
abbrev pub IsExtra : List ℕ → Type 0
IsExtra token = IsToken token × (is_device_state token ≡ false)

abbrev pub extras : List (List ℕ) → List ℕ
extras [] = []
extras (token ∷ tokens) = 32 ∷ (token ++ extras tokens)

-- The model, which the loop reads from the end of the line.
abbrev pub with_model : List ℕ → Option (List ℕ) → Option (List ℕ)
with_model token model = if starts_with (text "model:") token then some (drop 6 token) else model

abbrev pub model_of : List (List ℕ) → Option (List ℕ) → Option (List ℕ)
model_of [] model = model
model_of (token ∷ tokens) model = with_model token (model_of tokens model)

-- Reading the last token of a line.
module _ (line front : List ℕ) (b : ℕ) (token blanks rest : List ℕ)
    (e : line ≡ front ++ (b ∷ (token ++ (blanks ++ rest)))) (blank : is_blank b ≡ true)
    (t : IsToken token) (bs : IsBlanks blanks) where
  abbrev len : ℕ
  len = length front + 1 + length token + length blanks

  located : locate_last_token line len ≡ (length front + 1, length front + 1 + length token)
  located = locate_last_token-token line front b token blanks rest e blank t bs

  token_of :
      take (length front + 1 + length token - (length front + 1)) (drop (length front + 1) line)
      ≡ token
  token_of =
      ap (λ l. take (length front + 1 + length token - (length front + 1)) l)
        (ap (drop (length front + 1))
            (e ∙ sym (append_assoc front (b ∷ []) (token ++ (blanks ++ rest))))
          ∙ drop-append_left (front ++ (b ∷ [])) (token ++ (blanks ++ rest)) (length front + 1)
              (omega (arith, length-append front (b ∷ []))))
      ∙ take-append_left token (blanks ++ rest)
          (length front + 1 + length token - (length front + 1)) (omega arith)

  not_empty : (length front + 1 == length front + 1 + length token) ≡ false
  not_empty = ground (arith, t.1)

  token_loop-extra :
      (fuel : ℕ) (model : Option (List ℕ))
      → is_device_state token ≡ false
      → token_loop (suc fuel) line len model
        ≡ token_loop fuel line (length front + 1) (with_model token model)
  unfolding token_loop
  token_loop-extra fuel model h = elim (Bool-cases (starts_with (text "model:") token)) [
    | inl e ↦ rw (token_loop, located, not_empty, token_of, e) refl
    | inr e ↦ rw (token_loop, located, not_empty, token_of, e, h) refl
  ]

  pub token_loop-state :
      (fuel : ℕ) (model : Option (List ℕ))
      → starts_with (text "model:") token ≡ false
      → is_device_state token ≡ true
      → token_loop (suc fuel) line len model
        ≡ some record { start = length front + 1; state = token; model = model }
  unfolding token_loop
  token_loop-state fuel model other h = rw (token_loop, located, not_empty, token_of, other, h) refl

-- Where the loop is after the extra words: behind `front` and blanks.
pub record Passed (line front : List ℕ) (fuel : ℕ) (model : Option (List ℕ)) (result : Option Found)
    : Type 0 where
  pub blanks : List ℕ
  pub rest : List ℕ
  pub split : line ≡ front ++ (blanks ++ rest)
  pub only_blanks : IsBlanks blanks
  pub same : result ≡ token_loop fuel line (length front + length blanks) model

pub token_loop-extras :
    (tokens : List (List ℕ)) (line front blanks rest : List ℕ) (fuel : ℕ) (model : Option (List ℕ))
    → line ≡ front ++ (extras tokens ++ (blanks ++ rest))
    → All IsExtra tokens
    → IsBlanks blanks
    → Passed line front fuel (model_of tokens model) (
        token_loop
          (length tokens + fuel)
          line
          (length front + length (extras tokens) + length blanks)
          model)
token_loop-extras [] line front blanks rest fuel model e ts bs = record {
  blanks = blanks;
  rest = rest;
  split = e;
  only_blanks = bs;
  same =
      ap (λ n. token_loop (0 + fuel) line n model) {x = length front + 0 + length blanks}
        {y = length front + length blanks} (omega arith)
      ∙ ap (λ f. token_loop f line (length front + length blanks) model) {x = 0 + fuel} {y = fuel}
          (omega arith);
}
token_loop-extras (token ∷ tokens) line front blanks rest fuel model e ts bs =
    let front' : List ℕ = front ++ (32 ∷ token) in
    let p =
      token_loop-extras tokens line front' blanks rest (suc fuel) model
        (e
          ∙ ap (λ l. front ++ (32 ∷ l)) (append_assoc token (extras tokens) (blanks ++ rest))
          ∙ sym (append_assoc front (32 ∷ token) (extras tokens ++ (blanks ++ rest))))
        ts.1 bs in
    let split : line ≡ front ++ (32 ∷ (token ++ (p.blanks ++ p.rest))) =
      p.split ∙ append_assoc front (32 ∷ token) (p.blanks ++ p.rest) in
    let size : length front' ≡ length front + 1 + length token =
      omega (arith, length-append front (32 ∷ token)) in
    record {
      blanks = 32 ∷ [];
      rest = token ++ (p.blanks ++ p.rest);
      split = split;
      only_blanks = (refl, tt);
      same =
          ap
            (λ f.
              token_loop f line (length front + length (extras (token ∷ tokens)) + length blanks)
                model)
            {x = length (token ∷ tokens) + fuel} {y = length tokens + suc fuel} (omega arith)
          ∙ ap (λ n. token_loop (length tokens + suc fuel) line n model)
              {y = length front' + length (extras tokens) + length blanks}
              (omega (arith, size, length-append token (extras tokens)))
          ∙ p.same
          ∙ ap (λ n. token_loop (suc fuel) line (n + length p.blanks) (model_of tokens model)) size
          ∙ token_loop-extra line front 32 token p.blanks p.rest split refl ts.0.0 p.only_blanks
              fuel (model_of tokens model) ts.0.1;
    }
