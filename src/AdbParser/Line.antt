-- ===== src/AdbParser/Line.antt =====
-- The line of a device, as adb prints it, is read back.
use droidctl.Base.{
  ℕ, zero, suc, ◌+◌, ◌-◌, ◌≤◌, ◌<◌, ◌≡◌, refl, ap, sym, ◌∙◌, Bool, true, false, Option, none, some,
  List, [], ◌∷◌, ◌++◌, append_assoc, append-nil, length, length-append, get_or, get_or-append_left,
  take, take-append_left, All, All-append, ◌==◌, eqb_ne, arith,
}
use droidctl.Base.Text.{text, starts_with}
use droidctl.AdbParser.{is_blank, rstrip_len, is_device_state, token_loop, device_of, parse_device}
use droidctl.AdbParser.Tokens.{IsBlanks, rstrip_len-blanks}
use droidctl.AdbParser.States.{state_no_model, state-IsToken}
use droidctl.AdbParser.Extras.{IsExtra, extras, model_of, token_loop-extras, token_loop-state}

-- The line of a device: the serial, blanks, the state, and the extra words.
abbrev pub line_of : List ℕ → List ℕ → List ℕ → List (List ℕ) → List ℕ
line_of serial gap state tokens = serial ++ (gap ++ (32 ∷ (state ++ extras tokens)))

-- A serial may have blanks inside, but not at its end.
abbrev pub IsSerial : List ℕ → Type 0
IsSerial serial = (0 < length serial) × (is_blank (get_or serial (length serial - 1) 0) ≡ false)

rstrip_len_self :
    (s : List ℕ) (n : ℕ) → 0 < n → is_blank (get_or s (n - 1) 0) ≡ false → rstrip_len s n ≡ n
unfolding rstrip_len
rstrip_len_self s zero h k = absurd (omega arith)
rstrip_len_self s (suc n) h k =
    rw (ap (λ i. is_blank (get_or s i 0)) {x = n} {y = suc n - 1} (omega arith) ∙ k) refl

fewer_tokens : (tokens : List (List ℕ)) → length tokens ≤ length (extras tokens)
fewer_tokens [] = omega arith
fewer_tokens (token ∷ tokens) =
    omega (arith, fewer_tokens tokens, length-append token (extras tokens))

-- The loop finds the state.
found_lem :
    (serial gap state : List ℕ) (tokens : List (List ℕ))
    → is_device_state state ≡ true
    → All IsExtra tokens
    → let line = line_of serial gap state tokens in
      token_loop (suc (length line)) line (length line) none
      ≡ some
          record { start = length (serial ++ gap) + 1; state = state; model = model_of tokens none }
found_lem serial gap state tokens h ts =
    let line : List ℕ = line_of serial gap state tokens in
    let front : List ℕ = (serial ++ gap) ++ (32 ∷ state) in
    let fuel : ℕ = length line - length tokens in
    let split : line ≡ front ++ (extras tokens ++ ([] ++ [])) =
      sym (append_assoc serial gap (32 ∷ (state ++ extras tokens)))
      ∙ sym (append_assoc (serial ++ gap) (32 ∷ state) (extras tokens))
      ∙ ap (λ l. front ++ l) (sym (append-nil (extras tokens))) in
    let size : length line ≡ length front + length (extras tokens) =
      ap length (split ∙ ap (λ l. front ++ l) (append-nil (extras tokens)))
      ∙ length-append front (extras tokens) in
    let p = token_loop-extras tokens line front [] [] (suc fuel) none split ts tt in
    ap (λ f. token_loop f line (length line) none) {y = length tokens + suc fuel}
      (omega (arith, size, fewer_tokens tokens))
    ∙ ap (λ n. token_loop (length tokens + suc fuel) line n none)
        {y = length front + length (extras tokens) + 0} (omega (arith, size))
    ∙ p.same
    ∙ ap (λ n. token_loop (suc fuel) line (n + length p.blanks) (model_of tokens none))
        {y = length (serial ++ gap) + 1 + length state}
        (omega (arith, length-append (serial ++ gap) (32 ∷ state)))
    ∙ token_loop-state line (serial ++ gap) 32 state p.blanks p.rest
        (p.split ∙ append_assoc (serial ++ gap) (32 ∷ state) (p.blanks ++ p.rest)) refl
        (state-IsToken state h) p.only_blanks fuel (model_of tokens none) (state_no_model state h) h

module _ (strdup : List ℕ → Bool) (memory : (s : List ℕ) → strdup s ≡ true) where
  device_of-serial :
      (line serial gap rest : List ℕ) (state : List ℕ) (model : Option (List ℕ))
      → line ≡ serial ++ (gap ++ rest)
      → IsSerial serial
      → IsBlanks gap
      → device_of strdup line
          record { start = length serial + length gap; state = state; model = model }
        ≡ some record { serial = serial; state = state; model = model; selected = false }
  unfolding device_of
  device_of-serial line serial gap rest state model e good blanks = by_model model
    where
      kept : get_or line (length serial - 1) 0 ≡ get_or serial (length serial - 1) 0
      kept =
          ap (λ l. get_or l (length serial - 1) 0) e
          ∙ get_or-append_left serial (gap ++ rest) (length serial - 1) 0 (omega (arith, good.0))

      serial_len : rstrip_len line (length serial + length gap) ≡ length serial
      serial_len =
          rstrip_len-blanks line serial gap rest e blanks
          ∙ rstrip_len_self line (length serial) good.0 (ap is_blank kept ∙ good.1)

      taken : take (length serial) line ≡ serial
      taken =
          ap (take (length serial)) e ∙ take-append_left serial (gap ++ rest) (length serial) refl

      some_left : (length serial == 0) ≡ false
      some_left = eqb_ne (length serial) 0 (λ n. absurd (omega (arith, good.0, n)))

      by_model :
          (model : Option (List ℕ))
          → device_of strdup line
              record { start = length serial + length gap; state = state; model = model }
            ≡ some record { serial = serial; state = state; model = model; selected = false }
      by_model none = rw (device_of, serial_len, some_left, taken, memory serial, memory state) refl
      by_model (some m) =
          rw (device_of, serial_len, some_left, taken, memory serial, memory state, memory m) refl

  -- A line that has a serial, blanks, a state and further words, each behind a space and none of
  -- them a state, and that is no line of the daemon, is read, when there is memory, as the device
  -- with that serial, even with blanks inside, that state, and the first model among the words.
  pub parse_device-line_of :
      (serial gap state : List ℕ) (tokens : List (List ℕ))
      → IsSerial serial
      → IsBlanks gap
      → is_device_state state ≡ true
      → All IsExtra tokens
      → (get_or serial 0 0 == 42) ≡ false
      → starts_with (text "adb server") (line_of serial gap state tokens) ≡ false
      → parse_device strdup (line_of serial gap state tokens)
        ≡ some record {
          serial = serial;
          state = state;
          model = model_of tokens none;
          selected = false;
        }
  unfolding parse_device
  parse_device-line_of serial gap state tokens good blanks h ts star daemon =
      rw
        (
          get_or-append_left serial (gap ++ (32 ∷ (state ++ extras tokens))) 0 0 good.0,
          star,
          daemon,
          found_lem serial gap state tokens h ts,
        )
        (ap
            (λ n.
              device_of strdup (line_of serial gap state tokens)
                record { start = n; state = state; model = model_of tokens none })
            {y = length serial + length (gap ++ (32 ∷ []))}
            (omega (arith, length-append serial gap, length-append gap (32 ∷ [])))
          ∙ device_of-serial (line_of serial gap state tokens) serial (gap ++ (32 ∷ []))
              (state ++ extras tokens) state (model_of tokens none)
              (ap (λ l. serial ++ l) (sym (append_assoc gap (32 ∷ []) (state ++ extras tokens))))
              good (All-append _ gap (32 ∷ []) blanks (refl, tt)))
