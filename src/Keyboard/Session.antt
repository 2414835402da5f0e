-- ===== src/Keyboard/Session.antt =====
-- The reports of a keyboard after any key events.
use droidctl.Base.{
  ℕ, zero, suc, ◌+◌, ◌<◌, ◌≡◌, ◌≢◌, refl, ap, sym, ◌∙◌, inl, inr, Bool, true, false, not, ◌&&◌,
  Option, none, some, List, [], ◌∷◌, length, get_or, replicate, length-set, get_or-set_self,
  get_or-set_ne, lt→ltb, ltb, leb, ◌==◌, eqb_ne, if◌then◌else◌, Bool-cases, arith,
}
use droidctl.Hid.{HidInput}
use droidctl.Keyboard.{
  Keyboard, Action, Sdl, keyboard_keys, keyboard_max_keys, init, press, is_down, input_with,
  mod_from_sdl_keymod, scancode_is_modifier, fill_keys, generate_input_from_key,
}
use droidctl.Keyboard.Keys.{pressed, six_keys, fill_keys_lem}
use native.Mathlib.Decide.{ℕ_discrete}

pub record Event : Type 0 where
  pub scancode : ℕ
  pub action : Action
  pub mods_state : ℕ

-- Whether the last event of the key is that it goes down. The latest event comes first.
abbrev pub held : List Event → ℕ → Bool
held [] key = false
held (e ∷ earlier) key =
    let before = held earlier key in if e.scancode == key then is_down e.action else before

-- The numbers below `i + n`, from `i` on, that `f` holds of.
abbrev pub select : ℕ → ℕ → (ℕ → Bool) → List ℕ
select i zero f = []
select i (suc n) f = let rest = select (suc i) n f in if f i then i ∷ rest else rest

pressed-select :
    (i : ℕ) (keys : List Bool) (f : ℕ → Bool)
    → ((k : ℕ) → k < length keys → get_or keys k false ≡ f (i + k))
    → pressed i keys ≡ select i (length keys) f
pressed-select i [] f h = refl
pressed-select i (key ∷ keys) f h = by_key key (h 0 (omega arith) ∙ ap f (omega arith)) (
    pressed-select (suc i) keys f
      (λ k p. h (suc k) (omega arith) ∙ ap f {x = i + suc k} {y = suc i + k} (omega arith)))
  where
    by_key :
        (b : Bool)
        → b ≡ f i
        → pressed (suc i) keys ≡ select (suc i) (length keys) f
        → pressed i (b ∷ keys) ≡ select i (suc (length keys)) f
    by_key true e rest = rw (sym e) (ap (λ l. i ∷ l) rest)
    by_key false e rest = rw (sym e) rest

press_self :
    (keys : Keyboard) (code : ℕ) (action : Action)
    → code < length keys
    → code < keyboard_keys
    → get_or (press keys code action) code false ≡ is_down action
press_self keys code action inside p =
    rw (lt→ltb code keyboard_keys p) (get_or-set_self keys code (is_down action) false inside)

press_ne :
    (keys : Keyboard) (code : ℕ) (action : Action) (k : ℕ)
    → code ≢ k
    → get_or (press keys code action) k false ≡ get_or keys k false
press_ne keys code action k other = elim (Bool-cases (ltb code keyboard_keys)) [
  | inl e ↦ rw e (get_or-set_ne keys (is_down action) false other)
  | inr e ↦ rw e refl
]

is_same : (a b : ℕ) → a ≡ b → (a == b) ≡ true
is_same a b same = ground arith

press-held :
    (keys : Keyboard) (earlier : List Event) (e : Event)
    → length keys ≡ keyboard_keys
    → ((k : ℕ) → k < keyboard_keys → get_or keys k false ≡ held earlier k)
    → (k : ℕ) → k < keyboard_keys
    → get_or (press keys e.scancode e.action) k false ≡ held (e ∷ earlier) k
press-held keys earlier e len h k p = elim (ℕ_discrete e.scancode k) [
  | yes same ↦
      ap (λ c. get_or (press keys e.scancode e.action) c false) (sym same)
      ∙ press_self keys e.scancode e.action (omega arith) (omega arith)
      ∙ sym (rw (is_same e.scancode k same) refl)
  | no other ↦
      press_ne keys e.scancode e.action k other ∙ h k p ∙ sym (rw (eqb_ne e.scancode k other) refl)
]

length-press :
    (keys : Keyboard) (code : ℕ) (action : Action) → length (press keys code action) ≡ length keys
length-press keys code action = elim (Bool-cases (ltb code keyboard_keys)) [
  | inl e ↦ rw e (length-set keys code (is_down action))
  | inr e ↦ rw e refl
]

cleared : (n k : ℕ) → get_or (replicate n false) k false ≡ false
cleared zero k = refl
cleared (suc n) zero = refl
cleared (suc n) (suc k) = cleared n k

-- The report, without the keyboard after it.
abbrev pub report : Option (HidInput × Keyboard) → Option HidInput
report none = none
report (some (input, _)) = some input

module _ (sdl : Sdl) where
  -- The keyboard after some events.
  abbrev pub run : List Event → Keyboard
  run [] = init
  run (e ∷ earlier) =
      let before = run earlier in
      elim (generate_input_from_key sdl before e.scancode e.action e.mods_state) [
        | none ↦ before
        | some (_, after) ↦ after
      ]

  run-press :
      (e : Event) (earlier : List Event)
      → run (e ∷ earlier) ≡ press (run earlier) e.scancode e.action
  unfolding generate_input_from_key
  run-press e earlier = ground arith

  length-run : (events : List Event) → length (run events) ≡ keyboard_keys
  unfolding init
  length-run [] = refl
  length-run (e ∷ earlier) =
      ap length (run-press e earlier)
      ∙ length-press (run earlier) e.scancode e.action
      ∙ length-run earlier

  run-held :
      (events : List Event) (k : ℕ)
      → k < keyboard_keys
      → get_or (run events) k false ≡ held events k
  unfolding init
  run-held [] k p = cleared keyboard_keys k
  run-held (e ∷ earlier) k p =
      ap (λ keys. get_or keys k false) (run-press e earlier)
      ∙ press-held (run earlier) earlier e (length-run earlier) (run-held earlier) k p

  -- The keys that are held after the events, from 0 on.
  pressed-run :
      (events : List Event) → pressed 0 (run events) ≡ select 0 keyboard_keys (held events)
  pressed-run events =
      pressed-select 0 (run events) (held events) (λ k p.
        run-held events k (omega (arith, length-run events))
        ∙ ap (held events) {x = k} {y = 0 + k} (omega arith))
      ∙ ap (λ n. select 0 n (held events)) (length-run events)

  all_keys :
      (earlier : List Event) (e : Event)
      → fill_keys 0 (press (run earlier) e.scancode e.action) (replicate keyboard_max_keys 0) 0
        ≡ six_keys (select 0 keyboard_keys (held (e ∷ earlier)))
  all_keys earlier e =
      ap (λ keys. fill_keys 0 keys (replicate keyboard_max_keys 0) 0) (sym (run-press e earlier))
      ∙ fill_keys_lem (run (e ∷ earlier)) (omega (arith, length-run (e ∷ earlier)))
      ∙ ap six_keys (pressed-run (e ∷ earlier))

  -- After any key events, a key event is reported unless its scancode is neither a key of the
  -- report nor a modifier; the report has the modifiers of the event and the numbers of exactly
  -- the keys whose last event is that they go down, or six times 1 when there are more than six.
  pub generate_input_from_key-held :
      (earlier : List Event) (e : Event)
      → report (generate_input_from_key sdl (run earlier) e.scancode e.action e.mods_state) ≡ (
          if leb keyboard_keys e.scancode && not (scancode_is_modifier sdl e.scancode)
          then none
          else some (
              input_with
                (mod_from_sdl_keymod sdl e.mods_state)
                (six_keys (select 0 keyboard_keys (held (e ∷ earlier))))))
  unfolding generate_input_from_key
  generate_input_from_key-held earlier e =
      elim (Bool-cases
        (leb keyboard_keys e.scancode && not (scancode_is_modifier sdl e.scancode))) [
          | inl ignored ↦ rw ignored refl
          | inr reported ↦ rw reported (report_of (all_keys earlier e))
        ]
    where
      report_of :
          {keys keys' : List ℕ}
          → keys ≡ keys'
          → Path
              (Option HidInput)
              (some (input_with (mod_from_sdl_keymod sdl e.mods_state) keys))
              (some (input_with (mod_from_sdl_keymod sdl e.mods_state) keys'))
      report_of h = ap (λ l. some (input_with (mod_from_sdl_keymod sdl e.mods_state) l)) h
