-- ===== src/AdbParser/Devices.antt =====
-- The devices of the whole output, line by line.
use droidctl.Base.{
  ℕ, zero, suc, ◌+◌, ◌<◌, ◌≡◌, refl, ap, sym, ◌∙◌, inl, inr, Bool, true, false, length-zero, Option,
  none, some, List, [], ◌∷◌, ◌++◌, length, length-drop, take, drop, leb, leb→le, ◌==◌, ==_iff,
  if◌then◌else◌, Bool-cases, arith,
}
use droidctl.Base.Text.{text, starts_with}
use droidctl.Str.Tokens.{strcspn}
use droidctl.Str.Listed.{split, split-strcspn}
use droidctl.AdbParser.{Device, parse_device, devices_loop, parse_devices}
use droidctl.AdbParser.Returns.{without_cr, cr_lem}
use droidctl.AdbParser.FirstLine.{strcspn-length, starts_with-line}

module _ (strdup : List ℕ → Bool) (push : ℕ → Bool) where
  -- A device that was read goes to the end, when there is room; then the rest follows.
  abbrev pub with_device : {A : Type 0} → Option Device → List Device → (List Device → A) → A
  with_device none devices rest = rest devices
  with_device (some device) devices rest =
      if push (length devices) then rest (devices ++ (device ∷ [])) else rest devices

  -- The devices of the lines behind the header.
  abbrev pub add_lines : List (List ℕ) → List Device → List Device
  add_lines [] devices = devices
  add_lines (line ∷ lines) devices =
      with_device (parse_device strdup (without_cr line)) devices (λ more. add_lines lines more)

  -- The lines before the header are skipped.
  abbrev pub from_header : List (List ℕ) → Bool × List Device
  from_header [] = (false, [])
  from_header (line ∷ lines) =
      let later = from_header lines in
      if starts_with (text "List of devices attached") line
      then (true, add_lines lines [])
      else later

module _ (strdup : List ℕ → Bool) (push : ℕ → Bool) where
  parse_device-nil : parse_device strdup [] ≡ none
  unfolding parse_device droidctl.AdbParser.token_loop droidctl.AdbParser.locate_last_token
      droidctl.AdbParser.rstrip_len droidctl.AdbParser.token_start
  parse_device-nil = refl

  add_lines-nil : (devices : List Device) → add_lines strdup push ([] ∷ []) devices ≡ devices
  add_lines-nil devices =
      ap (λ o. with_device strdup push o devices (λ more. more)) parse_device-nil

  -- What is behind the first line.
  abbrev lines_behind : List ℕ → List (List ℕ)
  lines_behind str =
      if leb (length str) (strcspn (λ c. c == 10) str)
      then []
      else split 10 (drop (strcspn (λ c. c == 10) str + 1) str)

  added_behind :
      (str : List ℕ) (devices : List Device)
      → add_lines strdup push (split 10 (drop (strcspn (λ c. c == 10) str + 1) str)) devices
        ≡ add_lines strdup push (lines_behind str) devices
  added_behind str devices = elim (Bool-cases (leb (length str) (strcspn (λ c. c == 10) str))) [
    | inl last ↦ rw last (
        ap (λ l. add_lines strdup push (split 10 l) devices)
          {x = drop (strcspn (λ c. c == 10) str + 1) str}
          (length-zero _
            (omega (arith, leb→le _ _ last, length-drop (strcspn (λ c. c == 10) str + 1) str)))
        ∙ add_lines-nil devices)
    | inr more ↦ rw more refl
  ]

  first : List ℕ → List ℕ
  first str = take (strcspn (λ c. c == 10) str) str

  behind : List ℕ → List ℕ
  behind str = drop (strcspn (λ c. c == 10) str + 1) str

  devices_loop-line :
      (fuel : ℕ) (str : List ℕ) (devices : List Device)
      → (length str == 0) ≡ false
      → devices_loop strdup push (suc fuel) str true devices
        ≡ with_device strdup push
            (parse_device strdup (without_cr (first str)))
            devices
            (λ more. devices_loop strdup push fuel (behind str) true more)
  unfolding devices_loop first behind
  devices_loop-line fuel str devices h =
      rw (h, cr_lem (strcspn (λ c. c == 10) str) str (strcspn-length (λ c. c == 10) str))
        (by_device (parse_device strdup (without_cr (first str))))
    where
      by_device :
          (o : Option Device)
          → (elim o [
            | none ↦ devices_loop strdup push fuel (behind str) true devices
            | some device ↦
                (if push (length devices)
                  then devices_loop strdup push fuel (behind str) true (devices ++ (device ∷ []))
                  else devices_loop strdup push fuel (behind str) true devices)
          ])
            ≡ with_device strdup push o devices
                (λ more. devices_loop strdup push fuel (behind str) true more)
      by_device none = refl
      by_device (some device) = refl

  -- The loop goes over the lines.
  split-first : (str : List ℕ) → split 10 str ≡ first str ∷ lines_behind str
  unfolding first
  split-first str = split-strcspn 10 str

  behind_shorter : (str : List ℕ) → (length str == 0) ≡ false → length (behind str) < length str
  unfolding behind
  behind_shorter str h = omega (arith, length-drop (strcspn (λ c. c == 10) str + 1) str, nonempty)
    where
      nonempty : 0 < length str
      nonempty = ground arith

  same_rest :
      {A : Type 0} (o : Option Device) (devices : List Device) {f g : List Device → A}
      → ((more : List Device) → f more ≡ g more)
      → with_device strdup push o devices f ≡ with_device strdup push o devices g
  same_rest none devices h = h devices
  same_rest (some device) devices h = elim (Bool-cases (push (length devices))) [
    | inl e ↦ rw e (h (devices ++ (device ∷ [])))
    | inr e ↦ rw e (h devices)
  ]

  some_lines :
      (o : Option Device) (devices : List Device) (f : List Device → List Device)
      → with_device strdup push {A = Option (Bool × List Device)} o devices
          (λ more. some (true, f more))
        ≡ some (true, with_device strdup push o devices f)
  some_lines none devices f = refl
  some_lines (some device) devices f = elim (Bool-cases (push (length devices))) [
    | inl e ↦ rw e refl
    | inr e ↦ rw e refl
  ]

  lines_lem :
      (str : List ℕ) (more : List Device)
      → add_lines strdup push (split 10 (behind str)) more
        ≡ add_lines strdup push (lines_behind str) more
  unfolding behind
  lines_lem str more = added_behind str more

  no_line :
      (fuel : ℕ) (str : List ℕ) (devices : List Device)
      → str ≡ []
      → devices_loop strdup push (suc fuel) str true devices
        ≡ some (true, add_lines strdup push (split 10 str) devices)
  unfolding devices_loop
  no_line fuel str devices e = rw e (ap (λ l. some (true, l)) (sym (add_lines-nil devices)))

  no_header :
      (fuel : ℕ) (str : List ℕ)
      → str ≡ []
      → devices_loop strdup push (suc fuel) str false []
        ≡ some (from_header strdup push (split 10 str))
  unfolding devices_loop
  no_header fuel str e = rw e refl

  devices_loop-added :
      (fuel : ℕ) (str : List ℕ) (devices : List Device)
      → length str < fuel
      → devices_loop strdup push fuel str true devices
        ≡ some (true, add_lines strdup push (split 10 str) devices)
  devices_loop-added zero str devices h = absurd (omega arith)
  devices_loop-added (suc fuel) str devices h = elim (Bool-cases (length str == 0)) [
    | inl e ↦
        no_line fuel str devices (length-zero str (omega (arith, (==_iff (length str) 0).0 e)))
    | inr e ↦
        devices_loop-line fuel str devices e
        ∙ same_rest (parse_device strdup (without_cr (first str))) devices (λ more.
          devices_loop-added fuel (behind str) more (omega (arith, behind_shorter str e))
          ∙ ap (λ l. some (true, l)) (lines_lem str more))
        ∙ some_lines (parse_device strdup (without_cr (first str))) devices
            (λ more. add_lines strdup push (lines_behind str) more)
        ∙ ap (λ l. some (true, add_lines strdup push l devices)) (sym (split-first str))
  ]

  devices_loop-line_header :
      (fuel : ℕ) (str : List ℕ)
      → (length str == 0) ≡ false
      → devices_loop strdup push (suc fuel) str false [] ≡ (
          if starts_with (text "List of devices attached") (first str)
          then devices_loop strdup push fuel (behind str) true []
          else devices_loop strdup push fuel (behind str) false [])
  unfolding devices_loop first behind
  devices_loop-line_header fuel str h =
      rw (h, starts_with-line (text "List of devices attached") str refl) refl

  header_behind :
      (str : List ℕ)
      → from_header strdup push (split 10 (behind str)) ≡ from_header strdup push (lines_behind str)
  unfolding behind
  header_behind str = elim (Bool-cases (leb (length str) (strcspn (λ c. c == 10) str))) [
    | inl last ↦ rw last (
        ap (λ l. from_header strdup push (split 10 l))
          {x = drop (strcspn (λ c. c == 10) str + 1) str}
          (length-zero _
            (omega (arith, leb→le _ _ last, length-drop (strcspn (λ c. c == 10) str + 1) str))))
    | inr more ↦ rw more refl
  ]

  devices_loop-from_header :
      (fuel : ℕ) (str : List ℕ)
      → length str < fuel
      → devices_loop strdup push fuel str false [] ≡ some (from_header strdup push (split 10 str))
  devices_loop-from_header zero str h = absurd (omega arith)
  devices_loop-from_header (suc fuel) str h = elim (Bool-cases (length str == 0)) [
    | inl e ↦ no_header fuel str (length-zero str (omega (arith, (==_iff (length str) 0).0 e)))
    | inr e ↦
        devices_loop-line_header fuel str e
        ∙ elim (Bool-cases (starts_with (text "List of devices attached") (first str))) [
          | inl header ↦ rw header (
              devices_loop-added fuel (behind str) [] (omega (arith, behind_shorter str e))
              ∙ ap (λ l. some (true, l)) (lines_lem str [])
              ∙ sym (ap (λ l. some (from_header strdup push l)) (split-first str) ∙ rw header refl))
          | inr other ↦ rw other (
              devices_loop-from_header fuel (behind str) (omega (arith, behind_shorter str e))
              ∙ ap some (header_behind str)
              ∙ sym (ap (λ l. some (from_header strdup push l)) (split-first str) ∙ rw other refl))
        ]
  ]

  -- `sc_adb_parse_devices` ends. It skips the lines up to the first that starts with the header, and
  -- tells whether there is one; of each line behind it, without the carriage returns at its end, it
  -- adds the device, when the line has one and there is room, in order.
  pub parse_devices-from_header :
      (str : List ℕ) → parse_devices strdup push str ≡ some (from_header strdup push (split 10 str))
  unfolding parse_devices
  parse_devices-from_header str = devices_loop-from_header (suc (length str)) str (omega arith)
