-- ===== src/AdbParser.antt =====
-- app/src/adb/adb_parser.c: devices and addresses in what adb prints. A `char *` is the list of the
-- bytes before its terminator.
pub mod Tokens
pub mod States
pub mod Extras
pub mod Line
pub mod Returns
pub mod FirstLine
pub mod Devices
use droidctl.Base.{
  ℕ, zero, suc, ◌+◌, ◌-◌, Bool, true, false, not, ◌&&◌, ◌||◌, Option, none, some, List, [], ◌∷◌,
  ◌++◌, length, get_or, take, drop, leb, ◌==◌, if◌then◌else◌,
}
use droidctl.Base.Text.{text, same_text, starts_with}
use droidctl.Str.Tokens.{strcspn, index_of_column, remove_trailing_cr}

-- A space or a tab.
abbrev pub is_blank : ℕ → Bool
is_blank c = c == 32 || c == 9

unfoldable pub rstrip_len : List ℕ → ℕ → ℕ
rstrip_len s zero = zero
rstrip_len s (suc i) = let rest = rstrip_len s i in if is_blank (get_or s i 0) then rest else suc i

-- The second loop of `locate_last_token`.
unfoldable pub token_start : List ℕ → ℕ → ℕ
token_start s zero = zero
token_start s (suc i) =
    let rest = token_start s i in if is_blank (get_or s i 0) then suc i else rest

-- `start` and `end`.
unfoldable pub locate_last_token : List ℕ → ℕ → ℕ × ℕ
locate_last_token s len = let end = rstrip_len s len in (token_start s end, end)

unfoldable pub is_device_state : List ℕ → Bool
is_device_state s =
    same_text s (text "device")
    || same_text s (text "unauthorized")
    || same_text s (text "offline")
    || same_text s (text "bootloader")
    || same_text s (text "host")
    || same_text s (text "recovery")
    || same_text s (text "rescue")
    || same_text s (text "sideload")
    || same_text s (text "authorizing")
    || same_text s (text "connecting")
    || same_text s (text "detached")

-- `struct sc_adb_device`
pub record Device : Type 0 where
  pub serial : List ℕ
  pub state : List ℕ
  pub model : Option (List ℕ)
  pub selected : Bool

-- What the loop over the tokens, from the last, has found when it meets the state: where that
-- starts, the state and the model.
pub record Found : Type 0 where
  pub start : ℕ
  pub state : List ℕ
  pub model : Option (List ℕ)

-- `none` is the return of false when no token is left. Each round but the last shortens the line.
unfoldable pub token_loop : ℕ → List ℕ → ℕ → Option (List ℕ) → Option Found
token_loop zero line len model = none
token_loop (suc fuel) line len model =
    let (start, end) = locate_last_token line len in
    let token = take (end - start) (drop start line) in
    let with_model = token_loop fuel line start (some (drop 6 token)) in
    let without = token_loop fuel line start model in
    if start == end
    then none
    else if starts_with (text "model:") token
    then with_model
    else if is_device_state token
    then some record { start = start; state = token; model = model }
    else without

module _ (strdup : List ℕ → Bool) where
  -- The device, once the state is found. `strdup` tells whether there is memory for a copy.
  unfoldable pub device_of : List ℕ → Found → Option Device
  device_of line found =
      let serial_len = rstrip_len line found.start in
      let serial = take serial_len line in
      if serial_len == 0
      then none
      else if not (strdup serial)
      then none
      else if not (strdup found.state)
      then none
      else some record {
        serial = serial;
        state = found.state;
        model = elim found.model [
          | none ↦ none
          | some model ↦ if strdup model then some model else none
        ];
        selected = false;
      }

  unfoldable pub parse_device : List ℕ → Option Device
  parse_device line =
      if get_or line 0 0 == 42
      then none
      else if starts_with (text "adb server") line
      then none
      else elim (token_loop (suc (length line)) line (length line) none) [
        | none ↦ none
        | some found ↦ device_of line found
      ]

  -- The loop of `sc_adb_parse_devices` over the rest of the output. `push` tells, for a vector of
  -- some size, whether one more device can be added. `none` is a loop that still runs.
  unfoldable pub devices_loop :
      (ℕ → Bool) → ℕ → List ℕ → Bool → List Device → Option (Bool × List Device)
  devices_loop push zero str header_found devices = none
  devices_loop push (suc fuel) str header_found devices =
      let len = strcspn (λ c. c == 10) str in
      let rest = drop (len + 1) str in
      let line = take (remove_trailing_cr str len).0 str in
      let skipped = devices_loop push fuel rest header_found devices in
      let header = devices_loop push fuel rest true devices in
      let added : Option (Bool × List Device) = elim (parse_device line) [
        | none ↦ skipped
        | some device ↦
            let more = devices_loop push fuel rest header_found (devices ++ (device ∷ [])) in
            if push (length devices) then more else skipped
      ] in
      if length str == 0
      then some (header_found, devices)
      else if not header_found
      then (if starts_with (text "List of devices attached") str then header else skipped)
      else added

  unfoldable pub parse_devices : (ℕ → Bool) → List ℕ → Option (Bool × List Device)
  parse_devices push str = devices_loop push (suc (length str)) str false []

  unfoldable pub parse_device_ip_from_line : List ℕ → Option (List ℕ)
  parse_device_ip_from_line line = elim (index_of_column line 2 (λ c. c == 32)) [
    | none ↦ none
    | some none ↦ none
    | some (some idx_dev_name) ↦ elim (index_of_column (drop idx_dev_name line) 6 (λ c. c == 32)) [
      | none ↦ none
      | some none ↦ none
      | some (some idx_ip) ↦
          let dev_name = drop idx_dev_name line in
          let dev_name = take (strcspn is_blank dev_name) dev_name in
          let ip = drop (idx_ip + idx_dev_name) line in
          let ip = take (strcspn is_blank ip) ip in
          if not (starts_with (text "wlan") dev_name)
          then none
          else if strdup ip
          then some ip
          else none
    ]
  ]

  -- The loop of `sc_adb_parse_device_ip`; the outer `none` is a loop that still runs.
  unfoldable pub ip_loop : ℕ → List ℕ → Option (Option (List ℕ))
  ip_loop zero str = none
  ip_loop (suc fuel) str =
      let len = strcspn (λ c. c == 10) str in
      let line = take (remove_trailing_cr str len).0 str in
      let next = ip_loop fuel (drop (len + 1) str) in
      if length str == 0 then some none else elim (parse_device_ip_from_line line) [
        | some ip ↦ some (some ip)
        | none ↦ if leb (length str) len then some none else next
      ]

  unfoldable pub parse_device_ip : List ℕ → Option (Option (List ℕ))
  parse_device_ip str = ip_loop (suc (length str)) str
