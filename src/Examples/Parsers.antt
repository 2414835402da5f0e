-- ===== src/Examples/Parsers.antt =====
-- Texts that are joined, searched and parsed.
use droidctl.Base.{
  ℕ, ◌==◌, ◌≡◌, refl, arith, true, false, none, some, List, [], ◌∷◌, ◌++◌, get_elem?, replicate,
}
use droidctl.Base.Text.{text}
use droidctl.Str.Join.{str_join}
use droidctl.Str.Joined.{joined, fit, str_join-fit}
use droidctl.Str.Tokens.{list_contains, index_of_column}
use droidctl.Str.Listed.{split}
use droidctl.Str.Columns.{columns, index_of_column-columns}
use droidctl.AdbParser.Devices.{from_header, parse_devices-from_header}
use droidctl.AdbParser.{parse_devices, parse_device, is_device_state}
use droidctl.AdbParser.States.{no_blank, no_blank-IsToken}
use droidctl.AdbParser.Extras.{IsExtra, model_of}
use droidctl.AdbParser.Line.{line_of, parse_device-line_of}

str_join-fit_example :
    str_join (replicate 10 7) (text "abc" ∷ text "" ∷ text "def" ∷ []) 32 8
    ≡ fit (joined 32 (text "abc") (text "" ∷ text "def" ∷ [])) (replicate 10 7) 8
str_join-fit_example =
    str_join-fit (replicate 10 7) (text "abc") (text "" ∷ text "def" ∷ []) 32 8 (omega arith)
      (omega arith) (omega arith)

joined_truncated :
    str_join (replicate 10 7) (text "abc" ∷ text "" ∷ text "def" ∷ []) 32 8
    ≡ (8, text "abc  de" ++ (0 ∷ 7 ∷ 7 ∷ []))
unfolding str_join droidctl.Str.Join.join_loop droidctl.Str.Join.strncpy
joined_truncated = refl

-- The text goes on behind one of the tokens, and is none of them.
contains_longer : list_contains (text "a,bc,def") 44 (text "bcx") ≡ some true
unfolding list_contains droidctl.Str.Tokens.list_contains_loop
contains_longer = refl

-- With the separator '\0' a text that is not found is searched for behind the list.
contains_behind_the_end :
    (list_contains (text "xyz") 0 (text "xyz") ≡ some true)
    × (list_contains (text "xyz") 0 (text "abc") ≡ none)
unfolding list_contains droidctl.Str.Tokens.list_contains_loop
contains_behind_the_end = (refl, refl)

index_of_column-columns_example :
    index_of_column (text "abc def    ghi  jk") 3 (λ c. c == 32)
    ≡ some (get_elem? (columns (λ c. c == 32) (text "abc def    ghi  jk")) 3)
index_of_column-columns_example =
    index_of_column-columns (λ c. c == 32) (text "abc def    ghi  jk") 3

column_16 : index_of_column (text "abc def    ghi  jk") 3 (λ c. c == 32) ≡ some (some 16)
unfolding index_of_column droidctl.Str.Tokens.column_loop
column_16 = refl

extra : (w : List ℕ) → no_blank w ≡ true → is_device_state w ≡ false → IsExtra w
extra w h other = (no_blank-IsToken w h, other)

parse_device-line_of_example :
    parse_device
      (λ s. true)
      (line_of
        (text "my serial")
        (text "  ")
        (text "device")
        (text "usb:2-1" ∷ text "model:Pixel" ∷ text "x:1" ∷ []))
    ≡ some record {
      serial = text "my serial";
      state = text "device";
      model = model_of (text "usb:2-1" ∷ text "model:Pixel" ∷ text "x:1" ∷ []) none;
      selected = false;
    }
unfolding droidctl.AdbParser.is_device_state
parse_device-line_of_example =
    parse_device-line_of (λ s. true) (λ s. refl) (text "my serial") (text "  ") (text "device")
      (text "usb:2-1" ∷ text "model:Pixel" ∷ text "x:1" ∷ []) (omega arith, refl) (refl, (refl, tt))
      refl
      (
        extra (text "usb:2-1") refl refl,
        (extra (text "model:Pixel") refl refl, (extra (text "x:1") refl refl, tt)),
      )
      refl refl

-- A line of the daemon, the header, and a line that ends with a carriage return.
abbrev adb_output : List ℕ
adb_output =
    text "* daemon started"
    ++ (10 ∷ text "List of devices attached" ++ (10 ∷ text "0123 device model:X" ++ (13 ∷ 10 ∷ [])))

parse_devices-from_header_example :
    parse_devices (λ s. true) (λ n. true) adb_output
    ≡ some (from_header (λ s. true) (λ n. true) (split 10 adb_output))
parse_devices-from_header_example = parse_devices-from_header (λ s. true) (λ n. true) adb_output

one_device :
    parse_devices (λ s. true) (λ n. true) adb_output
    ≡ some (
      true,
      record {
        serial = text "0123";
        state = text "device";
        model = some (text "X");
        selected = false;
      }
          ∷ [],
    )
unfolding parse_devices droidctl.AdbParser.devices_loop parse_device droidctl.AdbParser.token_loop
    droidctl.AdbParser.locate_last_token droidctl.AdbParser.rstrip_len
    droidctl.AdbParser.token_start droidctl.AdbParser.is_device_state droidctl.AdbParser.device_of
    droidctl.Str.Tokens.remove_trailing_cr
one_device = refl
