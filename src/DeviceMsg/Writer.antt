-- ===== src/DeviceMsg/Writer.antt =====
-- server/src/main/java/com/genymobile/scrcpy/control/DeviceMessageWriter.java: the device's end.
use droidctl.Base.{ℕ, ◌-◌, ◌<◌, ◌^◌, Option, none, some, List, ◌∷◌, ◌++◌, length, take}
use droidctl.Binary.{u16, u32, write16be, write32be, write64be}
use droidctl.Str.{utf8_truncation_index}
use droidctl.Str.Truncation.{StartsCodepoint}

abbrev pub message_max_size : ℕ
message_max_size = 2 ^ 18

-- type: 1 byte; length: 4 bytes
abbrev pub clipboard_text_max_length : ℕ
clipboard_text_max_length = message_max_size - 5

-- `DeviceMessage`; a text is its bytes in UTF-8, and a `long` its bit pattern.
pub data DeviceMessage : Type 0 where
  clipboard : (raw : List ℕ) → DeviceMessage
  ack_clipboard : (sequence : ℕ) → DeviceMessage
  uhid_output : (id : ℕ) (bytes : List ℕ) → DeviceMessage

-- What `write` sends. `StringUtils.getUtf8TruncationIndex` is line by line the client's
-- `sc_str_utf8_truncation_index`; `none` is its exception, on a text that no codepoint starts.
unfoldable pub write : DeviceMessage → Option (List ℕ)
write (DeviceMessage.clipboard raw) = elim (utf8_truncation_index raw clipboard_text_max_length) [
  | none ↦ none
  | some len ↦ some (0 ∷ (write32be (u32 len) ++ take len raw))
]
write (DeviceMessage.ack_clipboard sequence) = some (1 ∷ write64be sequence)
write (DeviceMessage.uhid_output id bytes) =
    some (2 ∷ (write16be (u16 id) ++ (write16be (u16 (length bytes)) ++ bytes)))

abbrev pub IsValid : DeviceMessage → Type 0
IsValid (DeviceMessage.clipboard raw) = StartsCodepoint raw
IsValid (DeviceMessage.ack_clipboard sequence) = sequence < 2 ^ 64
IsValid (DeviceMessage.uhid_output id bytes) = (id < 2 ^ 16) × (length bytes < 2 ^ 16)
