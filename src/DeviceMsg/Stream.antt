-- ===== src/DeviceMsg/Stream.antt =====
-- The client reads back what the device writes, and waits for the end of a message cut short.
use droidctl.Base.{ℕ, ◌+◌, ◌≤◌, ◌<◌, ◌^◌, ◌≡◌, refl, ap, ap₂, ◌∙◌, Bool, true, none, some}
use droidctl.Base.{List, [], ◌∷◌, ◌++◌, length, take, zero, suc, arith, length-append, length-take}
use droidctl.Base.{take-append_left}
use droidctl.Binary.{u16, u32, write16be, write32be, write64be}
use droidctl.Binary.RoundTrip.{read16be-write16be, read32be-write32be, read64be-write64be}
use droidctl.Str.{utf8_truncation_index}
use droidctl.Str.Truncation.{utf8_truncation_index_total}
use droidctl.DeviceMsg.{DeviceMsg, incomplete, parsed, deserialize}
use droidctl.DeviceMsg.{deserialize_clipboard, deserialize_ack, deserialize_uhid_output}
use droidctl.DeviceMsg.Writer.{
  DeviceMessage, write, IsValid, clipboard_text_max_length, message_max_size,
}

-- The three formats, each with the message that it stands for.
pub data Frame : List ℕ → DeviceMsg → Type 0 where
  clipboard :
      (text : List ℕ)
      → length text ≤ clipboard_text_max_length
      → Frame (0 ∷ (write32be (length text) ++ text)) (DeviceMsg.clipboard text)
  ack_clipboard :
      (sequence : ℕ)
      → sequence < 2 ^ 64
      → Frame (1 ∷ write64be sequence) (DeviceMsg.ack_clipboard sequence)
  uhid_output :
      (id : ℕ) (bytes : List ℕ)
      → id < 2 ^ 16
      → length bytes < 2 ^ 16
      → Frame
          (2 ∷ (write16be id ++ (write16be (length bytes) ++ bytes)))
          (DeviceMsg.uhid_output id (length bytes) bytes)

-- What the writer sends of a valid message is such a frame.
pub received : DeviceMessage → DeviceMsg
received (DeviceMessage.clipboard raw) =
    elim (utf8_truncation_index raw clipboard_text_max_length) [
      | none ↦ DeviceMsg.clipboard []
      | some len ↦ DeviceMsg.clipboard (take len raw)
    ]
received (DeviceMessage.ack_clipboard sequence) = DeviceMsg.ack_clipboard sequence
received (DeviceMessage.uhid_output id bytes) = DeviceMsg.uhid_output id (length bytes) bytes

-- What the device writes for a valid message is a frame that the client reads, of that message with
-- its text cut to the maximal length.
pub write-Frame :
    (msg : DeviceMessage)
    → IsValid msg
    → (sent : List ℕ) × (write msg ≡ some sent) × Frame sent (received msg)
unfolding write received
write-Frame (DeviceMessage.clipboard raw) v =
    let (len, e, le, inside) = utf8_truncation_index_total raw clipboard_text_max_length v in
    let full : length (take len raw) ≡ len = omega (arith, length-take len raw) in
    let short : u32 len ≡ length (take len raw) = omega (arith, full) in
    (
      0 ∷ (write32be (length (take len raw)) ++ take len raw),
      rw (e, write) (ap (λ n. some (0 ∷ (write32be n ++ take len raw))) short),
      rw (e, received) (Frame.clipboard (take len raw) (omega (arith, full))),
    )
write-Frame (DeviceMessage.ack_clipboard sequence) v = (_, refl, Frame.ack_clipboard sequence v)
write-Frame (DeviceMessage.uhid_output id bytes) v =
    let same_id : u16 id ≡ id = omega (arith, v.0) in
    let same_length : u16 (length bytes) ≡ length bytes = omega (arith, v.1) in
    (
      2 ∷ (write16be id ++ (write16be (length bytes) ++ bytes)),
      ap₂ (λ i n. some (2 ∷ (write16be i ++ (write16be n ++ bytes)))) same_id same_length,
      Frame.uhid_output id bytes v.0 v.1,
    )

length-write64be : (v : ℕ) → length (write64be v) ≡ 8
unfolding write64be write32be
length-write64be v = refl

module _ (malloc : ℕ → Bool) (memory : (n : ℕ) → n ≤ message_max_size → malloc n ≡ true) where
  clipboard-parsed :
      (text rest : List ℕ)
      → length text ≤ clipboard_text_max_length
      → deserialize_clipboard malloc (0 ∷ (write32be (length text) ++ (text ++ rest)))
        ≡ parsed (DeviceMsg.clipboard text) (5 + length text)
  unfolding deserialize_clipboard write32be
  clipboard-parsed text rest h = ground (
    arith,
    read32be-write32be (length text) (text ++ rest) (omega arith),
    length-append text rest,
    take-append_left text rest (length text) refl,
    memory (length text + 1) (omega arith),
  )

  uhid_output-parsed :
      (id : ℕ) (bytes rest : List ℕ)
      → id < 2 ^ 16
      → length bytes < 2 ^ 16
      → deserialize_uhid_output malloc
          (2 ∷ (write16be id ++ (write16be (length bytes) ++ (bytes ++ rest))))
        ≡ parsed (DeviceMsg.uhid_output id (length bytes) bytes) (5 + length bytes)
  unfolding deserialize_uhid_output write16be
  uhid_output-parsed id bytes rest hid h = ground (
    arith,
    read16be-write16be id (write16be (length bytes) ++ (bytes ++ rest)) hid,
    read16be-write16be (length bytes) (bytes ++ rest) h,
    length-append bytes rest,
    take-append_left bytes rest (length bytes) refl,
    memory (length bytes) (omega arith),
  )

  ack-parsed :
      (sequence : ℕ) (rest : List ℕ)
      → sequence < 2 ^ 64
      → deserialize_ack malloc (1 ∷ (write64be sequence ++ rest))
        ≡ parsed (DeviceMsg.ack_clipboard sequence) 9
  unfolding deserialize_ack write64be write32be
  ack-parsed sequence rest h = ground (arith, read64be-write64be sequence rest h)

  -- A whole message is read, whatever follows it, and its bytes are consumed.
  pub deserialize-Frame :
      {sent : List ℕ} {msg : DeviceMsg} (rest : List ℕ)
      → Frame sent msg
      → deserialize malloc (sent ++ rest) ≡ parsed msg (length sent)
  unfolding deserialize write32be write16be
  deserialize-Frame rest (Frame.clipboard text h) =
      clipboard-parsed text rest h
      ∙ ap (parsed (DeviceMsg.clipboard text)) {x = 5 + length text} (omega arith)
  deserialize-Frame rest (Frame.ack_clipboard sequence h) =
      ack-parsed sequence rest h ∙ ap (parsed (DeviceMsg.ack_clipboard sequence)) nine
    where
      nine : ◌≡◌ {A = ℕ} 9 (suc (length (write64be sequence)))
      nine = omega (arith, length-write64be sequence)
  deserialize-Frame rest (Frame.uhid_output id bytes hid h) =
      uhid_output-parsed id bytes rest hid h
      ∙ ap (parsed (DeviceMsg.uhid_output id (length bytes) bytes)) {x = 5 + length bytes}
          (omega arith)

  clipboard-cut :
      (text : List ℕ) (k : ℕ)
      → length text ≤ clipboard_text_max_length
      → k < length (write32be (length text) ++ text)
      → deserialize_clipboard malloc (0 ∷ take k (write32be (length text) ++ text)) ≡ incomplete
  unfolding deserialize_clipboard write32be
  clipboard-cut text zero le h = refl
  clipboard-cut text (suc zero) le h = refl
  clipboard-cut text (suc (suc zero)) le h = refl
  clipboard-cut text (suc (suc (suc zero))) le h = refl
  clipboard-cut text (suc (suc (suc (suc k)))) le h =
      ground
        (arith, read32be-write32be (length text) (take k text) (omega arith), length-take k text)

  ack-cut :
      (sequence k : ℕ)
      → k < length (write64be sequence)
      → deserialize_ack malloc (1 ∷ take k (write64be sequence)) ≡ incomplete
  unfolding deserialize_ack
  ack-cut sequence k h =
      ground (arith, length-take k (write64be sequence), length-write64be sequence)

  uhid_output-cut :
      (id : ℕ) (bytes : List ℕ) (k : ℕ)
      → length bytes < 2 ^ 16
      → k < length (write16be id ++ (write16be (length bytes) ++ bytes))
      → deserialize_uhid_output malloc
          (2 ∷ take k (write16be id ++ (write16be (length bytes) ++ bytes)))
        ≡ incomplete
  unfolding deserialize_uhid_output write16be
  uhid_output-cut id bytes zero hid h = refl
  uhid_output-cut id bytes (suc zero) hid h = refl
  uhid_output-cut id bytes (suc (suc zero)) hid h = refl
  uhid_output-cut id bytes (suc (suc (suc zero))) hid h = refl
  uhid_output-cut id bytes (suc (suc (suc (suc k)))) lt h =
      ground (arith, read16be-write16be (length bytes) (take k bytes) lt, length-take k bytes)

  -- A message that is cut short is not read, and is no error.
  pub deserialize_cut :
      {sent : List ℕ} {msg : DeviceMsg} (k : ℕ)
      → Frame sent msg
      → k < length sent
      → deserialize malloc (take k sent) ≡ incomplete
  unfolding deserialize write32be write16be write64be
  deserialize_cut zero f h = refl
  deserialize_cut (suc k) (Frame.clipboard text le) h = clipboard-cut text k le (omega arith)
  deserialize_cut (suc k) (Frame.ack_clipboard sequence lt) h = ack-cut sequence k (omega arith)
  deserialize_cut (suc k) (Frame.uhid_output id bytes hid lt) h =
      uhid_output-cut id bytes k lt (omega arith)
