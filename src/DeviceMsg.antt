-- ===== src/DeviceMsg.antt =====
-- app/src/device_msg.{h,c}: the messages that the device sends to the client.
pub mod Writer
pub mod Stream
use droidctl.Base.{ℕ, ◌+◌, ◌-◌, Bool, List, [], ◌∷◌, length, take, drop, ltb, ◌==◌, if◌then◌else◌}
use droidctl.Binary.{byte, read16be, read32be, read64be}

-- `struct sc_device_msg`; a text is without its terminator.
pub data DeviceMsg : Type 0 where
  clipboard : (text : List ℕ) → DeviceMsg
  ack_clipboard : (sequence : ℕ) → DeviceMsg
  uhid_output : (id size : ℕ) (bytes : List ℕ) → DeviceMsg

-- The result of `sc_device_msg_deserialize`: 0, -1, or the message and the bytes consumed.
pub data Outcome : Type 0 where
  incomplete : Outcome
  failed : Outcome
  parsed : DeviceMsg → ℕ → Outcome

-- `malloc n` tells whether `n` bytes can be allocated.
module _ (malloc : ℕ → Bool) where
  unfoldable pub deserialize_clipboard : List ℕ → Outcome
  deserialize_clipboard buf =
      let len = length buf in
      if ltb len 5
      then incomplete
      else let clipboard_len = read32be (drop 1 buf) in
        if ltb (len - 5) clipboard_len
        then incomplete
        else if malloc (clipboard_len + 1)
        then parsed (clipboard (take clipboard_len (drop 5 buf))) (5 + clipboard_len)
        else failed

  unfoldable pub deserialize_ack : List ℕ → Outcome
  deserialize_ack buf =
      if ltb (length buf) 9 then incomplete else parsed (ack_clipboard (read64be (drop 1 buf))) 9

  unfoldable pub deserialize_uhid_output : List ℕ → Outcome
  deserialize_uhid_output buf =
      let len = length buf in
      if ltb len 5
      then incomplete
      else let id = read16be (drop 1 buf) in
        let size = read16be (drop 3 buf) in
        if ltb (len - 5) size
        then incomplete
        else if malloc size
        then parsed (uhid_output id size (take size (drop 5 buf))) (5 + size)
        else failed

  -- `sc_device_msg_deserialize` on the `len` bytes of `buf`.
  unfoldable pub deserialize : List ℕ → Outcome
  deserialize [] = incomplete
  deserialize (type ∷ rest) =
      let buf : List ℕ = type ∷ rest in
      if type == 0
      then deserialize_clipboard buf
      else if type == 1
      then deserialize_ack buf
      else if type == 2
      then deserialize_uhid_output buf
      else failed
