-- ===== src/Receiver.antt =====
-- app/src/receiver.c: the thread that reads device messages from the control socket.
pub mod Rounds
pub mod Chunks
pub mod Errors
use droidctl.Base.{
  ℕ, zero, suc, ◌+◌, ◌^◌, Bool, Option, none, some, List, [], ◌∷◌, ◌++◌, length, take, drop,
}
use droidctl.Base.{ltb, ◌==◌, if◌then◌else◌}
use droidctl.DeviceMsg.{DeviceMsg, Outcome, incomplete, failed, parsed, deserialize}

abbrev pub device_msg_max_size : ℕ
device_msg_max_size = 2 ^ 18

-- What `process_msg` asks of the other components.
pub data Action : Type 0 where
  post_set_clipboard : (text : List ℕ) → Action
  acksync_ack : (sequence : ℕ) → Action
  post_uhid_output : (id size : ℕ) (bytes : List ℕ) → Action

-- `struct sc_receiver`, as far as messages depend on it: which mechanisms are configured.
pub record Config : Type 0 where
  pub acksync : Bool
  pub uhid_devices : Bool

-- `process_msg`, with memory for the tasks that it posts. A task that the main thread does not take
-- is dropped there, not here.
unfoldable pub process_msg : Config → DeviceMsg → List Action
process_msg config (DeviceMsg.clipboard text) = post_set_clipboard text ∷ []
process_msg config (DeviceMsg.ack_clipboard sequence) =
    if config.acksync then acksync_ack sequence ∷ [] else []
process_msg config (DeviceMsg.uhid_output id size bytes) =
    if config.uhid_devices then post_uhid_output id size bytes ∷ [] else []

module _ (malloc : ℕ → Bool) (config : Config) where
  -- `process_msgs` from `head` on: the actions in order, and the bytes consumed, or -1.
  unfoldable pub process_msgs : ℕ → List ℕ → ℕ → List Action × Option ℕ
  process_msgs zero buf head = ([], some head)
  process_msgs (suc fuel) buf head = elim (deserialize malloc (drop head buf)) [
    | failed ↦ ([], none)
    | incomplete ↦ ([], some head)
    | parsed msg r ↦
        let rest = process_msgs fuel buf (head + r) in
        let now = process_msg config msg in
        if head + r == length buf then (now, some (head + r)) else (now ++ rest.0, rest.1)
  ]

  -- A round of `run_receiver` after `net_recv` has put `chunk` behind the bytes that are left.
  -- Each message takes a byte at least, so the bytes are fuel enough.
  unfoldable pub receive : List ℕ → List ℕ → List Action × Option (List ℕ)
  receive left chunk =
      let buf = left ++ chunk in
      let result = process_msgs (length buf) buf 0 in
      elim (result.1) [
        | none ↦ (result.0, none)
        | some consumed ↦ (result.0, some (drop consumed buf))
      ]

  -- `run_receiver` over what the calls of `net_recv` return; the list ends where the socket does.
  -- The result is the actions, the bytes left in the buffer, and the `error` of `on_ended`.
  unfoldable pub run_receiver : List ℕ → List (List ℕ) → List Action × Option (List ℕ)
  run_receiver left [] = ([], some left)
  run_receiver left (chunk ∷ chunks) =
      let result = receive left chunk in
      elim (result.1) [
        | none ↦ (result.0, none)
        | some left ↦ let rest = run_receiver left chunks in (result.0 ++ rest.0, rest.1)
      ]
