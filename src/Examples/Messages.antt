-- ===== src/Examples/Messages.antt =====
-- Messages of both directions.
use droidctl.Base.{
  ℕ, ◌+◌, ◌≡◌, ◌≤◌, ◌<◌, ◌^◌, refl, none, some, true, List, [], ◌∷◌, ◌++◌, length, drop, take,
  replicate, length-replicate, arith,
}
use droidctl.Base.Int.{pos}
use droidctl.Binary.{write16be, write64be}
use droidctl.ControlMsg.{ControlMsg, control_msg_max_size, serialize}
use droidctl.ControlMsg.Encoding.{encoding, IsValid}
use droidctl.ControlMsg.Wire.{serialize-encoding}
use droidctl.ControlMsg.Within.{serialize_within}
use droidctl.ControlMsg.Reader.{read}
use droidctl.ControlMsg.RoundTrip.{read-encoding}
use droidctl.ControlMsg.RoundTrip as round_trip
use droidctl.DeviceMsg.{DeviceMsg, deserialize, incomplete, parsed}
use droidctl.DeviceMsg.Writer.{DeviceMessage, write}
use droidctl.DeviceMsg.Stream.{Frame, received, write-Frame, deserialize-Frame, deserialize_cut}
use droidctl.Receiver.{Config, run_receiver, device_msg_max_size}
use droidctl.Receiver.Rounds.{Frames, actions}
use droidctl.Receiver.Chunks.{run_receiver_whole, run_receiver_part}
use droidctl.Receiver.Errors.{run_receiver_unknown}
use droidctl.Str.{is_continuation}
use droidctl.Examples.Numbers.{fixed}

-- A scroll by half a notch to the left and two and a quarter down.
abbrev pub scroll : ControlMsg (fixed.Float)
scroll =
    ControlMsg.inject_scroll_event record { x = pos 100; y = pos 200; width = 1080; height = 1920 }
      (pos (2 ^ 19)) (pos (2 ^ 21 + 2 ^ 18)) 1

abbrev pub paste : ControlMsg (fixed.Float)
paste = ControlMsg.set_clipboard 42 (some (104 ∷ 105 ∷ [])) true

pub paste-IsValid : IsValid paste
unfolding is_continuation
paste-IsValid = (omega arith, refl)

pub scroll-IsValid : IsValid scroll
scroll-IsValid = (
  ((omega arith, omega arith), (omega arith, omega arith), omega arith, omega arith),
  omega arith,
)

abbrev memory : List ℕ
memory = replicate control_msg_max_size 0

serialize-encoding_example :
    serialize fixed paste memory
    ≡ some (
      encoding fixed paste ++ drop (length (encoding fixed paste)) memory,
      length (encoding fixed paste),
    )
serialize-encoding_example =
    serialize-encoding fixed memory (omega (arith, length-replicate {A = ℕ} control_msg_max_size 0))
      paste paste-IsValid

serialize_within_example :
    (out : List ℕ) × (n : ℕ) × (serialize fixed paste (replicate control_msg_max_size 7)
      ≡ some (out, n))
    × (1 ≤ n)
    × (n ≤ control_msg_max_size)
    × (drop n out ≡ drop n (replicate control_msg_max_size 7))
serialize_within_example =
    serialize_within fixed (replicate control_msg_max_size 7) paste
      (omega (arith, length-replicate {A = ℕ} control_msg_max_size 7)) paste-IsValid

read-encoding_example :
    read fixed (λ bytes. bytes) (encoding fixed paste ++ (9 ∷ []))
    ≡ some (round_trip.received fixed (λ bytes. bytes) paste, 9 ∷ [])
read-encoding_example = read-encoding fixed (λ bytes. bytes) paste (9 ∷ []) paste-IsValid

abbrev output : List ℕ
output = 2 ∷ (write16be 3 ++ (write16be 2 ++ (10 ∷ 11 ∷ [])))

output-Frame : Frame output (DeviceMsg.uhid_output 3 2 (10 ∷ 11 ∷ []))
output-Frame = Frame.uhid_output 3 (10 ∷ 11 ∷ []) (omega arith) (omega arith)

write-Frame_example :
    (sent : List ℕ) × (write (DeviceMessage.uhid_output 3 (10 ∷ 11 ∷ [])) ≡ some sent)
    × Frame sent (received (DeviceMessage.uhid_output 3 (10 ∷ 11 ∷ [])))
write-Frame_example =
    write-Frame (DeviceMessage.uhid_output 3 (10 ∷ 11 ∷ [])) (omega arith, omega arith)

deserialize-Frame_example :
    deserialize (λ n. true) (output ++ (1 ∷ []))
    ≡ parsed (DeviceMsg.uhid_output 3 2 (10 ∷ 11 ∷ [])) (length output)
deserialize-Frame_example = deserialize-Frame (λ n. true) (λ n h. refl) (1 ∷ []) output-Frame

deserialize_cut_example : deserialize (λ n. true) (take 6 output) ≡ incomplete
unfolding write16be
deserialize_cut_example = deserialize_cut (λ n. true) (λ n h. refl) 6 output-Frame (omega arith)

abbrev config : Config
config = record { acksync = true; uhid_devices = true }

abbrev ack : List ℕ
ack = 1 ∷ write64be 42

both-Frames :
    Frames
      (output ++ (ack ++ []))
      (DeviceMsg.uhid_output 3 2 (10 ∷ 11 ∷ []) ∷ DeviceMsg.ack_clipboard 42 ∷ [])
both-Frames =
    Frames.cons output-Frame (Frames.cons (Frame.ack_clipboard 42 (omega arith)) Frames.nil)

run_receiver_whole_example : run_receiver (λ n. true) config [] (output ∷ ack ∷ []) ≡ (
  actions config (DeviceMsg.uhid_output 3 2 (10 ∷ 11 ∷ []) ∷ DeviceMsg.ack_clipboard 42 ∷ []),
  some [],
)
run_receiver_whole_example =
    run_receiver_whole (λ n. true) (λ n h. refl) config (output ∷ ack ∷ []) _ both-Frames

run_receiver_part_example :
    (done todo : List DeviceMsg) × (left : List ℕ) × ((DeviceMsg.uhid_output 3 2 (10 ∷ 11 ∷ [])
        ∷ DeviceMsg.ack_clipboard 42
        ∷ [])
      ≡ done ++ todo)
    × (run_receiver (λ n. true) config [] (output ∷ []) ≡ (actions config done, some left))
    × (length left < device_msg_max_size)
unfolding write16be
run_receiver_part_example =
    run_receiver_part (λ n. true) (λ n h. refl) config (output ∷ []) (ack ++ []) _ both-Frames

-- The second chunk ends the messages and brings a byte that is no type.
run_receiver_unknown_example :
    run_receiver (λ n. true) config [] (output ∷ ((ack ++ []) ++ (7 ∷ 1 ∷ [])) ∷ (1 ∷ []) ∷ []) ≡ (
      actions config (DeviceMsg.uhid_output 3 2 (10 ∷ 11 ∷ []) ∷ DeviceMsg.ack_clipboard 42 ∷ []),
      none,
    )
unfolding write16be
run_receiver_unknown_example =
    run_receiver_unknown (λ n. true) (λ n h. refl) config (output ∷ []) (ack ++ []) 7 (1 ∷ [])
      ((1 ∷ []) ∷ []) _ both-Frames (omega arith)
