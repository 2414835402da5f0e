-- ===== src/Controller/Send.antt =====
-- What the controller's thread gives to the socket for a message.
use droidctl.Base.{
  ℕ, ◌≤◌, ◌≡◌, refl, ap, Bool, true, false, some, List, ◌++◌, length, take, drop, if◌then◌else◌,
  eqb_ne, ◌==◌, arith,
}
use droidctl.Base.{take-append_left, length-append, length-drop}
use droidctl.Floats.{Floats}
use droidctl.ControlMsg.{ControlMsg, control_msg_max_size}
use droidctl.ControlMsg.Encoding.{encoding, IsValid}
use droidctl.ControlMsg.Wire.{serialize-encoding, length-encoding}
use droidctl.Controller.{processed, not_processed, process_msg}

not_empty :
    (floats : Floats) (msg : ControlMsg floats.Float)
    → IsValid msg
    → (length (encoding floats msg) == 0) ≡ false
not_empty floats msg v = eqb_ne _ 0 (omega (arith, (length-encoding floats msg v).0))

-- The static buffer after a message.
abbrev pub overwritten : (floats : Floats) → List ℕ → ControlMsg floats.Float → List ℕ
overwritten floats buf msg = encoding floats msg ++ drop (length (encoding floats msg)) buf

module _ (floats : Floats) (buf : List ℕ) (room : control_msg_max_size ≤ length buf) where
  open floats use {Float}

  pub length-overwritten :
      (msg : ControlMsg Float) → IsValid msg → length (overwritten floats buf msg) ≡ length buf
  length-overwritten msg v = omega (
    arith,
    length-append (encoding floats msg) (drop (length (encoding floats msg)) buf),
    length-drop (length (encoding floats msg)) buf,
    (length-encoding floats msg v).1,
  )

  sent :
      (msg : ControlMsg Float)
      → take (length (encoding floats msg)) (overwritten floats buf msg) ≡ encoding floats msg
  sent msg = take-append_left (encoding floats msg) (drop (length (encoding floats msg)) buf) _ refl

  -- `process_msg` on a valid message gives exactly the wire format of the message to `net_send_all`,
  -- whatever an earlier message has left in the static buffer, and fails with `eos` if and only if
  -- that fails.
  pub process_msg-encoding :
      (msg : ControlMsg Float) (all_sent : Bool)
      → IsValid msg
      → process_msg floats buf msg all_sent
        ≡ some (
          overwritten floats buf msg,
          encoding floats msg,
          if all_sent then processed else not_processed true,
        )
  unfolding process_msg
  process_msg-encoding msg true v =
      rw (process_msg, serialize-encoding floats buf room msg v, not_empty floats msg v)
        (ap (λ b. some (overwritten floats buf msg, b, processed)) (sent msg))
  process_msg-encoding msg false v =
      rw (process_msg, serialize-encoding floats buf room msg v, not_empty floats msg v)
        (ap (λ b. some (overwritten floats buf msg, b, not_processed true)) (sent msg))
