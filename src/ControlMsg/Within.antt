-- ===== src/ControlMsg/Within.antt =====
-- The bounds of what `sc_control_msg_serialize` writes.
use droidctl.Base.{ℕ, ◌≤◌, ◌≡◌, refl, some, List, ◌++◌, length, drop, drop-append_left}
use droidctl.Floats.{Floats}
use droidctl.ControlMsg.{ControlMsg, control_msg_max_size, serialize}
use droidctl.ControlMsg.Encoding.{encoding, IsValid}
use droidctl.ControlMsg.Wire.{serialize-encoding, length-encoding}

-- In a buffer of the maximal size or more, `sc_control_msg_serialize` on a valid message returns a
-- size that is not 0, which stands for a failure, and at most the maximal size; and the bytes of the
-- buffer behind that size are as they were.
pub serialize_within :
    (floats : Floats) (buf : List ℕ) (msg : ControlMsg floats.Float)
    → control_msg_max_size ≤ length buf
    → IsValid msg
    → (out : List ℕ) × (n : ℕ) × (serialize floats msg buf ≡ some (out, n))
      × (1 ≤ n)
      × (n ≤ control_msg_max_size)
      × (drop n out ≡ drop n buf)
serialize_within floats buf msg room v =
    let size = length-encoding floats msg v in
    (
      encoding floats msg ++ drop (length (encoding floats msg)) buf,
      length (encoding floats msg),
      serialize-encoding floats buf room msg v,
      size.0,
      size.1,
      drop-append_left (encoding floats msg) (drop (length (encoding floats msg)) buf) _ refl,
    )
