-- ===== src/Controller/Threads.antt =====
-- app/src/controller.c: the threads that share a controller, as steps. Each step is a call of another
-- thread, or a round of `run_controller` with the `net_send_all` that ends it.
use droidctl.Base.{
  ℕ, ◌-◌, ◌^◌, ◌<◌, ◌≡◌, ◌≢◌, min, Bool, true, false, not, length, take, Option, none, some, List,
  [], ◌∷◌, ◌++◌, ◌==◌, if◌then◌else◌,
}
use droidctl.Floats.{Floats}
use droidctl.ControlMsg.{ControlMsg, type_code}
use droidctl.ControlMsg.Encoding.{IsValid}
use droidctl.Controller.{
  Controller, Processed, processed, not_processed, waiting, stopping, took, push_msg,
  resize_display, stop, next_msg, process_msg,
}

-- `SC_CONTROL_MSG_TYPE_RESIZE_DISPLAY`
abbrev pub resize_code : ℕ
resize_code = 21

-- How `net_send_all` of app/src/util/net.c ends: it sends all the bytes, or a `net_send` fails
-- behind the first `copied` of them.
pub data Sending : Type 0 where
  complete : Sending
  cut_off : (copied : ℕ) → Sending

abbrev pub all_sent : Sending → Bool
all_sent Sending.complete = true
all_sent (Sending.cut_off copied) = false

-- The bytes that reach the socket although `net_send_all` fails: not all of them.
abbrev pub copied_bytes : Sending → List ℕ → List ℕ
copied_bytes Sending.complete bytes = []
copied_bytes (Sending.cut_off copied) bytes = take (min copied (length bytes - 1)) bytes

module _ (floats : Floats) where
  -- The controller with what its thread has: the static buffer of `process_msg`, the bytes that
  -- the socket has got, and the `error` given to `on_ended`. The last four fields are the history:
  -- the messages that `push_msg` accepted, those sent, the one that could not be, and what the
  -- socket has got of that one.
  pub record Threads : Type 0 where
    pub controller : Controller floats.Float
    pub serialized_msg : List ℕ
    pub socket : List ℕ
    pub ended : Option Bool
    pub accepted : List (ControlMsg floats.Float)
    pub sent : List (ControlMsg floats.Float)
    pub lost : List (ControlMsg floats.Float)
    pub fragment : List ℕ

  -- What `run_controller` does with the message that it took.
  unfoldable pub finish :
      Threads → ControlMsg floats.Float → Sending → List ℕ × List ℕ × Processed → Threads
  finish t msg sending (buf, bytes, processed) = record t {
    serialized_msg = buf;
    socket = t.socket ++ bytes;
    sent = t.sent ++ (msg ∷ []);
  }
  finish t msg sending (buf, bytes, not_processed eos) = record t {
    serialized_msg = buf;
    socket = t.socket ++ copied_bytes sending bytes;
    ended = some (not eos);
    lost = msg ∷ [];
    fragment = copied_bytes sending bytes;
  }

  -- A round of `run_controller`. A thread that waits or has ended stays as it is; `none` is a read
  -- of memory that was not written or is out of bounds.
  unfoldable pub turn : Sending → Threads → Option Threads
  turn sending t = elim t.ended [
    | some error ↦ some t
    | none ↦ elim (next_msg t.controller) [
      | waiting ↦ some t
      | stopping ↦ some (record t { ended = some false })
      | took none controller ↦ none
      | took (some msg) controller ↦
          elim (process_msg floats t.serialized_msg msg (all_sent sending)) [
            | none ↦ none
            | some result ↦ some (finish (record t { controller = controller }) msg sending result)
          ]
    ]
  ]

  module _ (max_cap : ℕ) (alloc : ℕ → Bool) where
    -- The state after `push_msg`.
    unfoldable pub pushed : Threads → ControlMsg floats.Float → Threads
    pushed t msg =
        let result = push_msg max_cap alloc t.controller msg in
        record t {
          controller = result.1;
          accepted = if result.0 then t.accepted ++ (msg ∷ []) else t.accepted;
        }

    -- The steps of the program: the messages that the other threads push are valid and, as the
    -- assertions of the two functions have it, no display resize and no empty size.
    pub data Step (t : Threads) : Threads → Type 0 where
      push :
          (msg : ControlMsg floats.Float)
          → IsValid msg
          → (type_code msg == resize_code) ≡ false
          → Step t (pushed t msg)
      resize :
          (width height : ℕ)
          → width ≢ 0
          → width < 2 ^ 16
          → height < 2 ^ 16
          → Step t (record t { controller = resize_display t.controller width height })
      halt : Step t (record t { controller = stop t.controller })
      round : {t' : Threads} (sending : Sending) → turn sending t ≡ some t' → Step t t'

    -- The states that the steps lead to from a controller as `init` leaves it.
    pub data Reachable (start : Threads) : Threads → Type 0 where
      started : Reachable start start
      then_ : {t t' : Threads} → Reachable start t → Step t t' → Reachable start t'
