-- ===== src/AckSync.antt =====
-- app/src/util/acksync.c: waiting for the acknowledgement of a clipboard change.
pub mod Calls
pub mod Waits
use droidctl.Base.{
  ℕ, Bool, true, false, not, ◌&&◌, Option, none, some, List, [], ◌∷◌, ltb, leb, if◌then◌else◌,
}

-- `SC_SEQUENCE_INVALID`
abbrev pub sequence_invalid : ℕ
sequence_invalid = 0

pub record AckSync : Type 0 where
  pub stopped : Bool
  pub ack : ℕ

pub data WaitResult : Type 0 where
  ok timeout intr : WaitResult

unfoldable pub init : AckSync
init = record { stopped = false; ack = sequence_invalid }

-- Without the assertion that acknowledgements do not go back.
unfoldable pub acknowledge : AckSync → ℕ → AckSync
acknowledge acksync sequence = record acksync { ack = sequence }

unfoldable pub interrupt : AckSync → AckSync
interrupt acksync = record acksync { stopped = true }

-- A call of another thread.
pub data Event : Type 0 where
  acked : (sequence : ℕ) → Event
  interrupted : Event

abbrev pub apply : AckSync → Event → AckSync
apply acksync (acked sequence) = acknowledge acksync sequence
apply acksync interrupted = interrupt acksync

abbrev pub apply_all : AckSync → List Event → AckSync
apply_all acksync [] = acksync
apply_all acksync (event ∷ events) = apply_all (apply acksync event) events

-- A `sc_cond_timedwait`: the calls of other threads until it has the mutex again, which may be more
-- than the one that wakes it up, or none; and whether it returns since the deadline is over.
pub record Wakeup : Type 0 where
  pub events : List Event
  pub timed_out : Bool

abbrev pub result : AckSync → ℕ → WaitResult
result acksync ack = if acksync.stopped then intr else if leb ack acksync.ack then ok else timeout

-- The loop of `sc_acksync_wait`, over the wake-ups to come; `none` is that it still waits.
unfoldable pub wait_loop : AckSync → ℕ → Bool → List Wakeup → Option WaitResult
wait_loop acksync ack timed_out [] =
    if not acksync.stopped && ltb acksync.ack ack && not timed_out
    then none
    else some (result acksync ack)
wait_loop acksync ack timed_out (wakeup ∷ wakeups) =
    let rest = wait_loop (apply_all acksync wakeup.events) ack wakeup.timed_out wakeups in
    if not acksync.stopped && ltb acksync.ack ack && not timed_out
    then rest
    else some (result acksync ack)

unfoldable pub wait : AckSync → ℕ → List Wakeup → Option WaitResult
wait acksync ack wakeups = wait_loop acksync ack false wakeups
