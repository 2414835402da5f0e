-- ===== src/AckSync/Calls.antt =====
-- What the calls of other threads leave of the state.
use droidctl.Base.{ℕ, ◌≤◌, ◌<◌, ◌≡◌, refl, true, false, List, [], ◌∷◌, ◌++◌, All, arith}
use droidctl.AckSync.{AckSync, Event, acked, interrupted, acknowledge, interrupt, apply, apply_all}

-- The acknowledgements among the calls do not go back, from `low` on, as `sc_acksync_ack` asserts.
abbrev pub Monotone : ℕ → List Event → Type 0
Monotone low [] = Unit {0}
Monotone low (acked sequence ∷ events) = low ≤ sequence × Monotone sequence events
Monotone low (interrupted ∷ events) = Monotone low events

-- An acknowledgement before `ack`, or one of `ack` or a later one.
pub data Before (ack : ℕ) : Event → Type 0 where
  early : {sequence : ℕ} → sequence < ack → Before ack (acked sequence)

pub data Among (Kind : Event → Type 0) : List Event → Type 0 where
  here : {event : Event} {events : List Event} → Kind event → Among Kind (event ∷ events)
  there : {event : Event} {events : List Event} → Among Kind events → Among Kind (event ∷ events)

pub data Acknowledges (ack : ℕ) : Event → Type 0 where
  reaches : {sequence : ℕ} → ack ≤ sequence → Acknowledges ack (acked sequence)

pub data IsInterrupted : Event → Type 0 where
  is_interrupted : IsInterrupted interrupted

pub data IsAcked : Event → Type 0 where
  is_acked : {sequence : ℕ} → IsAcked (acked sequence)

-- An interruption stays.
stopped_stays :
    (acksync : AckSync) (events : List Event)
    → acksync.stopped ≡ true
    → (apply_all acksync events).stopped ≡ true
unfolding acknowledge interrupt
stopped_stays acksync [] h = h
stopped_stays acksync (acked sequence ∷ events) h =
    stopped_stays (record acksync { ack = sequence }) events h
stopped_stays acksync (interrupted ∷ events) h =
    stopped_stays (record acksync { stopped = true }) events refl

pub interrupted_stops :
    (acksync : AckSync) (events : List Event)
    → Among IsInterrupted events
    → (apply_all acksync events).stopped ≡ true
unfolding acknowledge interrupt
interrupted_stops acksync _ (here {events = events} is_interrupted) =
    stopped_stays (record acksync { stopped = true }) events refl
interrupted_stops acksync _ (there {event} {events} more) =
    interrupted_stops (apply acksync event) events more

-- Calls before `ack` change neither answer.
pub still_waiting :
    (acksync : AckSync) (ack : ℕ) (events : List Event)
    → All (Before ack) events
    → acksync.stopped ≡ false
    → acksync.ack < ack
    → ((apply_all acksync events).stopped ≡ false) × (apply_all acksync events).ack < ack
unfolding acknowledge interrupt
still_waiting acksync ack [] before running behind = (running, behind)
still_waiting acksync ack (_ ∷ events) (early {sequence} lt, before) running behind =
    still_waiting (record acksync { ack = sequence }) ack events before running lt

pub acked_runs :
    (acksync : AckSync) (events : List Event)
    → All IsAcked events
    → acksync.stopped ≡ false
    → (apply_all acksync events).stopped ≡ false
unfolding acknowledge interrupt
acked_runs acksync [] all running = running
acked_runs acksync (_ ∷ events) (is_acked {sequence}, all) running =
    acked_runs (record acksync { ack = sequence }) events all running

ack_grows :
    (acksync : AckSync) (events : List Event)
    → Monotone acksync.ack events
    → acksync.ack ≤ (apply_all acksync events).ack
unfolding acknowledge interrupt
ack_grows acksync [] m = omega arith
ack_grows acksync (acked sequence ∷ events) m =
    omega (arith, m.0, ack_grows (record acksync { ack = sequence }) events m.1)
ack_grows acksync (interrupted ∷ events) m = ack_grows (record acksync { stopped = true }) events m

pub reached :
    (ack : ℕ) (acksync : AckSync) (events : List Event)
    → Monotone acksync.ack events
    → Among (Acknowledges ack) events
    → ack ≤ (apply_all acksync events).ack
unfolding acknowledge interrupt
reached ack acksync _ m (here {events = events} (reaches {sequence} le)) =
    omega (arith, le, ack_grows (record acksync { ack = sequence }) events m.1)
reached ack acksync (acked sequence ∷ events) m (there more) =
    reached ack (record acksync { ack = sequence }) events m.1 more
reached ack acksync (interrupted ∷ events) m (there more) =
    reached ack (record acksync { stopped = true }) events m more

pub Monotone-append :
    (acksync : AckSync) (events later : List Event)
    → Monotone acksync.ack (events ++ later)
    → (Monotone acksync.ack events) × Monotone (apply_all acksync events).ack later
unfolding acknowledge interrupt
Monotone-append acksync [] later m = (tt, m)
Monotone-append acksync (acked sequence ∷ events) later m =
    let (now, then_) = Monotone-append (record acksync { ack = sequence }) events later m.1 in
    ((m.0, now), then_)
Monotone-append acksync (interrupted ∷ events) later m =
    Monotone-append (record acksync { stopped = true }) events later m
