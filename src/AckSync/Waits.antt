-- ===== src/AckSync/Waits.antt =====
-- How a wait for an acknowledgement ends.
use droidctl.Base.{
  ℕ, ◌≤◌, ◌<◌, ◌≡◌, refl, ap, ◌∙◌, Bool, true, false, some, List, [], ◌∷◌, ◌++◌, All, lt→ltb, ltb,
  not, ◌&&◌, arith,
}
use droidctl.AckSync.{
  AckSync, WaitResult, ok, timeout, intr, Event, Wakeup, apply_all, result, wait_loop, wait,
}
use droidctl.AckSync.Calls.{
  Monotone, Before, Among, Acknowledges, IsInterrupted, IsAcked, interrupted_stops, still_waiting,
  acked_runs, reached, Monotone-append,
}

-- The calls of all the wake-ups, in order.
abbrev pub calls : List Wakeup → List Event
calls [] = []
calls (wakeup ∷ wakeups) = wakeup.events ++ calls wakeups

-- A wake-up that leaves the wait for `ack` going on.
abbrev pub IsIdle : ℕ → Wakeup → Type 0
IsIdle ack wakeup = All (Before ack) wakeup.events × (wakeup.timed_out ≡ false)

-- What a decisive wake-up makes of the wait for `ack`.
pub data Decides (ack : ℕ) (wakeup : Wakeup) : WaitResult → Type 0 where
  stopped : Among IsInterrupted wakeup.events → Decides ack wakeup intr
  acknowledged :
      All IsAcked wakeup.events → Among (Acknowledges ack) wakeup.events → Decides ack wakeup ok
  late : All (Before ack) wakeup.events → wakeup.timed_out ≡ true → Decides ack wakeup timeout

ends :
    (acksync : AckSync) (ack : ℕ) (timed_out : Bool) (wakeups : List Wakeup) (r : WaitResult)
    → (not acksync.stopped && ltb acksync.ack ack && not timed_out) ≡ false
    → result acksync ack ≡ r
    → wait_loop acksync ack timed_out wakeups ≡ some r
unfolding wait_loop
ends acksync ack timed_out [] r over e = rw (wait_loop, over) (ap some e)
ends acksync ack timed_out (w ∷ wakeups) r over e = rw (wait_loop, over) (ap some e)

decided :
    (acksync : AckSync) (ack : ℕ) (wakeup : Wakeup) (r : WaitResult) (rest : List Wakeup)
    → acksync.stopped ≡ false
    → acksync.ack < ack
    → Monotone acksync.ack wakeup.events
    → Decides ack wakeup r
    → wait_loop (apply_all acksync wakeup.events) ack wakeup.timed_out rest ≡ some r
decided acksync ack wakeup _ rest running behind m (stopped among) =
    ends _ ack _ rest intr (rw stop refl) (rw stop refl)
  where
    stop : (apply_all acksync wakeup.events).stopped ≡ true
    stop = interrupted_stops acksync wakeup.events among
decided acksync ack wakeup _ rest running behind m (acknowledged all among) =
    ends _ ack _ rest ok (ground (arith, got)) (ground (arith, run, got))
  where
    run : (apply_all acksync wakeup.events).stopped ≡ false
    run = acked_runs acksync wakeup.events all running

    got : ack ≤ (apply_all acksync wakeup.events).ack
    got = reached ack acksync wakeup.events m among
decided acksync ack wakeup _ rest running behind m (late before over) =
    ends _ ack _ rest timeout (ground (arith, over)) (ground (arith, same))
  where
    same :
        ((apply_all acksync wakeup.events).stopped ≡ false)
        × (apply_all acksync wakeup.events).ack < ack
    same = still_waiting acksync ack wakeup.events before running behind

one_round :
    (acksync : AckSync) (ack : ℕ) (wakeup : Wakeup) (rest : List Wakeup)
    → acksync.stopped ≡ false
    → acksync.ack < ack
    → wait_loop acksync ack false (wakeup ∷ rest)
      ≡ wait_loop (apply_all acksync wakeup.events) ack wakeup.timed_out rest
unfolding wait_loop
one_round acksync ack wakeup rest running behind =
    rw (wait_loop, running, lt→ltb acksync.ack ack behind) refl

-- A wait that has to wait goes on over wake-ups in which there are only acknowledgements before
-- `ack` and the deadline is not over, and the next wake-up decides: with an interruption among the
-- calls that come before the mutex is taken again the result is INTR, whatever else came; with
-- acknowledgements alone, one of which is of `ack` or later, OK; and past the deadline with nothing
-- but acknowledgements before `ack`, TIMEOUT. Acknowledgements do not go back.
pub wait-Decides :
    (acksync : AckSync) (ack : ℕ) (earlier : List Wakeup) (wakeup : Wakeup) (r : WaitResult)
    (rest : List Wakeup)
    → acksync.stopped ≡ false
    → acksync.ack < ack
    → Monotone acksync.ack (calls (earlier ++ (wakeup ∷ rest)))
    → All (IsIdle ack) earlier
    → Decides ack wakeup r
    → wait acksync ack (earlier ++ (wakeup ∷ rest)) ≡ some r
unfolding wait
wait-Decides acksync ack [] wakeup r rest running behind m idle d =
    one_round acksync ack wakeup rest running behind
    ∙ decided acksync ack wakeup r rest running behind
        (Monotone-append acksync wakeup.events (calls rest) m).0 d
wait-Decides acksync ack (first ∷ earlier) wakeup r rest running behind m (idle, later) d =
    let (running', behind') = still_waiting acksync ack first.events idle.0 running behind in
    one_round acksync ack first (earlier ++ (wakeup ∷ rest)) running behind
    ∙ rw idle.1 (
        wait-Decides (apply_all acksync first.events) ack earlier wakeup r rest running' behind'
          (Monotone-append acksync first.events (calls (earlier ++ (wakeup ∷ rest))) m).1 later d)
