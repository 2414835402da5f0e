-- ===== src/Examples/Acks.antt =====
-- A wait for the third change of the clipboard, that an earlier acknowledgement wakes up first, and
-- then an acknowledgement that is followed by an interruption before the mutex is taken again.
use droidctl.Base.{◌≡◌, refl, false, some, [], ◌∷◌, ◌++◌, arith}
use droidctl.AckSync.{AckSync, Wakeup, acked, interrupted, intr, wait}
use droidctl.AckSync.Calls.{Before, Among, IsInterrupted}
use droidctl.AckSync.Waits.{Decides, wait-Decides}

abbrev first_acked : AckSync
first_acked = record { stopped = false; ack = 1 }

abbrev second : Wakeup
second = record { events = acked 2 ∷ []; timed_out = false }

abbrev fourth_and_stop : Wakeup
fourth_and_stop = record { events = acked 4 ∷ interrupted ∷ []; timed_out = false }

wait-Decides_example : wait first_acked 3 ((second ∷ []) ++ (fourth_and_stop ∷ [])) ≡ some intr
wait-Decides_example =
    wait-Decides first_acked 3 (second ∷ []) fourth_and_stop intr [] refl (omega arith)
      (omega arith, (omega arith, tt)) (((Before.early (omega arith), tt), refl), tt)
      (Decides.stopped (Among.there (Among.here IsInterrupted.is_interrupted)))
