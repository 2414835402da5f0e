-- ===== src/Examples/Queues.antt =====
-- The queue of the controller, and a run of its threads.
use droidctl.Base.{
  ℕ, ◌≤◌, ◌<◌, ◌≡◌, ◌⊎◌, max, refl, true, false, none, some, List, [], ◌∷◌, ◌++◌, map, length,
  concat, replicate, length-replicate, arith,
}
use droidctl.ControlMsg.{ControlMsg, control_msg_max_size, is_droppable}
use droidctl.ControlMsg.Encoding.{encoding}
use droidctl.ControlMsg.RoundTrip.{received}
use droidctl.VecDeque.{VecDeque, moved, realloc, pop, push, reserve, min_cap}
use droidctl.VecDeque.Inv.{IsValid, contents, contents-pop}
use droidctl.VecDeque.Refine.{contents-push, contents-reserve}
use droidctl.Controller.{
  Controller, not_processed, control_msg_queue_limit, init, push_msg, resize_display, next_msg,
  process_msg,
}
use droidctl.Controller.Queue.{Holds, Follows, push_msg-Holds, init-Holds, next_msg-Follows}
use droidctl.Controller.Send.{overwritten, process_msg-encoding}
use droidctl.Controller.Threads.{Threads, Sending, turn, pushed, Step, Reachable}
use droidctl.Controller.Invariant.{queued, Fragment}
use droidctl.Controller.Delivery.{
  receive_all, start_threads, socket-Reachable, turn-Reachable, receive_all-Reachable,
}
use droidctl.Controller.Drain.{rounds, pending, rounds-Reachable}
use droidctl.Examples.Numbers.{fixed}
use droidctl.Examples.Messages.{paste, paste-IsValid}

-- A full ring whose items go round its end.
abbrev ring : VecDeque ℕ
ring = record { cap = 3; origin = 2; size = 3; slots = some 5 ∷ some 6 ∷ some 4 ∷ [] }

ring-IsValid : IsValid ring
ring-IsValid = record { slots_cap = refl; origin_in = omega arith; size_in = omega arith }

contents-pop_example : contents ring ≡ (pop ring).0 ∷ contents (pop ring).1
contents-pop_example = contents-pop ring ring-IsValid (omega arith)

contents-push_example :
    IsValid (push 100 (λ n. true) ring 7).1
    × 3 ≤ ((push 100 (λ n. true) ring 7).1).cap
    × (((push 100 (λ n. true) ring 7).0 ≡ true)
          × (contents (push 100 (λ n. true) ring 7).1 ≡ contents ring ++ (some 7 ∷ []))
        ⊎ ((push 100 (λ n. true) ring 7).0 ≡ false)
          × ((push 100 (λ n. true) ring 7).1 ≡ ring)
          × ◌≡◌ {A = ℕ} 3 3
          × (100 ≤ 3 ⊎ (true ≡ false)))
contents-push_example = contents-push 100 (λ n. true) (omega arith) ring 7 ring-IsValid

reserved_contents :
    IsValid (reserve 100 (λ n. true) ring 20).1
    × (contents (reserve 100 (λ n. true) ring 20).1 ≡ contents ring)
    × (((reserve 100 (λ n. true) ring 20).1).size ≡ 3)
    × (((reserve 100 (λ n. true) ring 20).0 ≡ true) × 20 ≤ ((reserve 100 (λ n. true) ring 20).1).cap
        ⊎ ((reserve 100 (λ n. true) ring 20).0 ≡ false)
          × ((reserve 100 (λ n. true) ring 20).1 ≡ ring)
          × (100 < max 20 min_cap ⊎ (true ≡ false)))
reserved_contents = contents-reserve 100 (λ n. true) (omega arith) ring 20 ring-IsValid

-- The controller that `init` makes.
abbrev machine : Controller (fixed.Float)
machine = record {
  queue = record { cap = 64; origin = 0; size = 0; slots = replicate 64 none };
  stopped = false;
  resize_width = 0;
  resize_height = 0;
}

machine-created : init 1000 (λ n. true) true ≡ some machine
unfolding init reserve moved realloc
machine-created = refl

machine-Holds : Holds machine []
unfolding contents
machine-Holds = record {
  valid = record { slots_cap = refl; origin_in = omega arith; size_in = omega arith };
  room = omega arith;
  items = refl;
}

machine_starts :
    (c : Controller (fixed.Float)) × (init 1000 (λ n. true) true ≡ some c)
    × Holds c []
    × (c.stopped ≡ false)
    × (c.resize_width ≡ 0)
    × (c.resize_height ≡ 0)
machine_starts = init-Holds 1000 (λ n. true) (omega arith) (omega arith) refl

push_msg-Holds_example :
    ((push_msg 1000 (λ n. true) machine paste).0 ≡ true)
      × Holds (push_msg 1000 (λ n. true) machine paste).1 (paste ∷ [])
    ⊎ ((push_msg 1000 (λ n. true) machine paste).0 ≡ false)
      × ((push_msg 1000 (λ n. true) machine paste).1 ≡ machine)
      × control_msg_queue_limit ≤ 0
      × ((is_droppable paste ≡ true) ⊎ ◌≡◌ {A = ℕ} 0 64 × (1000 ≤ 64 ⊎ (true ≡ false)))
push_msg-Holds_example =
    push_msg-Holds 1000 (λ n. true) machine [] paste (omega arith) machine-Holds

next_msg-Follows_example : Follows machine [] (next_msg machine)
next_msg-Follows_example = next_msg-Follows machine [] machine-Holds

process_msg-encoding_example :
    process_msg fixed (replicate control_msg_max_size 7) paste false
    ≡ some (
      overwritten fixed (replicate control_msg_max_size 7) paste,
      encoding fixed paste,
      not_processed true,
    )
process_msg-encoding_example =
    process_msg-encoding fixed (replicate control_msg_max_size 7)
      (omega (arith, length-replicate {A = ℕ} control_msg_max_size 7)) paste false paste-IsValid

-- The other threads push a message and resize the display before the first round.
abbrev pushed_paste : Threads fixed
pushed_paste = pushed fixed 1000 (λ n. true) (start_threads fixed machine) paste

abbrev resized : Threads fixed
resized = record pushed_paste { controller = resize_display pushed_paste.controller 800 600 }

resized-Reachable : Reachable fixed 1000 (λ n. true) (start_threads fixed machine) resized
resized-Reachable =
    Reachable.then_ (Reachable.then_ Reachable.started (Step.push paste paste-IsValid refl))
      (Step.resize 800 600 (omega arith) (omega arith) (omega arith))

turn-Reachable_example : (t' : Threads fixed) × (turn fixed Sending.complete resized ≡ some t')
turn-Reachable_example =
    turn-Reachable fixed 1000 (λ n. true) (omega arith) (omega arith) refl machine machine-created
      resized Sending.complete resized-Reachable

-- After the round that sends the resize, and the one in which the socket fails behind three bytes
-- of the message.
abbrev after_resize : Threads fixed
after_resize = turn-Reachable_example.0

after_resize-Reachable : Reachable fixed 1000 (λ n. true) (start_threads fixed machine) after_resize
after_resize-Reachable =
    Reachable.then_ resized-Reachable (Step.round Sending.complete (turn-Reachable_example.1))

failed_round : (t' : Threads fixed) × (turn fixed (Sending.cut_off 3) after_resize ≡ some t')
failed_round =
    turn-Reachable fixed 1000 (λ n. true) (omega arith) (omega arith) refl machine machine-created
      after_resize (Sending.cut_off 3) after_resize-Reachable

abbrev failed : Threads fixed
failed = failed_round.0

failed-Reachable : Reachable fixed 1000 (λ n. true) (start_threads fixed machine) failed
failed-Reachable =
    Reachable.then_ after_resize-Reachable (Step.round (Sending.cut_off 3) (failed_round.1))

socket-Reachable_example :
    (msgs : List (ControlMsg (fixed.Float))) × (contents failed.controller.queue ≡ map some msgs)
    × (failed.accepted ≡ queued (failed.sent ++ failed.lost) ++ msgs)
    × (failed.socket ≡ concat (map (encoding fixed) failed.sent) ++ failed.fragment)
    × Fragment fixed failed.lost failed.fragment
socket-Reachable_example =
    socket-Reachable fixed 1000 (λ n. true) (omega arith) (omega arith) refl machine machine-created
      failed failed-Reachable

receive_all-Reachable_example :
    (receive_all fixed (λ bytes. bytes) (length failed.sent) failed.socket
      ≡ some (map (received fixed (λ bytes. bytes)) failed.sent, failed.fragment))
    × Fragment fixed failed.lost failed.fragment
receive_all-Reachable_example =
    receive_all-Reachable fixed 1000 (λ n. true) (omega arith) (omega arith) refl machine
      machine-created (λ bytes. bytes) failed failed-Reachable

rounds-Reachable_example :
    (msgs : List (ControlMsg (fixed.Float))) × (t' : Threads fixed) × (contents
        resized.controller.queue
      ≡ map some msgs)
    × (rounds fixed (length (pending fixed resized.controller ++ msgs)) resized ≡ some t')
    × (t'.sent ≡ resized.sent ++ (pending fixed resized.controller ++ msgs))
    × (t'.socket ≡ concat (map (encoding fixed) t'.sent))
    × (contents t'.controller.queue ≡ [])
    × (t'.controller.resize_width ≡ 0)
    × (t'.ended ≡ none)
unfolding pushed resize_display push_msg
rounds-Reachable_example =
    rounds-Reachable fixed 1000 (λ n. true) (omega arith) (omega arith) refl machine machine-created
      resized resized-Reachable refl refl
