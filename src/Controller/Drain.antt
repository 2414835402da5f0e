-- ===== src/Controller/Drain.antt =====
-- What a running controller thread still sends.
use droidctl.Base.{
  true≢false, ℕ, zero, suc, ◌+◌, ◌^◌, ◌<◌, ◌≤◌, ◌≡◌, ◌≢◌, refl, ap, sym, ◌∙◌, Bool, true, false,
  Option, none, some, List, [], ◌∷◌, ◌++◌, append_assoc, append-nil, map, concat, length, ◌==◌,
  ==_iff, eqb_ne, if◌then◌else◌, All, arith,
}
use droidctl.Floats.{Floats}
use droidctl.ControlMsg.{ControlMsg}
use droidctl.ControlMsg.Encoding.{encoding, IsValid}
use droidctl.VecDeque.{VecDeque}
use droidctl.VecDeque.Inv.{contents}
use droidctl.Controller.{
  Controller, processed, Taken, took, next_msg, control_msg_queue_limit, init,
}
use droidctl.Controller.Queue.{Holds, next_msg-Follows, Follows, stops, resizes, waits, takes}
use droidctl.Controller.Threads.{Threads, Sending, finish, turn, Reachable}
use droidctl.Controller.Invariant.{Inv, whole, queued, IsQueueable, turn-took, finish-Inv}
use droidctl.Controller.Delivery.{start_threads, Reachable-Inv}
use native.Mathlib.Decide.{ℕ_discrete}
use droidctl.Controller.Send.{overwritten}

module _ (floats : Floats) where
  open floats use {Float}

  -- The resize that is pending, if any.
  abbrev pub pending : Controller Float → List (ControlMsg Float)
  pending c =
      if c.resize_width == 0
      then []
      else ControlMsg.resize_display c.resize_width c.resize_height ∷ []

  -- Rounds of `run_controller` whose `net_send_all` succeeds.
  abbrev pub rounds : ℕ → Threads floats → Option (Threads floats)
  rounds zero t = some t
  rounds (suc n) t = elim (turn floats Sending.complete t) [ none ↦ none | some t' ↦ rounds n t' ]

  -- The thread runs, with `msgs` in the queue.
  record Live (t : Threads floats) (msgs : List (ControlMsg Float)) : Type 0 where
    inv : Inv floats t msgs
    running : t.ended ≡ none
    going : t.controller.stopped ≡ false

  record Drained (t t' : Threads floats) (extra : List (ControlMsg Float)) : Type 0 where
    all_sent : t'.sent ≡ t.sent ++ extra
    live : Live t' []
    clear : t'.controller.resize_width ≡ 0

  -- The thread takes the first message of the queue, if there is one.
  abbrev First : Controller Float → List (ControlMsg Float) → Type 0
  First c [] = Unit {0}
  First c (msg ∷ rest) =
      (queue : VecDeque (ControlMsg Float)) × (next_msg c
        ≡ took (some msg) (record c { queue = queue }))
      × Holds (record c { queue = queue }) rest

  takes-First :
      (c : Controller Float) (ms : List (ControlMsg Float)) (next : Taken Float)
      → Follows c ms next
      → c.stopped ≡ false
      → c.resize_width ≡ 0
      → next_msg c ≡ next
      → First c ms
  takes-First c ms _ (stops stopped) going clear e = absurd (true≢false (sym stopped ∙ going))
  takes-First c ms _ (resizes _ set) going clear e = absurd (set clear)
  takes-First c _ _ (waits _ _) going clear e = tt
  takes-First c _ _ (takes {msg} {rest} {queue} _ _ held) going clear e = (queue, e, held)

  -- After a round that sends `msg` and leaves `controller` with `rest`.
  record SentOne (t : Threads floats) (msg : ControlMsg Float) (controller : Controller Float)
      (rest : List (ControlMsg Float)) : Type 0 where
    after : Threads floats
    turned : turn floats Sending.complete t ≡ some after
    live : Live after rest
    one_more : after.sent ≡ t.sent ++ (msg ∷ [])
    kept : after.controller ≡ controller

  send_one :
      (t : Threads floats) (msgs rest : List (ControlMsg Float)) (msg : ControlMsg Float)
      (controller : Controller Float)
      → Live t msgs
      → IsValid msg
      → queued (msg ∷ []) ++ rest ≡ msgs
      → Holds controller rest
      → All IsQueueable rest
      → controller.resize_width < 2 ^ 16 × controller.resize_height < 2 ^ 16
      → controller.stopped ≡ false
      → next_msg t.controller ≡ took (some msg) controller
      → SentOne t msg controller rest
  unfolding finish
  send_one t msgs rest msg controller live valid split held queueable resize_in going next =
      record {
        after =
            finish floats (record t { controller = controller }) msg Sending.complete
              (overwritten floats t.serialized_msg msg, encoding floats msg, processed);
        turned =
            turn-took floats t Sending.complete msg controller live.inv.buffer valid live.running
              next;
        live = record {
          inv =
              finish-Inv floats t msgs rest msg controller live.inv live.running valid split held
                queueable resize_in Sending.complete;
          running = live.running;
          going = going;
        };
        one_more = refl;
        kept = refl;
      }

  rounds-suc :
      (n : ℕ) (t t1 t' : Threads floats)
      → turn floats Sending.complete t ≡ some t1
      → rounds n t1 ≡ some t'
      → rounds (suc n) t ≡ some t'
  rounds-suc n t t1 t' turned rest = rw (rounds, turned) rest

  drain_queue :
      (msgs : List (ControlMsg Float)) (t : Threads floats)
      → Live t msgs
      → t.controller.resize_width ≡ 0
      → (t' : Threads floats) × (rounds (length msgs) t ≡ some t') × Drained t t' msgs
  drain_queue [] t live clear =
      (t, refl, record { all_sent = sym (append-nil t.sent); live = live; clear = clear })
  drain_queue (msg ∷ rest) t live clear =
      let (queue, next, held) =
        takes-First t.controller (msg ∷ rest) _
          (next_msg-Follows t.controller (msg ∷ rest) live.inv.holds) live.going clear refl in
      let one =
        send_one t (msg ∷ rest) rest msg _ live live.inv.queueable.0.0
          (rw live.inv.queueable.0.1 refl) held live.inv.queueable.1 live.inv.resize_in live.going
          next in
      let (t', turned, drained) =
        drain_queue rest one.after one.live (ap (λ c. c.resize_width) one.kept ∙ clear) in
      (
        t',
        rounds-suc (length rest) t one.after t' one.turned turned,
        record {
          all_sent =
              drained.all_sent
              ∙ ap (λ l. l ++ rest) one.one_more
              ∙ append_assoc t.sent (msg ∷ []) rest;
          live = drained.live;
          clear = drained.clear;
        },
      )

  takes_resize :
      (c : Controller Float) (ms : List (ControlMsg Float)) (next : Taken Float)
      → Follows c ms next
      → c.stopped ≡ false
      → c.resize_width ≢ 0
      → next_msg c ≡ next
      → next_msg c
        ≡ took
            (some (ControlMsg.resize_display c.resize_width c.resize_height))
            (record c { resize_width = 0; resize_height = 0 })
  takes_resize c ms _ (stops stopped) going set e = absurd (true≢false (sym stopped ∙ going))
  takes_resize c ms _ (resizes _ _) going set e = e
  takes_resize c _ _ (waits _ clear) going set e = absurd (set clear)
  takes_resize c _ _ (takes _ clear _) going set e = absurd (set clear)

  after_resize :
      (msgs : List (ControlMsg Float)) (t : Threads floats)
      → Live t msgs
      → t.controller.resize_width ≢ 0
      → let resize =
          ControlMsg.resize_display t.controller.resize_width t.controller.resize_height in
        (t' : Threads floats) × (rounds (suc (length msgs)) t ≡ some t')
        × Drained t t' (resize ∷ msgs)
  after_resize msgs t live set =
      let resize : ControlMsg Float =
        ControlMsg.resize_display t.controller.resize_width t.controller.resize_height in
      let held : Holds (record t.controller { resize_width = 0; resize_height = 0 }) msgs = record {
        valid = live.inv.holds.valid;
        room = live.inv.holds.room;
        items = live.inv.holds.items;
      } in
      let one =
        send_one t msgs msgs resize _ live live.inv.resize_in refl held live.inv.queueable
          (omega arith, omega arith) live.going
          (takes_resize t.controller msgs _ (next_msg-Follows t.controller msgs live.inv.holds)
            live.going set refl) in
      let (t', turned, drained) =
        drain_queue msgs one.after one.live (ap (λ c. c.resize_width) one.kept) in
      (
        t',
        rounds-suc (length msgs) t one.after t' one.turned turned,
        record {
          all_sent =
              drained.all_sent
              ∙ ap (λ l. l ++ msgs) one.one_more
              ∙ append_assoc t.sent (resize ∷ []) msgs;
          live = drained.live;
          clear = drained.clear;
        },
      )

  -- A pending resize goes first.
  drain :
      (msgs : List (ControlMsg Float)) (t : Threads floats)
      → Live t msgs
      → (t' : Threads floats) × (rounds (length (pending t.controller ++ msgs)) t ≡ some t')
        × Drained t t' (pending t.controller ++ msgs)
  drain msgs t live = elim (ℕ_discrete t.controller.resize_width 0) [
    | yes clear ↦ rw ((==_iff t.controller.resize_width 0).1 clear) (drain_queue msgs t live clear)
    | no set ↦ rw (eqb_ne t.controller.resize_width 0 set) (after_resize msgs t live set)
  ]

  module _ (max_cap : ℕ) (alloc : ℕ → Bool) (small : max_cap < 2 ^ 63)
      (large : control_msg_queue_limit + 4 ≤ max_cap)
      (memory : alloc (control_msg_queue_limit + 4) ≡ true) (c : Controller Float)
      (created : init max_cap alloc true ≡ some c) where
    -- In a state that the threads reach from a controller as `init` leaves it, where the controller
    -- is not stopped and its thread has not ended, as many successful rounds of `run_controller` as
    -- there are messages in the queue, and one more for a pending resize, send the resize and then
    -- the messages, in order, and leave the thread running with an empty queue and no resize.
    pub rounds-Reachable :
        (t : Threads floats)
        → Reachable floats max_cap alloc (start_threads floats c) t
        → t.ended ≡ none
        → t.controller.stopped ≡ false
        → (msgs : List (ControlMsg Float)) × (t' : Threads floats) × (contents t.controller.queue
            ≡ map some msgs)
          × (rounds (length (pending t.controller ++ msgs)) t ≡ some t')
          × (t'.sent ≡ t.sent ++ (pending t.controller ++ msgs))
          × (t'.socket ≡ concat (map (encoding floats) t'.sent))
          × (contents t'.controller.queue ≡ [])
          × (t'.controller.resize_width ≡ 0)
          × (t'.ended ≡ none)
    rounds-Reachable t reach running going =
        let (msgs, inv) = Reachable-Inv floats max_cap alloc small large memory c created t reach in
        let (t', turned, drained) =
          drain msgs t (record { inv = inv; running = running; going = going }) in
        (
          msgs,
          t',
          inv.holds.items,
          turned,
          drained.all_sent,
          whole floats t' [] drained.live.inv drained.live.running,
          drained.live.inv.holds.items,
          drained.clear,
          drained.live.running,
        )
