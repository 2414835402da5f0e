-- ===== src/Controller/Delivery.antt =====
-- What reaches the device of the messages that are pushed to a controller.
use droidctl.Base.{
  ℕ, zero, suc, ◌+◌, ◌^◌, ◌≤◌, ◌<◌, ◌≡◌, refl, ap, sym, ◌∙◌, inl, inr, Bool, true, Option, none,
  some,
}
use droidctl.Base.{
  List, [], ◌∷◌, ◌++◌, map, append_assoc, concat, length, replicate, length-replicate,
  if◌then◌else◌, All, All-append, arith,
}
use droidctl.Floats.{Floats}
use droidctl.ControlMsg.{ControlMsg, control_msg_max_size}
use droidctl.ControlMsg.Encoding.{encoding, IsValid}
use droidctl.ControlMsg.Reader.{ControlMessage, read}
use droidctl.ControlMsg.RoundTrip.{received, read-encoding}
use droidctl.VecDeque.Inv.{contents}
use droidctl.Controller.{Controller, control_msg_queue_limit, init, push_msg, resize_display, stop}
use droidctl.Controller.Queue.{Holds, push_msg-Holds, resize-push_msg, init-Holds}
use droidctl.Controller.Threads.{
  Threads, Sending, turn, pushed, Step, push, resize, halt, round, Reachable, started, then_,
}
use droidctl.Controller.Invariant.{Inv, Fragment, no_loss, turn-Inv, queued, IsQueueable}
use mathlib.Core.Option.{some-injective}
use mathlib.Core.Path.{subst}

-- `ControlChannel.recv` of the device, called `n` times.
abbrev pub receive_all :
    (floats : Floats) {Text : Type 0}
    → (List ℕ → Text)
    → ℕ
    → List ℕ
    → Option (List (ControlMessage Text floats.Float) × List ℕ)
receive_all floats new_string zero stream = some ([], stream)
receive_all floats new_string (suc n) stream = elim (read floats new_string stream) [
  | none ↦ none
  | some (msg, rest) ↦ elim (receive_all floats new_string n rest) [
    | none ↦ none
    | some (msgs, rest) ↦ some (msg ∷ msgs, rest)
  ]
]

module _ (floats : Floats) where
  open floats use {Float}

  -- The threads when `run_controller` starts: static memory is zero.
  abbrev pub start_threads : Controller Float → Threads floats
  start_threads controller = record {
    controller = controller;
    serialized_msg = replicate control_msg_max_size 0;
    socket = [];
    ended = none;
    accepted = [];
    sent = [];
    lost = [];
    fragment = [];
  }

  start-Inv :
      (c : Controller Float)
      → Holds c []
      → c.resize_width < 2 ^ 16
      → c.resize_height < 2 ^ 16
      → Inv floats (start_threads c) []
  start-Inv c h w hh = record {
    holds = h;
    queueable = tt;
    buffer = omega (arith, length-replicate {A = ℕ} control_msg_max_size 0);
    resize_in = (w, hh);
    order = refl;
    bytes = refl;
    cut = no_loss;
    sent_valid = tt;
    lost_last = inl refl;
  }

  module _ (max_cap : ℕ) (alloc : ℕ → Bool) (small : max_cap < 2 ^ 63) where
    pushed-Inv :
        (t : Threads floats) (msgs : List (ControlMsg Float)) (msg : ControlMsg Float)
        → IsQueueable msg
        → Inv floats t msgs
        → (rest : List (ControlMsg Float)) × Inv floats (pushed floats max_cap alloc t msg) rest
    unfolding pushed
    pushed-Inv t msgs msg q inv =
        elim (push_msg-Holds max_cap alloc t.controller msgs msg small inv.holds) [
          | inl (ok, holds) ↦ (
            msgs ++ (msg ∷ []),
            as_pushed _ holds (All-append _ msgs (msg ∷ []) inv.queueable (q, tt)) (
                rw ok (
                  ap (λ l. l ++ (msg ∷ [])) inv.order
                  ∙ append_assoc (queued (t.sent ++ t.lost)) msgs (msg ∷ []))),
          )
          | inr (failed, same, _, _) ↦
              (msgs, as_pushed msgs (rw same inv.holds) inv.queueable (rw failed inv.order))
        ]
      where
        kept :
            (((push_msg max_cap alloc t.controller msg).1).resize_width ≡ t.controller.resize_width)
            × (((push_msg max_cap alloc t.controller msg).1).resize_height
                ≡ t.controller.resize_height)
        kept = resize-push_msg max_cap alloc t.controller msg

        as_pushed :
            (rest : List (ControlMsg Float))
            → Holds (push_msg max_cap alloc t.controller msg).1 rest
            → All IsQueueable rest
            → (if (push_msg max_cap alloc t.controller msg).0
                then t.accepted ++ (msg ∷ [])
                else t.accepted)
              ≡ queued (t.sent ++ t.lost) ++ rest
            → Inv floats (pushed floats max_cap alloc t msg) rest
        as_pushed rest holds queueable order = record {
          holds = holds;
          queueable = queueable;
          buffer = inv.buffer;
          resize_in = (rw (kept.0) inv.resize_in.0, rw (kept.1) inv.resize_in.1);
          order = order;
          bytes = inv.bytes;
          cut = inv.cut;
          sent_valid = inv.sent_valid;
          lost_last = inv.lost_last;
        }

    step-Inv :
        (t t' : Threads floats) (msgs : List (ControlMsg Float))
        → Step floats max_cap alloc t t'
        → Inv floats t msgs
        → (rest : List (ControlMsg Float)) × Inv floats t' rest
    unfolding resize_display stop
    step-Inv t _ msgs (push msg valid queueable) inv = pushed-Inv t msgs msg (valid, queueable) inv
    step-Inv t _ msgs (resize width height _ w h) inv = (
      msgs,
      record {
        holds = record { valid = inv.holds.valid; room = inv.holds.room; items = inv.holds.items };
        queueable = inv.queueable;
        buffer = inv.buffer;
        resize_in = (w, h);
        order = inv.order;
        bytes = inv.bytes;
        cut = inv.cut;
        sent_valid = inv.sent_valid;
        lost_last = inv.lost_last;
      },
    )
    step-Inv t _ msgs halt inv = (
      msgs,
      record {
        holds = record { valid = inv.holds.valid; room = inv.holds.room; items = inv.holds.items };
        queueable = inv.queueable;
        buffer = inv.buffer;
        resize_in = inv.resize_in;
        order = inv.order;
        bytes = inv.bytes;
        cut = inv.cut;
        sent_valid = inv.sent_valid;
        lost_last = inv.lost_last;
      },
    )
    step-Inv t t' msgs (round sending turned) inv =
        let (t2, rest, turned2, inv2) = turn-Inv floats t msgs sending inv in
        (rest, subst (λ s. Inv floats s rest) (some-injective _ _ (sym turned2 ∙ turned)) inv2)

    module _ (large : control_msg_queue_limit + 4 ≤ max_cap)
        (memory : alloc (control_msg_queue_limit + 4) ≡ true) (c : Controller Float)
        (created : init max_cap alloc true ≡ some c) where
      pub Reachable-Inv :
          (t : Threads floats)
          → Reachable floats max_cap alloc (start_threads c) t
          → (msgs : List (ControlMsg Float)) × Inv floats t msgs
      Reachable-Inv _ started =
          let (c0, made, holds, running, width, height) =
            init-Holds max_cap alloc large small memory in
          let same : c0 ≡ c = some-injective _ _ (sym made ∙ created) in
          (
            [],
            subst (λ k. Inv floats (start_threads k) []) same
                (start-Inv c0 holds (omega arith) (omega arith)),
          )
      Reachable-Inv t' (then_ {t} reach step) =
          let (msgs, inv) = Reachable-Inv t reach in step-Inv t t' msgs step inv

      -- From a controller as `init` leaves it, whatever the threads do and in whatever order: the
      -- messages accepted by `push_msg` are, in order, those that were sent, without the display
      -- resizes, then the one that could not be sent, if any, then those still in the queue; and the
      -- socket has got exactly the wire formats of the messages sent, in order, and then what
      -- `net_send_all` copied of the one that could not be sent: a part of its wire format, short of
      -- the whole.
      pub socket-Reachable :
          (t : Threads floats)
          → Reachable floats max_cap alloc (start_threads c) t
          → (msgs : List (ControlMsg Float)) × (contents t.controller.queue ≡ map some msgs)
            × (t.accepted ≡ queued (t.sent ++ t.lost) ++ msgs)
            × (t.socket ≡ concat (map (encoding floats) t.sent) ++ t.fragment)
            × Fragment floats t.lost t.fragment
      socket-Reachable t reach =
          let (msgs, inv) = Reachable-Inv t reach in
          (msgs, inv.holds.items, inv.order, inv.bytes, inv.cut)

      -- From there a round of `run_controller` is always defined: it never takes an item that was
      -- not stored, nor serializes a message that it reads out of bounds.
      pub turn-Reachable :
          (t : Threads floats) (sending : Sending)
          → Reachable floats max_cap alloc (start_threads c) t
          → (t' : Threads floats) × (turn floats sending t ≡ some t')
      turn-Reachable t sending reach =
          let (msgs, inv) = Reachable-Inv t reach in
          let (t', _, turned, _) = turn-Inv floats t msgs sending inv in (t', turned)

      -- From there the device, reading the socket, receives the messages sent, in order; what is
      -- left is nothing or, when a message could not be sent, a part of its wire format, short of the
      -- whole.
      pub receive_all-Reachable :
          {Text : Type 0} (new_string : List ℕ → Text) (t : Threads floats)
          → Reachable floats max_cap alloc (start_threads c) t
          → receive_all floats new_string (length t.sent) t.socket
              ≡ some (map (received floats new_string) t.sent, t.fragment)
            × Fragment floats t.lost t.fragment
      receive_all-Reachable new_string t reach =
          let (msgs, inv) = Reachable-Inv t reach in
          (
            ap (receive_all floats new_string (length t.sent)) inv.bytes
                ∙ received_lem t.sent t.fragment inv.sent_valid,
            inv.cut,
          )
        where
          received_lem :
              (msgs : List (ControlMsg Float)) (left : List ℕ)
              → All IsValid msgs
              → receive_all floats new_string
                  (length msgs)
                  (concat (map (encoding floats) msgs) ++ left)
                ≡ some (map (received floats new_string) msgs, left)
          received_lem [] left v = refl
          received_lem (msg ∷ msgs) left v =
              rw
                (
                  receive_all,
                  append_assoc (encoding floats msg) (concat (map (encoding floats) msgs)) left,
                  read-encoding floats new_string msg (concat (map (encoding floats) msgs) ++ left)
                      v.0,
                  received_lem msgs left v.1,
                )
                refl
