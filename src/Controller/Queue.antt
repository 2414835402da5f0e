-- ===== src/Controller/Queue.antt =====
-- The queue of the controller, as the list of the messages in it.
use droidctl.Base.{ℕ, ◌+◌, ◌^◌, ◌≤◌, ◌<◌, ◌⊎◌, inl, inr, ◌≡◌, ◌≢◌, refl, ap, sym, ◌∙◌}
use droidctl.Base.{
  Bool, true, false, some, List, [], ◌∷◌, ◌++◌, map, length, arith, ltb, ltb→lt, ltb_false→ge,
  ==_iff, eqb_ne, Bool-cases,
}
use droidctl.Base.{length-map, map-append, cons_head, cons_tail, true≢false, if◌then◌else◌}
use droidctl.ControlMsg.{ControlMsg, is_droppable}
use droidctl.VecDeque.{
  VecDeque, is_empty, reserve, push_noresize, push, pop, min_cap, growsize, clamp,
}
use droidctl.VecDeque.Inv.{
  IsValid, contents, length-tabulate, slot, push_noresize-IsValid, contents-push_noresize,
  pop-IsValid, contents-pop,
}
use droidctl.VecDeque.Refine.{contents-reserve, contents-push}
use droidctl.VecDeque as deque
use droidctl.Controller.{
  Controller, control_msg_queue_limit, Taken, waiting, stopping, took, init, push_msg, next_msg,
}
use native.Mathlib.Decide.{ℕ_discrete}

cap-pop : {A : Type 0} (v : VecDeque A) → (pop v).1.cap ≡ v.cap
unfolding pop
cap-pop v = refl

module _ {Float : Type 0} where
  -- The queue of `controller` is well formed, has the room that `init` reserves, and holds `msgs`.
  pub record Holds (controller : Controller Float) (msgs : List (ControlMsg Float)) : Type 0 where
    pub valid : IsValid controller.queue
    pub room : control_msg_queue_limit + 4 ≤ controller.queue.cap
    pub items : contents controller.queue ≡ map some msgs

  pub size_lem :
      (c : Controller Float) (msgs : List (ControlMsg Float))
      → Holds c msgs
      → length msgs ≡ c.queue.size
  unfolding contents
  size_lem c msgs h =
      sym (length-map some msgs)
      ∙ sym (ap length h.items)
      ∙ length-tabulate c.queue.size (slot c.queue)

  -- On a controller whose queue holds `msgs`, `push_msg` adds the message at the end and returns true;
  -- or it returns false and changes nothing, and then 60 messages at least are queued, and the message
  -- is droppable or the queue is full without memory to grow.
  pub push_msg-Holds :
      (max_cap : ℕ) (alloc : ℕ → Bool) (c : Controller Float) (msgs : List (ControlMsg Float))
      (msg : ControlMsg Float)
      → max_cap < 2 ^ 63
      → Holds c msgs
      → let r = push_msg max_cap alloc c msg in
        (r.0 ≡ true) × Holds r.1 (msgs ++ (msg ∷ []))
        ⊎ (r.0 ≡ false)
          × (r.1 ≡ c)
          × control_msg_queue_limit ≤ length msgs
          × ((is_droppable msg ≡ true)
              ⊎ (c.queue.size ≡ c.queue.cap)
                × (max_cap ≤ c.queue.cap
                    ⊎ (alloc (clamp (growsize c.queue.cap) min_cap max_cap) ≡ false)))
  unfolding push_msg push_noresize
  push_msg-Holds max_cap alloc c msgs msg small h =
      elim (Bool-cases (ltb c.queue.size control_msg_queue_limit)) [
        | inl short ↦
            let room : c.queue.size < c.queue.cap = omega (arith, h.room, ltb→lt _ _ short) in
            rw short (
              inl (
                refl,
                record {
                  valid = push_noresize-IsValid c.queue msg h.valid room;
                  room = h.room;
                  items = contents-push_noresize c.queue msg h.valid room ∙ added;
                },
              ))
        | inr long ↦ elim (Bool-cases (is_droppable msg)) [
          | inl droppable ↦ rw (long, droppable) (inr (refl, refl, full long, inl refl))
          | inr needed ↦
              let (valid, larger, outcome) =
                contents-push max_cap alloc small c.queue msg h.valid in
              rw (long, needed)
                (elim outcome [
                  | inl (ok, items) ↦ inl (
                    ok,
                    record {
                      valid = valid;
                      room = omega (arith, h.room, larger);
                      items = items ∙ added;
                    },
                  )
                  | inr (failed, same, at_cap, why) ↦
                      inr (
                        failed,
                        ap (λ q. record c { queue = q }) same,
                        full long,
                        inr (at_cap, why),
                      )
                ])
        ]
      ]
    where
      added : contents c.queue ++ (some msg ∷ []) ≡ map some (msgs ++ (msg ∷ []))
      added = ap (λ l. l ++ (some msg ∷ [])) h.items ∙ sym (map-append some msgs (msg ∷ []))

      full :
          ltb c.queue.size control_msg_queue_limit ≡ false → control_msg_queue_limit ≤ length msgs
      full e = omega (arith, size_lem c msgs h, ltb_false→ge c.queue.size control_msg_queue_limit e)

  pub resize-push_msg :
      (max_cap : ℕ) (alloc : ℕ → Bool) (c : Controller Float) (msg : ControlMsg Float)
      → let c' = (push_msg max_cap alloc c msg).1 in
        (c'.resize_width ≡ c.resize_width) × (c'.resize_height ≡ c.resize_height)
  unfolding push_msg
  resize-push_msg max_cap alloc c msg =
      elim (Bool-cases (ltb c.queue.size control_msg_queue_limit)) [
        | inl short ↦ rw short (refl, refl)
        | inr long ↦ elim (Bool-cases (is_droppable msg)) [
          | inl droppable ↦ rw (long, droppable) (refl, refl)
          | inr needed ↦ rw (long, needed) (refl, refl)
        ]
      ]

  -- With memory for the 64 messages it reserves, and its other parts created, the initialization
  -- gives a controller that holds no message, runs, and has no pending resize.
  pub init-Holds :
      (max_cap : ℕ) (alloc : ℕ → Bool)
      → control_msg_queue_limit + 4 ≤ max_cap
      → max_cap < 2 ^ 63
      → alloc (control_msg_queue_limit + 4) ≡ true
      → (c : Controller Float) × (init max_cap alloc true ≡ some c)
        × Holds c []
        × (c.stopped ≡ false)
        × (c.resize_width ≡ 0)
        × (c.resize_height ≡ 0)
  unfolding init contents
  init-Holds max_cap alloc large small memory =
      let empty : IsValid {A = ControlMsg Float} deque.init = record {
        slots_cap = refl;
        origin_in = omega arith;
        size_in = omega arith;
      } in
      let (valid, items, size, outcome) =
        contents-reserve max_cap alloc small deque.init (control_msg_queue_limit + 4) empty in
      elim outcome [
        | inl (ok, enough) ↦ (
          record {
            queue = (reserve max_cap alloc deque.init (control_msg_queue_limit + 4)).1;
            stopped = false;
            resize_width = 0;
            resize_height = 0;
          },
          rw ok refl,
          record { valid = valid; room = enough; items = items },
          refl,
          refl,
          refl,
        )
        | inr (_, _, inl over) ↦ absurd (omega (arith, over))
        | inr (_, _, inr oom) ↦ absurd (
            true≢false (
              sym memory
              ∙ ap alloc {x = 64} {y = clamp (growsize 0) 64 max_cap} (omega arith)
              ∙ oom))
      ]

  -- What the thread does next, given the messages in the queue. It leaves the messages of `rest`.
  pub data Follows (c : Controller Float) : List (ControlMsg Float) → Taken Float → Type 0 where
    stops : {msgs : List (ControlMsg Float)} → c.stopped ≡ true → Follows c msgs stopping
    resizes :
        {msgs : List (ControlMsg Float)}
        → c.stopped ≡ false
        → c.resize_width ≢ 0
        → Follows c msgs (
            took
              (some (ControlMsg.resize_display c.resize_width c.resize_height))
              (record c { resize_width = 0; resize_height = 0 }))
    waits : c.stopped ≡ false → c.resize_width ≡ 0 → Follows c [] waiting
    takes :
        {msg : ControlMsg Float} {rest : List (ControlMsg Float)}
        {queue : VecDeque (ControlMsg Float)}
        → c.stopped ≡ false
        → c.resize_width ≡ 0
        → Holds (record c { queue = queue }) rest
        → Follows c (msg ∷ rest) (took (some msg) (record c { queue = queue }))

  -- A stopped controller stops; a pending resize goes first, is cleared, and leaves the queue as it
  -- is; otherwise the thread takes the first message of the queue, and waits if there is none.
  pub next_msg-Follows :
      (c : Controller Float) (msgs : List (ControlMsg Float))
      → Holds c msgs
      → Follows c msgs (next_msg c)
  unfolding next_msg
  next_msg-Follows c msgs h = elim (Bool-cases c.stopped) [
    | inl stopped ↦ as_read {t = stopping} (rw stopped refl) (stops stopped)
    | inr running ↦ elim (ℕ_discrete c.resize_width 0) [
      | no set ↦ as_read (rw (running, eqb_ne c.resize_width 0 set) refl) (resizes running set)
      | yes unset ↦
          as_read {t = from_queue_as} (rw (running, (==_iff c.resize_width 0).1 unset) refl)
            (from_queue msgs h running unset)
    ]
  ]
    where
      as_read : {t : Taken Float} → next_msg c ≡ t → Follows c msgs t → Follows c msgs (next_msg c)
      as_read e f = rw e f

      from_queue_as : Taken Float
      from_queue_as =
          if is_empty c.queue
          then waiting
          else took (pop c.queue).0 (record c { queue = (pop c.queue).1 })

      from_queue :
          (ms : List (ControlMsg Float))
          → Holds c ms
          → c.stopped ≡ false
          → c.resize_width ≡ 0
          → Follows c ms (
              if is_empty c.queue
              then waiting
              else took (pop c.queue).0 (record c { queue = (pop c.queue).1 }))
      from_queue [] held running unset =
          rw ((==_iff c.queue.size 0).1 (sym (size_lem c [] held))) (waits running unset)
      from_queue (msg ∷ rest) held running unset =
          let some_left : c.queue.size ≢ 0 = omega (arith, size_lem c (msg ∷ rest) held) in
          let popped : (pop c.queue).0 ∷ contents (pop c.queue).1 ≡ some msg ∷ map some rest =
            sym (contents-pop c.queue held.valid some_left) ∙ held.items in
          rw (eqb_ne c.queue.size 0 some_left, cons_head popped)
            (takes running unset record {
              valid = pop-IsValid c.queue held.valid some_left;
              room = rw (cap-pop c.queue) held.room;
              items = cons_tail popped;
            })
