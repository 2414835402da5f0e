-- ===== src/Controller/Invariant.antt =====
-- The invariant of the threads of a controller, and that every step keeps it.
use droidctl.Base.{
  ℕ, ◌-◌, min, take, ◌^◌, ◌≤◌, ◌<◌, ◌≡◌, refl, ap, ap₂, sym, ◌∙◌, ◌⊎◌, inl, inr, true, false, none,
  some, Option-cases, Bool-cases,
}
use droidctl.Base.{
  List, [], ◌∷◌, ◌++◌, map, map-append, append-nil, append_assoc, concat, concat-append, length,
  ◌==◌, if◌then◌else◌, All, All-append, arith,
}
use droidctl.Floats.{Floats}
use droidctl.ControlMsg.{ControlMsg, type_code, control_msg_max_size}
use droidctl.ControlMsg.Encoding.{encoding, IsValid}
use droidctl.ControlMsg.Wire.{length-encoding}
use mathlib.Core.List.{cons≢nil}
use mathlib.Core.Option.{none-ne-some}
use droidctl.Controller.{Controller, processed, not_processed, Taken, took, next_msg}
use droidctl.Controller.Queue.{Holds, next_msg-Follows, Follows, stops, resizes, waits, takes}
use droidctl.Controller.Send.{overwritten, length-overwritten, process_msg-encoding}
use droidctl.Controller.Threads.{
  Threads, Sending, all_sent, copied_bytes, finish, turn, resize_code,
}

-- The messages that went through the queue: all but display resizes.
abbrev pub queued : {Float : Type 0} → List (ControlMsg Float) → List (ControlMsg Float)
queued [] = []
queued (msg ∷ msgs) =
    let rest = queued msgs in if type_code msg == resize_code then rest else msg ∷ rest

queued-append :
    {Float : Type 0} (xs ys : List (ControlMsg Float)) → queued (xs ++ ys) ≡ queued xs ++ queued ys
queued-append [] ys = refl
queued-append (x ∷ xs) ys = elim (Bool-cases (type_code x == resize_code)) [
  | inl e ↦ rw e (queued-append xs ys)
  | inr e ↦ rw e (ap (λ l. x ∷ l) (queued-append xs ys))
]

-- A message that may be pushed.
abbrev pub IsQueueable : {Float : Type 0} → ControlMsg Float → Type 0
IsQueueable msg = IsValid msg × ((type_code msg == resize_code) ≡ false)

module _ (floats : Floats) where
  open floats use {Float}

  -- What the socket has got of a message that could not be sent: a part, short of the whole.
  pub data Fragment : List (ControlMsg Float) → List ℕ → Type 0 where
    no_loss : Fragment [] []
    part :
        {msg : ControlMsg Float} (copied : ℕ)
        → copied < length (encoding floats msg)
        → Fragment (msg ∷ []) (take copied (encoding floats msg))

  pub nothing_cut :
      {lost : List (ControlMsg Float)} {fragment : List ℕ}
      → Fragment lost fragment
      → lost ≡ []
      → fragment ≡ []
  nothing_cut no_loss e = refl
  nothing_cut (part copied _) e = absurd (cons≢nil e)

  -- `msgs` are in the queue; those that were accepted before them are sent, but for the one message,
  -- if any, on which the socket failed.
  pub record Inv (t : Threads floats) (msgs : List (ControlMsg Float)) : Type 0 where
    pub holds : Holds t.controller msgs
    pub queueable : All IsQueueable msgs
    pub buffer : control_msg_max_size ≤ length t.serialized_msg
    pub resize_in : t.controller.resize_width < 2 ^ 16 × t.controller.resize_height < 2 ^ 16
    pub order : t.accepted ≡ queued (t.sent ++ t.lost) ++ msgs
    pub bytes : t.socket ≡ concat (map (encoding floats) t.sent) ++ t.fragment
    pub cut : Fragment t.lost t.fragment
    pub sent_valid : All IsValid t.sent
    pub lost_last : (t.lost ≡ []) ⊎ (t.ended ≡ some false)

  module _ (t : Threads floats) (msgs : List (ControlMsg Float)) (inv : Inv t msgs)
      (running : t.ended ≡ none) where
    pub none_lost : t.lost ≡ []
    none_lost = elim inv.lost_last [
      | inl e ↦ e
      | inr e ↦ absurd (none-ne-some false (sym running ∙ e))
    ]

    none_cut : t.fragment ≡ []
    none_cut = nothing_cut inv.cut none_lost

    -- While the thread runs, the socket has got whole messages only.
    pub whole : t.socket ≡ concat (map (encoding floats) t.sent)
    whole =
        inv.bytes
        ∙ ap (λ l. concat (map (encoding floats) t.sent) ++ l) none_cut
        ∙ append-nil (concat (map (encoding floats) t.sent))

  -- Sending `msg`, which leaves the messages `rest` in the queue.
  module _ (t : Threads floats) (msgs rest : List (ControlMsg Float)) (msg : ControlMsg Float)
      (controller : Controller Float) (inv : Inv t msgs) (running : t.ended ≡ none)
      (valid : IsValid msg) (split : queued (msg ∷ []) ++ rest ≡ msgs)
      (held : Holds controller rest) (queueable : All IsQueueable rest)
      (resize_in : controller.resize_width < 2 ^ 16 × controller.resize_height < 2 ^ 16) where
    moved_on : t.accepted ≡ queued (t.sent ++ (msg ∷ [])) ++ rest
    moved_on =
        inv.order
        ∙ ap (λ l. queued (t.sent ++ l) ++ msgs) (none_lost t msgs inv running)
        ∙ ap₂ (λ l m. queued l ++ m) (append-nil t.sent) (sym split)
        ∙ sym (append_assoc (queued t.sent) (queued (msg ∷ [])) rest)
        ∙ ap (λ l. l ++ rest) (sym (queued-append t.sent (msg ∷ [])))

    pub finish-Inv :
        (sending : Sending)
        → Inv
            (finish floats
              (record t { controller = controller })
              msg
              sending
              (
                overwritten floats t.serialized_msg msg,
                encoding floats msg,
                if all_sent sending then processed else not_processed true,
              ))
            rest
    unfolding finish
    finish-Inv Sending.complete = record {
      holds = held;
      queueable = queueable;
      buffer =
          omega
            (arith, inv.buffer, length-overwritten floats t.serialized_msg inv.buffer msg valid);
      resize_in = resize_in;
      order =
          moved_on
          ∙ ap (λ l. queued l ++ rest)
              (sym (append-nil _)
                ∙ ap (λ l. (t.sent ++ (msg ∷ [])) ++ l) (sym (none_lost t msgs inv running)));
      bytes =
          ap₂ (λ a b. a ++ b) (whole t msgs inv running) (sym (append-nil (encoding floats msg)))
          ∙ sym (
              ap concat (map-append (encoding floats) t.sent (msg ∷ []))
              ∙ concat-append (map (encoding floats) t.sent) (encoding floats msg ∷ []))
          ∙ sym (append-nil _)
          ∙ ap (λ l. concat (map (encoding floats) (t.sent ++ (msg ∷ []))) ++ l)
              (sym (none_cut t msgs inv running));
      cut = inv.cut;
      sent_valid = All-append _ t.sent (msg ∷ []) inv.sent_valid (valid, tt);
      lost_last = inl (none_lost t msgs inv running);
    }
    finish-Inv (Sending.cut_off copied) = record {
      holds = held;
      queueable = queueable;
      buffer =
          omega
            (arith, inv.buffer, length-overwritten floats t.serialized_msg inv.buffer msg valid);
      resize_in = resize_in;
      order = moved_on;
      bytes =
          ap (λ l. l ++ copied_bytes (Sending.cut_off copied) (encoding floats msg))
            (whole t msgs inv running);
      cut =
          part (min copied (length (encoding floats msg) - 1))
            (omega (arith, (length-encoding floats msg valid).0));
      sent_valid = inv.sent_valid;
      lost_last = inr refl;
    }

  -- A round that takes `msg` sends its wire format.
  pub turn-took :
      (t : Threads floats) (sending : Sending) (msg : ControlMsg Float)
      (controller : Controller Float)
      → control_msg_max_size ≤ length t.serialized_msg
      → IsValid msg
      → t.ended ≡ none
      → next_msg t.controller ≡ took (some msg) controller
      → turn floats sending t
        ≡ some (
            finish floats
              (record t { controller = controller })
              msg
              sending
              (
                overwritten floats t.serialized_msg msg,
                encoding floats msg,
                if all_sent sending then processed else not_processed true,
              ))
  unfolding turn
  turn-took t sending msg controller buffer valid running e =
      rw
        (
          turn,
          running,
          e,
          process_msg-encoding floats t.serialized_msg buffer msg (all_sent sending) valid,
        )
        (rw running refl)

  -- No round of `run_controller` reads memory out of bounds, and each keeps the invariant.
  pub turn-Inv :
      (t : Threads floats) (msgs : List (ControlMsg Float)) (sending : Sending)
      → Inv t msgs
      → (t' : Threads floats) × (rest : List (ControlMsg Float)) × (turn floats sending t ≡ some t')
        × Inv t' rest
  unfolding turn
  turn-Inv t msgs sending inv = elim (Option-cases t.ended) [
    | inr (error, e) ↦ (t, msgs, rw e refl, inv)
    | inl running ↦ by_next msgs inv running (next_msg-Follows t.controller msgs inv.holds) refl
  ]
    where
      stopped : (ms : List (ControlMsg Float)) → Inv t ms → Inv (record t { ended = some false }) ms
      stopped ms i = record {
        holds = i.holds;
        queueable = i.queueable;
        buffer = i.buffer;
        resize_in = i.resize_in;
        order = i.order;
        bytes = i.bytes;
        cut = i.cut;
        sent_valid = i.sent_valid;
        lost_last = inr refl;
      }

      by_next :
          (ms : List (ControlMsg Float)) {next : Taken Float}
          → Inv t ms
          → t.ended ≡ none
          → Follows t.controller ms next
          → next_msg t.controller ≡ next
          → (t' : Threads floats) × (rest : List (ControlMsg Float)) × (turn floats sending t
              ≡ some t')
            × Inv t' rest
      by_next ms i running (stops _) e =
          (record t { ended = some false }, ms, rw (turn, running, e) refl, stopped ms i)
      by_next _ i running (waits _ _) e = (t, [], rw (turn, running, e) (rw running refl), i)
      by_next ms i running (resizes _ _) e = (
        _,
        ms,
        turn-took t sending _ _ inv.buffer i.resize_in running e,
        finish-Inv t ms ms _ _ i running i.resize_in refl
            (record { valid = i.holds.valid; room = i.holds.room; items = i.holds.items })
            i.queueable (omega arith, omega arith) sending,
      )
      by_next _ i running (takes {msg} {rest} {queue} _ _ held) e = (
        _,
        rest,
        turn-took t sending msg _ inv.buffer i.queueable.0.0 running e,
        finish-Inv t _ rest msg _ i running i.queueable.0.0 (rw i.queueable.0.1 refl) held
            i.queueable.1 i.resize_in sending,
      )
