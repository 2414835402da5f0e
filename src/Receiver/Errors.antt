-- ===== src/Receiver/Errors.antt =====
-- What the receiver does with a message of an unknown type.
use droidctl.Base.{
  concat, ℕ, zero, suc, ◌+◌, ◌-◌, ◌≤◌, ◌≡◌, ◌⊎◌, refl, ap, sym, ◌∙◌, Bool, true, eqb_ne, Option,
  none, some, List, [], ◌∷◌, ◌++◌, length, drop, arith, append_assoc, length-append, length-drop,
  drop-drop, drop-append_left, inl, inr,
}
use droidctl.DeviceMsg.{DeviceMsg, deserialize, parsed, failed}
use droidctl.DeviceMsg.Writer.{message_max_size}
use droidctl.DeviceMsg.Stream.{deserialize-Frame}
use droidctl.Receiver.{Action, Config, process_msgs, receive, run_receiver}
use droidctl.Receiver.Rounds.{
  Frames, actions, actions-append, Waiting-Frames, empty_waits, process_more, Frame-nonempty,
}
use droidctl.Receiver.Chunks.{ran}
use mathlib.Core.Option.{none-ne-some, some-injective}

deserialize_unknown :
    (malloc : ℕ → Bool) (code : ℕ) (rest : List ℕ)
    → 3 ≤ code
    → deserialize malloc (code ∷ rest) ≡ failed
unfolding deserialize
deserialize_unknown malloc code rest h = ground arith

module _ (malloc : ℕ → Bool) (memory : (n : ℕ) → n ≤ message_max_size → malloc n ≡ true)
    (config : Config) where
  process_failed :
      (fuel : ℕ) (buf : List ℕ) (head : ℕ)
      → deserialize malloc (drop head buf) ≡ failed
      → process_msgs malloc config (suc fuel) buf head ≡ ([], none)
  unfolding process_msgs
  process_failed fuel buf head e = rw (e, process_msgs)

  -- The messages before the unknown one are acted on.
  process_unknown :
      (fuel : ℕ) (buf : List ℕ) (head : ℕ) {stream : List ℕ} {msgs : List DeviceMsg} (code : ℕ)
      (rest : List ℕ)
      → head ≤ length buf
      → length (drop head buf) ≤ fuel
      → Frames stream msgs
      → 3 ≤ code
      → drop head buf ≡ stream ++ (code ∷ rest)
      → process_msgs malloc config fuel buf head ≡ (actions config msgs, none)
  process_unknown zero buf head code rest inside enough fs h e =
      absurd (omega (arith, ap length e, length-append _ (code ∷ rest)))
  process_unknown (suc fuel) buf head code rest inside enough Frames.nil h e =
      process_failed fuel buf head
        (ap (deserialize malloc) e ∙ deserialize_unknown malloc code rest h)
  process_unknown (suc fuel) buf head code rest inside enough
        (Frames.cons {sent} {stream} {msg} {msgs} f fs) h e =
      let more : drop head buf ≡ sent ++ (stream ++ (code ∷ rest)) =
        e ∙ append_assoc sent stream (code ∷ rest) in
      let read : deserialize malloc (drop head buf) ≡ parsed msg (length sent) =
        ap (deserialize malloc) more
        ∙ deserialize-Frame malloc memory (stream ++ (code ∷ rest)) f in
      let next : drop (head + length sent) buf ≡ stream ++ (code ∷ rest) =
        sym (drop-drop head (length sent) buf)
        ∙ ap (drop (length sent)) more
        ∙ drop-append_left sent (stream ++ (code ∷ rest)) (length sent) refl in
      let left : length buf - (head + length sent) ≡ length stream + suc (length rest) =
        sym (length-drop (head + length sent) buf)
        ∙ ap length next
        ∙ length-append stream (code ∷ rest) in
      process_more malloc memory config fuel buf head (length sent) msg read
        (eqb_ne (head + length sent) (length buf) (λ same. absurd (omega (arith, left, same))))
        (process_unknown fuel buf (head + length sent) code rest (omega (arith, left))
          (omega (
            arith,
            left,
            length-drop head buf,
            length-drop (head + length sent) buf,
            Frame-nonempty f,
          ))
          fs h next)

  receive_failed :
      (left chunk : List ℕ) {done : List Action}
      → process_msgs malloc config (length (left ++ chunk)) (left ++ chunk) 0 ≡ (done, none)
      → receive malloc config left chunk ≡ (done, none)
  unfolding receive
  receive_failed left chunk e = ground (arith, e)

  receive_unknown :
      (left chunk : List ℕ) {stream : List ℕ} {msgs : List DeviceMsg} (code : ℕ) (rest : List ℕ)
      → Frames stream msgs
      → 3 ≤ code
      → left ++ chunk ≡ stream ++ (code ∷ rest)
      → receive malloc config left chunk ≡ (actions config msgs, none)
  receive_unknown left chunk code rest fs h e = receive_failed left chunk (
      process_unknown (length (left ++ chunk)) (left ++ chunk) 0 code rest (omega arith)
        (omega arith) fs h e)

  run_failed :
      (left chunk : List ℕ) (chunks : List (List ℕ)) {done : List Action}
      → receive malloc config left chunk ≡ (done, none)
      → run_receiver malloc config left (chunk ∷ chunks) ≡ (done, none)
  unfolding run_receiver
  run_failed left chunk chunks e = ground (arith, e)

  run_next :
      (left chunk : List ℕ) (chunks : List (List ℕ)) {left' : List ℕ} {done more : List Action}
      {end : Option (List ℕ)}
      → receive malloc config left chunk ≡ (done, some left')
      → run_receiver malloc config left' chunks ≡ (more, end)
      → run_receiver malloc config left (chunk ∷ chunks) ≡ (done ++ more, end)
  unfolding run_receiver
  run_next left chunk chunks e f = ground (arith, e, f)

  run_nil : (left : List ℕ) → run_receiver malloc config left [] ≡ ([], some left)
  unfolding run_receiver
  run_nil left = refl

  receive-cases :
      (left chunk : List ℕ)
      → ((done : List Action) × (receive malloc config left chunk ≡ (done, none)))
        ⊎ ((done : List Action) × (next : List ℕ) × (receive malloc config left chunk
              ≡ (done, some next)))
  receive-cases left chunk = by_end _ _ refl
    where
      by_end :
          (done : List Action) (end : Option (List ℕ))
          → receive malloc config left chunk ≡ (done, end)
          → ((done : List Action) × (receive malloc config left chunk ≡ (done, none)))
            ⊎ ((done : List Action) × (next : List ℕ) × (receive malloc config left chunk
                  ≡ (done, some next)))
      by_end done none e = inl (done, e)
      by_end done (some next) e = inr (done, next, e)

  run_receiver-append :
      (chunks more : List (List ℕ)) (left : List ℕ) {left' : List ℕ} {done then : List Action}
      {end : Option (List ℕ)}
      → run_receiver malloc config left chunks ≡ (done, some left')
      → run_receiver malloc config left' more ≡ (then, end)
      → run_receiver malloc config left (chunks ++ more) ≡ (done ++ then, end)
  run_receiver-append [] more left {then} {end} e f =
      let nothing = run_nil left in
      ap (λ l. run_receiver malloc config l more)
        (some-injective _ _ (ap (λ r. r.1) (sym nothing ∙ e)))
      ∙ f
      ∙ ap (λ d. (d ++ then, end)) (ap (λ r. r.0) (sym nothing ∙ e))
  run_receiver-append (chunk ∷ chunks) more left {left'} {done} {then} {end} e f =
      elim (receive-cases left chunk) [
        | inl (d, ended) ↦
            absurd
              (none-ne-some left' (ap (λ r. r.1) (sym (run_failed left chunk chunks ended) ∙ e)))
        | inr (d, next, goes) ↦
            let first = run_next left chunk chunks goes refl in
            let rest =
              run_receiver-append chunks more next
                {done = (run_receiver malloc config next chunks).0}
                (ap (λ o. ((run_receiver malloc config next chunks).0, o))
                  (ap (λ r. r.1) (sym first ∙ e)))
                f in
            run_next left chunk (chunks ++ more) goes rest
            ∙ ap (λ l. (l, end))
                (sym (append_assoc d _ then) ∙ ap (λ l. l ++ then) (ap (λ r. r.0) (sym first ∙ e)))
      ]

  -- When the bytes received begin with whole messages and a byte that is no type of a message, cut
  -- into chunks in any way before the one that brings that byte, the receiver acts on each of those
  -- messages, in order, then ends with an error, whatever comes after.
  pub run_receiver_unknown :
      (chunks : List (List ℕ)) (last : List ℕ) (code : ℕ) (rest : List ℕ) (more : List (List ℕ))
      (msgs : List DeviceMsg)
      → Frames (concat chunks ++ last) msgs
      → 3 ≤ code
      → run_receiver malloc config [] (chunks ++ ((last ++ (code ∷ rest)) ∷ more))
        ≡ (actions config msgs, none)
  run_receiver_unknown chunks last code rest more msgs fs h =
      let r = ran malloc memory config chunks [] last (empty_waits fs refl refl) in
      let (stream, fs', e) = Waiting-Frames r.wait in
      run_receiver-append chunks ((last ++ (code ∷ rest)) ∷ more) [] r.result (
        run_failed r.left' (last ++ (code ∷ rest)) more (
          receive_unknown r.left' (last ++ (code ∷ rest)) code rest fs' h
            (sym (append_assoc r.left' last (code ∷ rest)) ∙ ap (λ l. l ++ (code ∷ rest)) e)))
      ∙ ap (λ l. (l, none))
          (sym (actions-append config r.done r.todo) ∙ ap (actions config) (sym r.all))
