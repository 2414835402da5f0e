-- ===== src/Receiver/Chunks.antt =====
-- However the stream of device messages is cut into chunks, the receiver acts on the same messages.
use droidctl.Base.{concat, ℕ, ◌≤◌, ◌<◌, ◌≡◌, refl, ap, ap₂, sym, ◌∙◌, Bool, true, some}
use droidctl.Base.{
  List, [], ◌∷◌, ◌++◌, length, drop, arith, append_assoc, append-nil, length-append,
}
use droidctl.DeviceMsg.{DeviceMsg}
use droidctl.DeviceMsg.Writer.{message_max_size}
use droidctl.Receiver.{Action, Config, process_msgs, receive, run_receiver, device_msg_max_size}
use droidctl.Receiver.Rounds.{
  Frames, actions, actions-append, Waiting, drained, waiting, Waiting-Frames, empty_waits,
  Frame-short, processed,
}

module _ (malloc : ℕ → Bool) (memory : (n : ℕ) → n ≤ message_max_size → malloc n ≡ true)
    (config : Config) where
  -- What the receiver has done after some chunks.
  pub record Ran (left : List ℕ) (chunks : List (List ℕ)) (later : List ℕ) (msgs : List DeviceMsg)
      : Type 0 where
    pub done : List DeviceMsg
    pub todo : List DeviceMsg
    pub left' : List ℕ
    pub all : msgs ≡ done ++ todo
    pub result : run_receiver malloc config left chunks ≡ (actions config done, some left')
    pub wait : Waiting left' later todo

  receive_lem :
      (left chunk : List ℕ) {done : List Action} {n : ℕ}
      → process_msgs malloc config (length (left ++ chunk)) (left ++ chunk) 0 ≡ (done, some n)
      → receive malloc config left chunk ≡ (done, some (drop n (left ++ chunk)))
  unfolding receive
  receive_lem left chunk e = ground (arith, e)

  run_step :
      (left chunk : List ℕ) (chunks : List (List ℕ)) {left' left'' : List ℕ}
      {done more : List Action}
      → receive malloc config left chunk ≡ (done, some left')
      → run_receiver malloc config left' chunks ≡ (more, some left'')
      → run_receiver malloc config left (chunk ∷ chunks) ≡ (done ++ more, some left'')
  unfolding run_receiver
  run_step left chunk chunks e f = ground (arith, e, f)

  pub ran :
      (chunks : List (List ℕ)) (left later : List ℕ) {msgs : List DeviceMsg}
      → Waiting left (concat chunks ++ later) msgs
      → Ran left chunks later msgs
  unfolding run_receiver
  ran [] left later {msgs} w = record {
    done = [];
    todo = msgs;
    left' = left;
    all = refl;
    result = refl;
    wait = w;
  }
  ran (chunk ∷ chunks) left later {msgs} w =
      let (stream, fs, e) = Waiting-Frames w in
      let buf = left ++ chunk in
      let same : buf ++ (concat chunks ++ later) ≡ stream =
        simp append_assoc (simp append_assoc at e) in
      let p =
        processed malloc memory config (length buf) buf (concat chunks ++ later) 0 (omega arith)
          (omega arith) fs same in
      let r = ran chunks (drop p.consumed buf) later p.wait in
      record {
        done = p.done ++ r.done;
        todo = r.todo;
        left' = r.left';
        all = p.all ∙ ap (λ l. p.done ++ l) r.all ∙ sym (append_assoc p.done r.done r.todo);
        result =
            run_step left chunk chunks (receive_lem left chunk p.result) r.result
            ∙ ap (λ l. (l, some r.left')) (sym (actions-append config p.done r.done));
        wait = r.wait;
      }

  short_of_wait :
      {left later : List ℕ} {msgs : List DeviceMsg}
      → Waiting left later msgs
      → length left < device_msg_max_size
  short_of_wait (drained e f) = omega (arith, ap length e)
  short_of_wait (waiting f fs e h) = omega (arith, Frame-short f)

  -- When a stream of messages has arrived in part, cut into chunks in any way, the receiver has
  -- acted on the first of its messages, in order and without an error, and the bytes left in the
  -- buffer do not fill it.
  pub run_receiver_part :
      (chunks : List (List ℕ)) (later : List ℕ) (msgs : List DeviceMsg)
      → Frames (concat chunks ++ later) msgs
      → (done todo : List DeviceMsg) × (left : List ℕ) × (msgs ≡ done ++ todo)
        × (run_receiver malloc config [] chunks ≡ (actions config done, some left))
        × (length left < device_msg_max_size)
  run_receiver_part chunks later msgs fs =
      let r = ran chunks [] later (empty_waits fs refl refl) in
      (r.done, r.todo, r.left', r.all, r.result, short_of_wait r.wait)

  -- When the whole stream has arrived nothing waits.
  none_waits :
      {left : List ℕ} {msgs : List DeviceMsg} → Waiting left [] msgs → (left ≡ []) × (msgs ≡ [])
  none_waits (drained e f) = (e, refl)
  none_waits {left} (waiting {sent} {stream} f fs e h) =
      absurd (omega (arith, ap length e, length-append left [], length-append sent stream))

  -- When a stream of messages has arrived whole, cut into chunks in any way, the receiver has acted
  -- on each of its messages, in order and without an error, and no bytes are left.
  pub run_receiver_whole :
      (chunks : List (List ℕ)) (msgs : List DeviceMsg)
      → Frames (concat chunks) msgs
      → run_receiver malloc config [] chunks ≡ (actions config msgs, some [])
  run_receiver_whole chunks msgs fs =
      let r = ran chunks [] [] (rw (← append-nil (concat chunks)) at (empty_waits fs refl refl)) in
      let (nothing, no_more) = none_waits r.wait in
      r.result
      ∙ ap₂ (λ d l. (actions config d, some l))
          (sym (r.all ∙ ap (λ l. r.done ++ l) no_more ∙ append-nil r.done)) nothing
