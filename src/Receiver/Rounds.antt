-- ===== src/Receiver/Rounds.antt =====
-- What the receiver does with the bytes in its buffer, when they start a stream of messages.
use droidctl.Base.{
  ℕ, zero, suc, ◌+◌, ◌≤◌, ◌<◌, ◌≡◌, refl, ap, ap₂, sym, ◌∙◌, Bool, true, false, Option, some,
}
use droidctl.Base.{
  List, [], ◌∷◌, ◌++◌, length, drop, arith, append_assoc, append-nil, length-drop, drop-drop,
}
use droidctl.Base.{
  append_split_longer, append_split_shorter, length-zero, ◌==◌, Bool-cases, inl, inr,
}
use droidctl.DeviceMsg.{DeviceMsg, deserialize, parsed, incomplete}
use droidctl.DeviceMsg.Writer.{message_max_size}
use droidctl.DeviceMsg.Stream.{Frame, deserialize-Frame, deserialize_cut}
use droidctl.Receiver.{Action, Config, process_msg, process_msgs, device_msg_max_size}
use droidctl.Binary.{write16be, write32be, write64be}
use native.Mathlib.Decide.{dec_lt}

-- A stream of whole messages.
pub data Frames : List ℕ → List DeviceMsg → Type 0 where
  nil : Frames [] []
  cons :
      {sent stream : List ℕ} {msg : DeviceMsg} {msgs : List DeviceMsg}
      → Frame sent msg
      → Frames stream msgs
      → Frames (sent ++ stream) (msg ∷ msgs)

abbrev pub actions : Config → List DeviceMsg → List Action
actions config [] = []
actions config (msg ∷ msgs) = process_msg config msg ++ actions config msgs

pub actions-append :
    (config : Config) (msgs more : List DeviceMsg)
    → actions config (msgs ++ more) ≡ actions config msgs ++ actions config more
actions-append config [] more = refl
actions-append config (msg ∷ msgs) more =
    ap (λ l. process_msg config msg ++ l) (actions-append config msgs more)
    ∙ sym (append_assoc (process_msg config msg) (actions config msgs) (actions config more))

-- The bytes in the buffer, and those still to come: no whole message is in the buffer.
pub data Waiting (left later : List ℕ) : List DeviceMsg → Type 0 where
  drained : left ≡ [] → later ≡ [] → Waiting left later []
  waiting :
      {sent stream : List ℕ} {msg : DeviceMsg} {msgs : List DeviceMsg}
      → Frame sent msg
      → Frames stream msgs
      → left ++ later ≡ sent ++ stream
      → length left < length sent
      → Waiting left later (msg ∷ msgs)

pub Waiting-Frames :
    {left later : List ℕ} {msgs : List DeviceMsg}
    → Waiting left later msgs
    → (stream : List ℕ) × Frames stream msgs × (left ++ later ≡ stream)
Waiting-Frames (drained e f) = ([], Frames.nil, ap₂ ◌++◌ e f)
Waiting-Frames (waiting {sent} {stream} f fs e h) = (sent ++ stream, Frames.cons f fs, e)

pub Frame-nonempty : {sent : List ℕ} {msg : DeviceMsg} → Frame sent msg → 0 < length sent
Frame-nonempty (Frame.clipboard text h) = omega arith
Frame-nonempty (Frame.ack_clipboard sequence h) = omega arith
Frame-nonempty (Frame.uhid_output id bytes hid h) = omega arith

pub Frame-short :
    {sent : List ℕ} {msg : DeviceMsg} → Frame sent msg → length sent ≤ device_msg_max_size
unfolding write32be write64be write16be
Frame-short (Frame.clipboard text h) = omega arith
Frame-short (Frame.ack_clipboard sequence h) = omega arith
Frame-short (Frame.uhid_output id bytes hid h) = omega arith

front_nil : (xs ys : List ℕ) → xs ++ ys ≡ [] → xs ≡ []
front_nil [] ys e = refl
front_nil (x ∷ xs) ys e = cc

-- With nothing in the buffer the receiver waits.
pub empty_waits :
    {left later stream : List ℕ} {msgs : List DeviceMsg}
    → Frames stream msgs
    → left ≡ []
    → left ++ later ≡ stream
    → Waiting left later msgs
empty_waits {later} Frames.nil nothing e = drained nothing (ap (λ l. l ++ later) (sym nothing) ∙ e)
empty_waits (Frames.cons f fs) nothing e =
    waiting f fs e (omega (arith, ap length nothing, Frame-nonempty f))

deserialize_nil : (malloc : ℕ → Bool) → deserialize malloc [] ≡ incomplete
unfolding deserialize
deserialize_nil malloc = refl

module _ (malloc : ℕ → Bool) (memory : (n : ℕ) → n ≤ message_max_size → malloc n ≡ true)
    (config : Config) where
  -- What `process_msgs` does on `buf` from `head` on, when `later` is still to come.
  pub record Processed (buf later : List ℕ) (head fuel : ℕ) (msgs : List DeviceMsg) : Type 0 where
    pub done : List DeviceMsg
    pub todo : List DeviceMsg
    pub consumed : ℕ
    pub all : msgs ≡ done ++ todo
    pub result : process_msgs malloc config fuel buf head ≡ (actions config done, some consumed)
    pub wait : Waiting (drop consumed buf) later todo

  process_incomplete :
      (fuel : ℕ) (buf : List ℕ) (head : ℕ)
      → deserialize malloc (drop head buf) ≡ incomplete
      → process_msgs malloc config (suc fuel) buf head ≡ ([], some head)
  unfolding process_msgs
  process_incomplete fuel buf head e = rw (e, process_msgs)

  process_last :
      (fuel : ℕ) (buf : List ℕ) (head r : ℕ) (msg : DeviceMsg)
      → deserialize malloc (drop head buf) ≡ parsed msg r
      → (head + r == length buf) ≡ true
      → process_msgs malloc config (suc fuel) buf head ≡ (process_msg config msg, some (head + r))
  unfolding process_msgs
  process_last fuel buf head r msg e last = rw (e, process_msgs) (rw last)

  pub process_more :
      (fuel : ℕ) (buf : List ℕ) (head r : ℕ) (msg : DeviceMsg) {done : List Action} {n : Option ℕ}
      → deserialize malloc (drop head buf) ≡ parsed msg r
      → (head + r == length buf) ≡ false
      → process_msgs malloc config fuel buf (head + r) ≡ (done, n)
      → process_msgs malloc config (suc fuel) buf head ≡ (process_msg config msg ++ done, n)
  unfolding process_msgs
  process_more fuel buf head r msg e more rest = rw (e, process_msgs) (rw more (rw rest))

  -- The loop stops at `head`, with nothing done.
  stopped :
      (fuel : ℕ) (buf later : List ℕ) (head : ℕ) {msgs : List DeviceMsg}
      → process_msgs malloc config fuel buf head ≡ ([], some head)
      → Waiting (drop head buf) later msgs
      → Processed buf later head fuel msgs
  stopped fuel buf later head {msgs} e w = record {
    done = [];
    todo = msgs;
    consumed = head;
    all = refl;
    result = e;
    wait = w;
  }

  last_message :
      (fuel : ℕ) (buf later : List ℕ) (head : ℕ) {r : ℕ} (msg : DeviceMsg) {stream : List ℕ}
      {msgs : List DeviceMsg}
      → deserialize malloc (drop head buf) ≡ parsed msg r
      → (head + r == length buf) ≡ true
      → Frames stream msgs
      → drop (head + r) buf ++ later ≡ stream
      → Processed buf later head (suc fuel) (msg ∷ msgs)
  last_message fuel buf later head {r} msg {msgs} read last fs next = record {
    done = msg ∷ [];
    todo = msgs;
    consumed = head + r;
    all = refl;
    result =
        process_last fuel buf head r msg read last
        ∙ ap (λ l. (l, some (head + r))) (sym (append-nil (process_msg config msg)));
    wait = empty_waits fs (length-zero _ (ground (arith, length-drop (head + r) buf))) next;
  }

  more_messages :
      (fuel : ℕ) (buf later : List ℕ) (head : ℕ) {r : ℕ} (msg : DeviceMsg) {msgs : List DeviceMsg}
      → deserialize malloc (drop head buf) ≡ parsed msg r
      → (head + r == length buf) ≡ false
      → Processed buf later (head + r) fuel msgs
      → Processed buf later head (suc fuel) (msg ∷ msgs)
  more_messages fuel buf later head {r} msg read more p = record {
    done = msg ∷ p.done;
    todo = p.todo;
    consumed = p.consumed;
    all = ap (λ l. msg ∷ l) p.all;
    result = process_more fuel buf head r msg read more p.result;
    wait = p.wait;
  }

  pub processed :
      (fuel : ℕ) (buf later : List ℕ) (head : ℕ) {stream : List ℕ} {msgs : List DeviceMsg}
      → head ≤ length buf
      → length (drop head buf) ≤ fuel
      → Frames stream msgs
      → drop head buf ++ later ≡ stream
      → Processed buf later head fuel msgs
  processed zero buf later head inside enough fs e =
      stopped zero buf later head (unfold process_msgs in refl)
        (empty_waits fs (length-zero _ enough) e)
  processed (suc fuel) buf later head inside enough Frames.nil e =
      let none_left : drop head buf ≡ [] = front_nil _ _ e in
      stopped (suc fuel) buf later head
        (process_incomplete fuel buf head
          (ap (deserialize malloc) none_left ∙ deserialize_nil malloc))
        (empty_waits Frames.nil none_left e)
  processed (suc fuel) buf later head inside enough (Frames.cons {sent} {stream} {msg} {msgs} f fs)
        e =
      elim (dec_lt (length (drop head buf)) (length sent)) [
        | yes short ↦
            stopped (suc fuel) buf later head
              (process_incomplete fuel buf head (
                ap (deserialize malloc)
                  (append_split_shorter sent stream (drop head buf) later e (omega arith))
                ∙ deserialize_cut malloc memory _ f short))
              (waiting f fs e short)
        | no whole ↦
            let (front, back) =
              append_split_longer sent stream (drop head buf) later e (omega arith) in
            let read : deserialize malloc (drop head buf) ≡ parsed msg (length sent) =
              ap (deserialize malloc) front
              ∙ deserialize-Frame malloc memory (drop (length sent) (drop head buf)) f in
            let past : head + length sent ≤ length buf = omega (arith, length-drop head buf) in
            let next : drop (head + length sent) buf ++ later ≡ stream =
              ap (λ l. l ++ later) (sym (drop-drop head (length sent) buf)) ∙ back in
            elim (Bool-cases (head + length sent == length buf)) [
              | inl last ↦ last_message fuel buf later head msg read last fs next
              | inr more ↦ more_messages fuel buf later head msg read more (
                  processed fuel buf later (head + length sent) past
                    (omega (
                      arith,
                      length-drop head buf,
                      length-drop (head + length sent) buf,
                      Frame-nonempty f,
                    ))
                    fs next)
            ]
      ]
