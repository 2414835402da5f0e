-- ===== src/Controller.antt =====
-- app/src/controller.{h,c}: the queue of control messages and the thread that sends them.
pub mod Queue
pub mod Send
pub mod Threads
pub mod Invariant
pub mod Delivery
pub mod Drain
use droidctl.Base.{
  ℕ, ◌+◌, Bool, true, false, not, ◌&&◌, Option, none, some, List, [], ◌++◌, take, ltb, ◌==◌,
  if◌then◌else◌,
}
use droidctl.Floats.{Floats}
use droidctl.ControlMsg.{ControlMsg, Written, serialize, is_droppable}
use droidctl.VecDeque.{VecDeque, reserve, is_empty, push_noresize, push, pop}
use droidctl.VecDeque as deque

abbrev pub control_msg_queue_limit : ℕ
control_msg_queue_limit = 60

-- `struct sc_controller`, without the socket, the synchronization objects and the receiver.
pub record Controller (Float : Type 0) : Type 0 where
  pub queue : VecDeque (ControlMsg Float)
  pub stopped : Bool
  pub resize_width : ℕ
  pub resize_height : ℕ

-- What the thread does with the mutex held: wait for a signal, stop, or take a message. The message
-- is `none` if the slot of the queue was never written.
pub data Taken (Float : Type 0) : Type 0 where
  waiting : Taken Float
  stopping : Taken Float
  took : Option (ControlMsg Float) → Controller Float → Taken Float

-- What `process_msg` returns, with its `eos`.
pub data Processed : Type 0 where
  processed : Processed
  not_processed : (eos : Bool) → Processed

module _ {Float : Type 0} where
  -- `inits` tells whether the receiver, the mutex and the condition could be created.
  unfoldable pub init : ℕ → (ℕ → Bool) → Bool → Option (Controller Float)
  init max_cap alloc inits =
      let reserved = reserve max_cap alloc deque.init (control_msg_queue_limit + 4) in
      if not (reserved.0)
      then none
      else if not inits
      then none
      else some record { queue = reserved.1; stopped = false; resize_width = 0; resize_height = 0 }

  unfoldable pub push_msg :
      ℕ → (ℕ → Bool) → Controller Float → ControlMsg Float → Bool × Controller Float
  push_msg max_cap alloc controller msg =
      if ltb (controller.queue.size) control_msg_queue_limit
      then (true, record controller { queue = push_noresize controller.queue msg })
      else if not (is_droppable msg)
      then (let pushed = push max_cap alloc controller.queue msg in
          (pushed.0, record controller { queue = pushed.1 }))
      else (false, controller)

  unfoldable pub resize_display : Controller Float → ℕ → ℕ → Controller Float
  resize_display controller width height = record controller {
    resize_width = width;
    resize_height = height;
  }

  unfoldable pub stop : Controller Float → Controller Float
  stop controller = record controller { stopped = true }

  -- The part of a round of `run_controller` that holds the mutex.
  unfoldable pub next_msg : Controller Float → Taken Float
  next_msg controller =
      let has_resize_display = not (controller.resize_width == 0) in
      if not controller.stopped && not has_resize_display && is_empty controller.queue
      then waiting
      else if controller.stopped
      then stopping
      else if has_resize_display
      then took (some (ControlMsg.resize_display controller.resize_width controller.resize_height))
          (record controller { resize_width = 0; resize_height = 0 })
      else let popped = pop controller.queue in
        took popped.0 (record controller { queue = popped.1 })

-- `process_msg`: the static buffer after it, the bytes given to `net_send_all`, and the result.
-- `all_sent` tells whether `net_send_all` sends all of them.
unfoldable pub process_msg :
    (floats : Floats)
    → List ℕ
    → ControlMsg floats.Float
    → Bool
    → Option (List ℕ × List ℕ × Processed)
process_msg floats serialized_msg msg all_sent = elim (serialize floats msg serialized_msg) [
  | none ↦ none
  | some (buf, length) ↦ some (
      if length == 0
      then (buf, [], not_processed false)
      else if not all_sent
      then (buf, take length buf, not_processed true)
      else (buf, take length buf, processed))
]
