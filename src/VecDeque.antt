-- ===== src/VecDeque.antt =====
-- app/src/util/vecdeque.h: a growable ring of items. A slot that nothing was stored in holds `none`.
pub mod Inv
pub mod Moved
pub mod Refine
use droidctl.Base.{
  ℕ, ◌+◌, ◌-◌, ◌/◌, ◌%◌, ◌^◌, ◌≤◌, ◌<◌, min, max, Bool, true, false, not, Option, none, some,
}
use droidctl.Base.{List, [], ◌∷◌, ◌++◌, length, take, drop, set, get_or, replicate, ltb, leb, ◌==◌}
use droidctl.Base.{if◌then◌else◌}

pub record VecDeque (A : Type 0) : Type 0 where
  pub cap : ℕ
  pub origin : ℕ
  pub size : ℕ
  pub slots : List (Option A)

-- `SC_VECDEQUE_MINCAP_`
abbrev pub min_cap : ℕ
min_cap = 10

abbrev pub growsize : ℕ → ℕ
growsize value = (value + value / 2) % 2 ^ 64

-- `CLAMP(newsize, low, high)`
abbrev pub clamp : ℕ → ℕ → ℕ → ℕ
clamp value low high = min (max value low) high

module _ {A : Type 0} where
  abbrev pub init : VecDeque A
  init = record { cap = 0; origin = 0; size = 0; slots = [] }

  abbrev pub is_empty : VecDeque A → Bool
  is_empty v = v.size == 0

  abbrev pub is_full : VecDeque A → Bool
  is_full v = v.size == v.cap

  -- `sc_vecdeque_reallocdata_` once memory for `newcap` items is there.
  unfoldable pub moved : VecDeque A → ℕ → VecDeque A
  moved v newcap =
      if leb (v.origin + v.size) v.cap
      then record v { cap = newcap; slots = v.slots ++ replicate (newcap - v.cap) none }
      else let right_len = min v.size (v.cap - v.origin) in
        record {
          cap = newcap;
          origin = 0;
          size = v.size;
          slots =
              take right_len (drop v.origin v.slots)
              ++ (take (v.size - right_len) v.slots ++ replicate (newcap - v.size) none);
        }

  -- `sc_vecdeque_push_noresize`; the assertion that the queue is not full is the callers' duty.
  unfoldable pub push_noresize : VecDeque A → A → VecDeque A
  push_noresize v item =
      let size = v.size + 1 in
      record v { size = size; slots = set v.slots ((v.origin + size - 1) % v.cap) (some item) }

  -- `sc_vecdeque_pop`; the assertion that the queue is not empty is the callers' duty.
  unfoldable pub pop : VecDeque A → Option A × VecDeque A
  pop v =
      let pos = v.origin in
      (get_or v.slots pos none, record v { origin = (v.origin + 1) % v.cap; size = v.size - 1 })

  -- `max_cap` is `SIZE_MAX / 2 / sizeof(item)`, and `alloc n` tells whether `n` items can be
  -- allocated. Each operation returns its `bool` and the queue.
  module _ (max_cap : ℕ) (alloc : ℕ → Bool) where
    unfoldable pub realloc : VecDeque A → ℕ → Bool × VecDeque A
    realloc v newcap = if alloc newcap then (true, moved v newcap) else (false, v)

    unfoldable pub reserve : VecDeque A → ℕ → Bool × VecDeque A
    reserve v mincap =
        let mincap = max mincap min_cap in
        if leb mincap v.cap
        then (true, v)
        else if leb mincap max_cap
        then realloc v (clamp (growsize v.cap) mincap max_cap)
        else (false, v)

    unfoldable pub grow : VecDeque A → Bool × VecDeque A
    grow v =
        if ltb v.cap max_cap then realloc v (clamp (growsize v.cap) min_cap max_cap) else (false, v)

    unfoldable pub grow_if_needed : VecDeque A → Bool × VecDeque A
    grow_if_needed v = if not (is_full v) then (true, v) else grow v

    unfoldable pub push : VecDeque A → A → Bool × VecDeque A
    push v item =
        let grown = grow_if_needed v in
        if grown.0 then (true, push_noresize grown.1 item) else grown
