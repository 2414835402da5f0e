-- ===== src/AudioBuf.antt =====
-- app/src/util/audiobuf.{h,c}: a ring of audio samples between a writer and a reader. A sample, of
-- `sample_size` bytes, is one element of the array; `silence` is the sample of zero bytes.
pub mod Fifo
pub mod Stores
pub mod Write
use droidctl.Base.{
  ℕ, zero, suc, ◌+◌, ◌-◌, ◌%◌, ◌^◌, min, Bool, Option, none, some, List, [], ◌∷◌, ◌++◌, length,
  take, drop, replicate, ltb, ◌==◌, if◌then◌else◌,
}
use droidctl.Base.Buffer.{write_at}
use droidctl.Binary.{u32}

pub record AudioBuf (A : Type 0) : Type 0 where
  pub samples : List A
  pub alloc_size : ℕ
  pub head : ℕ
  pub tail : ℕ

module _ {A : Type 0} where
  -- `memory` is what `sc_allocarray` returns for `capacity + 1` samples.
  abbrev pub init : ℕ → Option (List A) → Option (AudioBuf A)
  init capacity none = none
  init capacity (some memory) =
      some (record { samples = memory; alloc_size = u32 (capacity + 1); head = 0; tail = 0 })

  abbrev pub capacity : AudioBuf A → ℕ
  capacity buf = buf.alloc_size - 1

  unfoldable pub can_read : AudioBuf A → ℕ
  can_read buf = u32 (buf.alloc_size + buf.head + 2 ^ 32 - buf.tail) % buf.alloc_size

  unfoldable pub can_write : AudioBuf A → ℕ
  can_write buf = u32 (buf.alloc_size + buf.tail + 2 ^ 33 - buf.head - 1) % buf.alloc_size

  -- The samples copied to `to`, their number, and the buffer.
  unfoldable pub read : AudioBuf A → ℕ → List A × ℕ × AudioBuf A
  read buf samples_count =
      let available = can_read buf in
      let samples_count = min samples_count available in
      let right_count = min (buf.alloc_size - buf.tail) samples_count in
      let right = take right_count (drop buf.tail buf.samples) in
      let left =
        if ltb right_count samples_count
        then take (samples_count - right_count) buf.samples
        else [] in
      if available == 0 then ([], 0, buf) else (
        right ++ left,
        samples_count,
        record buf { tail = u32 (buf.tail + samples_count) % buf.alloc_size },
      )

  -- The stores of `right_count` samples at the head and of the others at the start.
  abbrev pub stored : AudioBuf A → List A → ℕ → List A
  stored buf from samples_count =
      let right_count = min (buf.alloc_size - buf.head) samples_count in
      let samples = write_at buf.samples buf.head (take right_count from) in
      if ltb right_count samples_count
      then write_at samples 0 (take (samples_count - right_count) (drop right_count from))
      else samples

  unfoldable pub write : AudioBuf A → List A → ℕ → ℕ × AudioBuf A
  write buf from samples_count =
      let available = can_write buf in
      let samples_count = min samples_count available in
      if available == 0 then (0, buf) else (
        samples_count,
        record buf {
          samples = stored buf from samples_count;
          head = u32 (buf.head + samples_count) % buf.alloc_size;
        },
      )

  unfoldable pub write_silence : A → AudioBuf A → ℕ → ℕ × AudioBuf A
  write_silence silence buf samples_count =
      let available = can_write buf in
      let samples_count = min samples_count available in
      if available == 0 then (0, buf) else (
        samples_count,
        record buf {
          samples = stored buf (replicate samples_count silence) samples_count;
          head = u32 (buf.head + samples_count) % buf.alloc_size;
        },
      )
