-- ===== src/AudioBuf/Write.antt =====
-- Writing to the audio buffer adds samples at its end.
use droidctl.Base.{
  ℕ, ◌+◌, ◌-◌, ◌%◌, ◌≤◌, ◌<◌, min, ◌≡◌, refl, ap, ap₂, sym, ◌∙◌, inl, inr, ◌⊎◌, Bool-cases,
}
use droidctl.Base.{
  List, [], ◌∷◌, ◌++◌, length, take, drop, get_or, ltb, ltb_false→ge, ==_iff, eqb_ne, arith,
  append-nil,
}
use droidctl.Base.{
  take_all, replicate, length-replicate, length-take, length-drop, get_or-take, get_or-drop,
}
use droidctl.Base.Buffer.{write_at, length-write_at}
use droidctl.Binary.{u32}
use droidctl.VecDeque.Inv.{tabulate, tabulate_ext, length-tabulate, wrap_once}
use droidctl.AudioBuf.{AudioBuf, capacity, can_read, can_write, write, write_silence, stored}
use droidctl.AudioBuf.Fifo.{
  IsValid, slot, contents, tabulate-add, list_ext, can_read_lem, can_write_lem,
}
use droidctl.AudioBuf.Stores.{get_or-write_at_before, get_or-write_at_in, get_or-write_at_after}
use native.Mathlib.Nat.{mod-eq_of_lt, mod-eq-sub-mod, mod-lt}
use native.Mathlib.Decide.{dec_lt, ℕ_discrete}

write_nothing : {B : Type 0} (xs ys : List B) (k : ℕ) → k ≡ 0 → write_at xs 0 (take k ys) ≡ xs
write_nothing [] ys k e = refl
write_nothing (x ∷ xs) ys k e = ap (λ n. write_at (x ∷ xs) 0 (take n ys)) e

module _ {A : Type 0} (d : A) (buf : AudioBuf A) (from : List A) (n : ℕ) (h : IsValid d buf)
    (fits : n ≤ can_write buf) (enough : n ≤ length from) where
  r : ℕ
  r = min (buf.alloc_size - buf.head) n

  right : List A
  right = write_at buf.samples buf.head (take r from)

  both : List A
  both = write_at right 0 (take (n - r) (drop r from))

  room_left : n + can_read buf < buf.alloc_size
  room_left = omega (arith, fits, can_write_lem d buf h)

  lengths :
      (length right ≡ buf.alloc_size)
      × (length (take r from) ≡ r)
      × (length (take (n - r) (drop r from)) ≡ n - r)
  unfolding right r
  lengths = (
    length-write_at buf.samples buf.head (take r from) ∙ h.room,
    omega (arith, enough, length-take r from),
    omega (arith, enough, length-take (n - r) (drop r from), length-drop r from),
  )

  stored-both : stored buf from n ≡ both
  unfolding both right r
  stored-both = elim (Bool-cases (ltb r n)) [
    | inl e ↦ rw e refl
    | inr e ↦
        rw e (sym (write_nothing right (drop r from) (n - r) (omega (arith, ltb_false→ge r n e))))
  ]

  stored_new : (i : ℕ) → i < n → get_or both ((buf.head + i) % buf.alloc_size) d ≡ get_or from i d
  unfolding both right r
  stored_new i p = elim (dec_lt i r) [
    | yes before ↦
        ap (λ k. get_or both k d) (mod-eq_of_lt (omega (arith, h)))
        ∙ get_or-write_at_after d right 0 (take (n - r) (drop r from)) (buf.head + i)
            (omega (arith, h, lengths, room_left))
        ∙ get_or-write_at_in d buf.samples buf.head (take r from) (buf.head + i)
            (omega (arith, h, lengths)) (omega arith) (omega (arith, lengths))
        ∙ get_or-take r from (buf.head + i - buf.head) d (omega arith)
        ∙ ap (λ k. get_or from k d) {x = buf.head + i - buf.head} {y = i} (omega arith)
    | no after ↦
        ap (λ k. get_or both k d) {x = (buf.head + i) % buf.alloc_size} {y = i - r}
          (mod-eq-sub-mod {n = buf.head + i} {m = buf.alloc_size} (omega (arith, h))
            ∙ ap (λ k. k % buf.alloc_size) {x = buf.head + i - buf.alloc_size} {y = i - r}
                (omega (arith, h))
            ∙ mod-eq_of_lt (omega (arith, h, room_left)))
        ∙ get_or-write_at_in d right 0 (take (n - r) (drop r from)) (i - r)
            (omega (arith, h, lengths, room_left)) (omega arith) (omega (arith, lengths))
        ∙ get_or-take (n - r) (drop r from) (i - r - 0) d (omega arith)
        ∙ get_or-drop r from (i - r - 0) d
        ∙ ap (λ k. get_or from k d) {x = r + (i - r - 0)} {y = i} (omega arith)
  ]

  stored_old :
      (i : ℕ) → i < can_read buf → get_or both ((buf.tail + i) % buf.alloc_size) d ≡ slot d buf i
  unfolding both right r
  stored_old i p =
      get_or-write_at_after d right 0 (take (n - r) (drop r from)) j
        (omega (arith, h, lengths, room_left, where_is))
      ∙ inner
    where
      j : ℕ
      j = (buf.tail + i) % buf.alloc_size

      where_is :
          ((j ≡ buf.tail + i)
            ⊎ ((j + buf.alloc_size ≡ buf.tail + i) × (buf.alloc_size ≤ buf.tail + i)))
          × ((buf.tail ≤ buf.head × (can_read buf + buf.tail ≡ buf.head))
              ⊎ (buf.head < buf.tail × (can_read buf + buf.tail ≡ buf.head + buf.alloc_size)))
      where_is = (
        wrap_once (buf.tail + i) buf.alloc_size (omega (arith, h, room_left)) (omega (arith, h)),
        can_read_lem d buf h,
      )

      inner : get_or right j d ≡ get_or buf.samples j d
      inner = elim (dec_lt j buf.head) [
        | yes before ↦ get_or-write_at_before d buf.samples buf.head (take r from) j before
        | no after ↦
            get_or-write_at_after d buf.samples buf.head (take r from) j
              (omega (arith, h, lengths, room_left, where_is))
      ]

  abbrev written : AudioBuf A
  written = record buf { samples = stored buf from n; head = u32 (buf.head + n) % buf.alloc_size }

  no_overflow : u32 (buf.head + n) ≡ buf.head + n
  no_overflow = mod-eq_of_lt (omega (arith, h, room_left))

  written-IsValid : IsValid d written
  unfolding both
  written-IsValid = record {
    room = ap length stored-both ∙ length-write_at right 0 (take (n - r) (drop r from)) ∙ lengths.0;
    head_in = mod-lt (u32 (buf.head + n)) (omega (arith, h));
    tail_in = h.tail_in;
    small = h.small;
  }

  can_read-written : can_read written ≡ can_read buf + n
  can_read-written = omega (
    arith,
    h,
    room_left,
    can_read_lem d buf h,
    can_read_lem d written written-IsValid,
    ap (λ t. t % buf.alloc_size) no_overflow,
    wrap_once (buf.head + n) buf.alloc_size (omega (arith, h, room_left)) (omega (arith, h)),
  )

  end_index :
      (i : ℕ) → (buf.tail + (can_read buf + i)) % buf.alloc_size ≡ (buf.head + i) % buf.alloc_size
  end_index i = elim (can_read_lem d buf h) [
    | inl (le, used) ↦
        ap (λ k. k % buf.alloc_size) {x = buf.tail + (can_read buf + i)} {y = buf.head + i}
          (omega (arith, used))
    | inr (gt, used) ↦
        mod-eq-sub-mod {n = buf.tail + (can_read buf + i)} {m = buf.alloc_size}
          (omega (arith, used))
        ∙ ap (λ k. k % buf.alloc_size) {x = buf.tail + (can_read buf + i) - buf.alloc_size}
            {y = buf.head + i} (omega (arith, used))
  ]

  contents-written : contents d written ≡ contents d buf ++ take n from
  unfolding contents
  contents-written =
      ap (λ k. tabulate k (slot d written)) can_read-written
      ∙ tabulate-add (can_read buf) n (slot d written)
      ∙ ap₂ (λ a b. a ++ b)
          (tabulate_ext (can_read buf) _ _ (λ i p.
            ap (λ l. get_or l ((buf.tail + i) % buf.alloc_size) d) stored-both ∙ stored_old i p))
          (sym (
            list_ext (take n from) n (λ i. slot d written (can_read buf + i)) d
              (omega (arith, enough, length-take n from))
              (λ i p.
                get_or-take n from i d p
                ∙ sym (
                    ap (λ l. get_or l ((buf.tail + (can_read buf + i)) % buf.alloc_size) d)
                      stored-both
                    ∙ ap (λ k. get_or both k d) (end_index i)
                    ∙ stored_new i p))))

-- `write` of samples that are there, on a valid buffer, adds the first of them after those in the
-- buffer, as many as are given and as fit its capacity, and says how many.
pub contents-write :
    {A : Type 0} (d : A) (buf : AudioBuf A) (from : List A) (samples_count : ℕ)
    → IsValid d buf
    → samples_count ≤ length from
    → let r = write buf from samples_count in
      IsValid d r.1
      × (contents d r.1 ≡ contents d buf ++ take r.0 from)
      × (r.0 ≡ min samples_count (capacity buf - length (contents d buf)))
unfolding write contents
contents-write d buf from count h enough = elim (ℕ_discrete (can_write buf) 0) [
  | yes full ↦ rw ((==_iff (can_write buf) 0).1 full) (
    h,
    sym (append-nil _),
    omega (arith, full, can_write_lem d buf h, length-tabulate (can_read buf) (slot d buf)),
  )
  | no some_left ↦ rw (eqb_ne (can_write buf) 0 some_left) (
    written-IsValid d buf from n h within there,
    contents-written d buf from n h within there,
    omega (arith, can_write_lem d buf h, length-tabulate (can_read buf) (slot d buf)),
  )
]
  where
    n : ℕ
    n = min count (can_write buf)

    within : n ≤ can_write buf
    within = omega arith

    there : n ≤ length from
    there = omega (arith, enough)

-- `write_silence` on a valid buffer adds silent samples after those in the buffer, as many as are
-- asked for and as fit its capacity, and says how many.
pub contents-write_silence :
    {A : Type 0} (d silence : A) (buf : AudioBuf A) (samples_count : ℕ)
    → IsValid d buf
    → let r = write_silence silence buf samples_count in
      IsValid d r.1
      × (contents d r.1 ≡ contents d buf ++ replicate r.0 silence)
      × (r.0 ≡ min samples_count (capacity buf - length (contents d buf)))
unfolding write_silence contents
contents-write_silence {A} d silence buf count h = elim (ℕ_discrete (can_write buf) 0) [
  | yes full ↦ rw ((==_iff (can_write buf) 0).1 full) (
    h,
    sym (append-nil _),
    omega (arith, full, can_write_lem d buf h, length-tabulate (can_read buf) (slot d buf)),
  )
  | no some_left ↦ rw (eqb_ne (can_write buf) 0 some_left) (
    written-IsValid d buf silent n h within there,
    contents-written d buf silent n h within there
        ∙ ap (λ l. contents d buf ++ l)
            (take_all n silent (omega (arith, length-replicate {A = A} n silence))),
    omega (arith, can_write_lem d buf h, length-tabulate (can_read buf) (slot d buf)),
  )
]
  where
    n : ℕ
    n = min count (can_write buf)

    silent : List A
    silent = replicate n silence

    within : n ≤ can_write buf
    within = omega arith

    there : n ≤ length silent
    there = omega (arith, length-replicate {A = A} n silence)
