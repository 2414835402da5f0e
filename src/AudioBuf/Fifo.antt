-- ===== src/AudioBuf/Fifo.antt =====
-- The audio buffer as a bounded queue of samples.
use droidctl.Base.{
  ℕ, zero, suc, ◌+◌, ◌-◌, ◌%◌, ◌^◌, ◌≤◌, ◌<◌, min, ◌≡◌, refl, ap, ap₂, sym, ◌∙◌, inl, inr, ◌⊎◌,
  Bool-cases,
}
use droidctl.Base.{
  List, [], ◌∷◌, ◌++◌, length, take, drop, get_or, ltb, ltb_false→ge, ==_iff, eqb_ne, if◌then◌else◌,
  arith, append_assoc, append-nil,
}
use droidctl.Base.{
  length-append, length-take, length-drop, get_or-append_left, get_or-append_right, get_or-take,
  get_or-drop,
}
use droidctl.VecDeque.Inv.{tabulate, tabulate_ext, tabulate-suc, length-tabulate, wrap_once}
use droidctl.Binary.{u32}
use droidctl.AudioBuf.{AudioBuf, can_read, can_write, read}
use native.Mathlib.Nat.{mod-eq_of_lt, mod-eq-sub-mod, mod-add-mod, mod-lt}
use native.Mathlib.Decide.{dec_lt, dec_le, ℕ_discrete}

pub tabulate-add :
    {B : Type 0} (m n : ℕ) (f : ℕ → B)
    → tabulate (m + n) f ≡ tabulate m f ++ tabulate n (λ i. f (m + i))
tabulate-add m zero f =
    ap (λ k. tabulate k f) {x = m + 0} {y = m} (omega arith) ∙ sym (append-nil _)
tabulate-add m (suc n) f =
    ap (λ k. tabulate k f) {x = m + suc n} {y = suc (m + n)} (omega arith)
    ∙ ap (λ l. l ++ (f (m + n) ∷ [])) (tabulate-add m n f)
    ∙ append_assoc (tabulate m f) (tabulate n (λ i. f (m + i))) (f (m + n) ∷ [])

-- A list is the values that stand in it.
pub list_ext :
    {B : Type 0} (xs : List B) (n : ℕ) (f : ℕ → B) (d : B)
    → length xs ≡ n
    → ((i : ℕ) → i < n → get_or xs i d ≡ f i)
    → xs ≡ tabulate n f
list_ext [] zero f d e h = refl
list_ext [] (suc n) f d e h = absurd (omega arith)
list_ext (x ∷ xs) zero f d e h = absurd (omega arith)
list_ext (x ∷ xs) (suc n) f d e h =
    ap₂ (λ a l. a ∷ l) (h 0 (omega arith))
      (list_ext xs n (λ i. f (suc i)) d (omega arith) (λ i p. h (suc i) (omega arith)))
    ∙ sym (tabulate-suc n f)

no_more :
    {B : Type 0} (r n : ℕ) (xs : List B)
    → (if ltb r n then take (n - r) xs else []) ≡ take (n - r) xs
no_more r n xs = elim (Bool-cases (ltb r n)) [
  | inl e ↦ rw e refl
  | inr e ↦ rw e (ap (λ k. take k xs) {x = 0} {y = n - r} (omega (arith, ltb_false→ge r n e)))
]

module _ {A : Type 0} (d : A) where
  pub record IsValid (buf : AudioBuf A) : Type 0 where
    pub room : length buf.samples ≡ buf.alloc_size
    pub head_in : buf.head < buf.alloc_size
    pub tail_in : buf.tail < buf.alloc_size
    pub small : buf.alloc_size ≤ 2 ^ 31

  abbrev pub slot : AudioBuf A → ℕ → A
  slot buf i = get_or buf.samples ((buf.tail + i) % buf.alloc_size) d

  -- The samples that can be read, in order.
  unfoldable pub contents : AudioBuf A → List A
  contents buf = tabulate (can_read buf) (slot buf)

  -- The cursors' distance.
  pub can_read_lem :
      (buf : AudioBuf A)
      → IsValid buf
      → (buf.tail ≤ buf.head × (can_read buf + buf.tail ≡ buf.head))
        ⊎ (buf.head < buf.tail × (can_read buf + buf.tail ≡ buf.head + buf.alloc_size))
  unfolding can_read
  can_read_lem buf h = elim (dec_le buf.tail buf.head) [
    | yes le ↦
        let once : (buf.alloc_size + buf.head - buf.tail) % buf.alloc_size ≡ buf.head - buf.tail =
          mod-eq-sub-mod {n = buf.alloc_size + buf.head - buf.tail} {m = buf.alloc_size}
            (omega (arith, h))
          ∙ ap (λ k. k % buf.alloc_size) {x = buf.alloc_size + buf.head - buf.tail - buf.alloc_size}
              {y = buf.head - buf.tail} (omega (arith, h))
          ∙ mod-eq_of_lt (omega (arith, h)) in
        inl (le, omega (arith, exact, once))
    | no gt ↦ inr (
      omega arith,
      omega (
        arith,
        h,
        exact,
        mod-eq_of_lt {n = buf.alloc_size + buf.head - buf.tail} {m = buf.alloc_size}
            (omega (arith, h)),
      ),
    )
  ]
    where
      exact : can_read buf ≡ (buf.alloc_size + buf.head - buf.tail) % buf.alloc_size
      exact = ap (λ k. k % buf.alloc_size) (omega (arith, h))

  pub can_write_lem :
      (buf : AudioBuf A) → IsValid buf → can_write buf + can_read buf + 1 ≡ buf.alloc_size
  unfolding can_write
  can_write_lem buf h = elim (can_read_lem buf h) [
    | inl (le, used) ↦ omega (
      arith,
      h,
      used,
      exact,
      mod-eq_of_lt {n = buf.alloc_size + buf.tail - buf.head - 1} {m = buf.alloc_size}
          (omega (arith, h)),
    )
    | inr (gt, used) ↦
        let once : (buf.alloc_size + buf.tail - buf.head - 1) % buf.alloc_size
            ≡ buf.tail - buf.head - 1 =
          mod-eq-sub-mod {n = buf.alloc_size + buf.tail - buf.head - 1} {m = buf.alloc_size}
            (omega (arith, h))
          ∙ ap (λ k. k % buf.alloc_size)
              {x = buf.alloc_size + buf.tail - buf.head - 1 - buf.alloc_size}
              {y = buf.tail - buf.head - 1} (omega (arith, h))
          ∙ mod-eq_of_lt (omega (arith, h)) in
        omega (arith, h, used, exact, once)
  ]
    where
      exact : can_write buf ≡ (buf.alloc_size + buf.tail - buf.head - 1) % buf.alloc_size
      exact = ap (λ k. k % buf.alloc_size) (omega (arith, h))

  -- What `read` copies is the first samples, in order.
  copied :
      (buf : AudioBuf A) (n : ℕ)
      → IsValid buf
      → n < buf.alloc_size
      → let right_count = min (buf.alloc_size - buf.tail) n in
        take right_count (drop buf.tail buf.samples)
          ++ (if ltb right_count n then take (n - right_count) buf.samples else [])
        ≡ tabulate n (slot buf)
  copied buf n h lt =
      ap (λ l. take r (drop buf.tail buf.samples) ++ l) (no_more r n buf.samples)
      ∙ list_ext _ n (slot buf) d
          (omega (
            arith,
            h,
            length-append (take r (drop buf.tail buf.samples)) (take (n - r) buf.samples),
            length-take r (drop buf.tail buf.samples),
            length-drop buf.tail buf.samples,
            length-take (n - r) buf.samples,
          ))
          at_index
    where
      r : ℕ
      r = min (buf.alloc_size - buf.tail) n

      right_length : length (take r (drop buf.tail buf.samples)) ≡ r
      right_length =
          omega
            (arith, h, length-take r (drop buf.tail buf.samples), length-drop buf.tail buf.samples)

      at_index :
          (i : ℕ)
          → i < n
          → get_or (take r (drop buf.tail buf.samples) ++ take (n - r) buf.samples) i d ≡ slot buf i
      at_index i p = elim (dec_lt i r) [
        | yes before ↦
            get_or-append_left _ _ i d (omega (arith, right_length))
            ∙ get_or-take r (drop buf.tail buf.samples) i d before
            ∙ get_or-drop buf.tail buf.samples i d
            ∙ ap (λ k. get_or buf.samples k d) (sym (mod-eq_of_lt (omega (arith, h))))
        | no after ↦
            get_or-append_right _ _ i (i - r) d (omega (arith, right_length))
            ∙ get_or-take (n - r) buf.samples (i - r) d (omega arith)
            ∙ ap (λ k. get_or buf.samples k d) {x = i - r} {y = (buf.tail + i) % buf.alloc_size}
                (sym (
                  mod-eq-sub-mod {n = buf.tail + i} {m = buf.alloc_size} (omega (arith, h))
                  ∙ ap (λ k. k % buf.alloc_size) {x = buf.tail + i - buf.alloc_size} {y = i - r}
                      (omega (arith, h))
                  ∙ mod-eq_of_lt (omega (arith, h))))
      ]

  abbrev advanced : AudioBuf A → ℕ → AudioBuf A
  advanced buf n = record buf { tail = u32 (buf.tail + n) % buf.alloc_size }

  no_overflow :
      (buf : AudioBuf A) (n : ℕ)
      → IsValid buf
      → n ≤ can_read buf
      → u32 (buf.tail + n) ≡ buf.tail + n
  no_overflow buf n h le = mod-eq_of_lt (omega (arith, h, can_write_lem buf h))

  advanced-IsValid :
      (buf : AudioBuf A) (n : ℕ) → IsValid buf → n ≤ can_read buf → IsValid (advanced buf n)
  advanced-IsValid buf n h le = record {
    room = h.room;
    head_in = h.head_in;
    tail_in = mod-lt (u32 (buf.tail + n)) (omega (arith, h));
    small = h.small;
  }

  can_read-advanced :
      (buf : AudioBuf A) (n : ℕ)
      → IsValid buf
      → n ≤ can_read buf
      → can_read (advanced buf n) ≡ can_read buf - n
  can_read-advanced buf n h le = omega (
    arith,
    h,
    can_read_lem buf h,
    can_read_lem (advanced buf n) (advanced-IsValid buf n h le),
    ap (λ t. t % buf.alloc_size) (no_overflow buf n h le),
    wrap_once (buf.tail + n) buf.alloc_size (omega (arith, h, can_write_lem buf h))
        (omega (arith, h)),
  )

  contents-advanced :
      (buf : AudioBuf A) (n : ℕ)
      → IsValid buf
      → n ≤ can_read buf
      → tabulate (can_read (advanced buf n)) (slot (advanced buf n))
        ≡ tabulate (can_read buf - n) (λ i. slot buf (n + i))
  contents-advanced buf n h le =
      ap (λ k. tabulate k (slot (advanced buf n))) (can_read-advanced buf n h le)
      ∙ tabulate_ext (can_read buf - n) _ _ (λ i p.
        ap (λ k. get_or buf.samples k d)
          (ap (λ t. (t % buf.alloc_size + i) % buf.alloc_size) (no_overflow buf n h le)
            ∙ mod-add-mod (buf.tail + n) buf.alloc_size i
            ∙ ap (λ k. k % buf.alloc_size) {x = buf.tail + n + i} {y = buf.tail + (n + i)}
                (omega arith)))

  -- `read` on a valid buffer copies the first samples in order, as many as are asked for and there
  -- are, says how many, and leaves the others in order.
  pub contents-read :
      (buf : AudioBuf A) (samples_count : ℕ)
      → IsValid buf
      → let r = read buf samples_count in
        IsValid r.2
        × (contents buf ≡ r.0 ++ contents r.2)
        × (length r.0 ≡ r.1)
        × (r.1 ≡ min samples_count (length (contents buf)))
  unfolding read contents
  contents-read buf count h = elim (ℕ_discrete (can_read buf) 0) [
    | yes empty ↦
        rw ((==_iff (can_read buf) 0).1 empty)
          (h, refl, refl, omega (arith, empty, length-tabulate (can_read buf) (slot buf)))
    | no some_left ↦ rw (eqb_ne (can_read buf) 0 some_left) (
      advanced-IsValid buf n h within,
      ap (λ k. tabulate k (slot buf)) {x = can_read buf} {y = n + (can_read buf - n)} (omega arith)
          ∙ tabulate-add n (can_read buf - n) (slot buf)
          ∙ ap₂ (λ a b. a ++ b) (sym (copied buf n h less))
              (sym (contents-advanced buf n h within)),
      ap length (copied buf n h less) ∙ length-tabulate n (slot buf),
      ap (min count) (sym (length-tabulate (can_read buf) (slot buf))),
    )
  ]
    where
      n : ℕ
      n = min count (can_read buf)

      within : n ≤ can_read buf
      within = omega arith

      less : n < buf.alloc_size
      less = omega (arith, can_write_lem buf h)
