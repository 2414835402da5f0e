-- ===== src/VecDeque/Refine.antt =====
-- A growable queue as the list of its items: `push` adds at the end or, without memory, changes nothing.
use droidctl.Base.{ℕ, ◌+◌, ◌/◌, ◌^◌, ◌≤◌, ◌<◌, max, ◌⊎◌, inl, inr, ◌≡◌, refl, ap, ◌∙◌}
use droidctl.Base.{
  Bool, true, false, some, [], ◌∷◌, ◌++◌, arith, ltb, leb, ltb→lt, leb→le, leb_false→gt,
  ltb_false→ge, ==_iff, eqb_ne, Bool-cases,
}
use droidctl.VecDeque.{
  VecDeque, min_cap, growsize, clamp, push_noresize, realloc, reserve, grow, grow_if_needed, push,
}
use droidctl.VecDeque.Inv.{IsValid, contents, push_noresize-IsValid, contents-push_noresize}
use droidctl.VecDeque.Moved.{moved-IsValid, contents-moved, size-moved, cap-moved}
use native.Mathlib.Nat.{mod-eq_of_lt}
use native.Mathlib.Decide.{ℕ_discrete}

growsize_lem : (n : ℕ) → n < 2 ^ 63 → growsize n ≡ n + n / 2
growsize_lem n h = mod-eq_of_lt (omega arith)

-- The next capacity is larger.
clamp-growsize :
    (n low high : ℕ) → n < high → high < 2 ^ 63 → 1 < low → n < clamp (growsize n) low high
clamp-growsize n low high lt hi hl = omega (arith, growsize_lem n (omega arith))

module _ {A : Type 0} (max_cap : ℕ) (alloc : ℕ → Bool) (small : max_cap < 2 ^ 63) where
  -- What a call that makes room leaves: a valid queue of the same items.
  abbrev Kept : VecDeque A → VecDeque A → Type 0
  Kept v v' = IsValid v' × (contents v' ≡ contents v) × (v'.size ≡ v.size) × v.cap ≤ v'.cap

  Kept-refl : (v : VecDeque A) → IsValid v → Kept v v
  Kept-refl v h = (h, refl, refl, omega arith)

  -- A call that makes room for `newcap` items, or fails for want of memory.
  abbrev Grown : VecDeque A → ℕ → Bool × VecDeque A → Type 0
  Grown v newcap r =
      Kept v r.1
      × ((r.0 ≡ true) × (r.1.cap ≡ newcap) ⊎ (r.0 ≡ false) × (alloc newcap ≡ false) × (r.1 ≡ v))

  realloc_lem :
      (v : VecDeque A) (newcap : ℕ)
      → IsValid v
      → v.cap < newcap
      → Grown v newcap (realloc max_cap alloc v newcap)
  unfolding realloc
  realloc_lem v newcap h lt = elim (Bool-cases (alloc newcap)) [
    | inl ok ↦ rw ok (
      (
        moved-IsValid v newcap h lt,
        contents-moved v newcap h lt,
        size-moved v newcap h lt,
        rw (cap-moved v newcap h lt) (omega arith),
      ),
      inl (refl, cap-moved v newcap h lt),
    )
    | inr oom ↦ rw oom (Kept-refl v h, inr (refl, refl, refl))
  ]

  -- `reserve` keeps the items of a valid queue in order, and either makes room for `mincap` items,
  -- or fails and changes nothing: then `mincap` is over the maximum or memory is refused.
  pub contents-reserve :
      (v : VecDeque A) (mincap : ℕ)
      → IsValid v
      → let r = reserve max_cap alloc v mincap in
        IsValid r.1
        × (contents r.1 ≡ contents v)
        × (r.1.size ≡ v.size)
        × ((r.0 ≡ true) × mincap ≤ r.1.cap
            ⊎ (r.0 ≡ false)
              × (r.1 ≡ v)
              × (max_cap < max mincap min_cap
                  ⊎ (alloc (clamp (growsize v.cap) (max mincap min_cap) max_cap) ≡ false)))
  unfolding reserve
  contents-reserve v mincap h = elim (Bool-cases (leb (max mincap min_cap) v.cap)) [
    | inl enough ↦
        rw enough
          (h, refl, refl, inl (refl, omega (arith, leb→le (max mincap min_cap) v.cap enough)))
    | inr less ↦ elim (Bool-cases (leb (max mincap min_cap) max_cap)) [
      | inr over ↦ rw (less, over) (h, refl, refl, inr (refl, refl, inl (leb_false→gt _ _ over)))
      | inl under ↦
          let newcap = clamp (growsize v.cap) (max mincap min_cap) max_cap in
          let ((valid, same_items, same_size, _), outcome) =
            realloc_lem v newcap h (omega (arith, leb_false→gt _ _ less, leb→le _ _ under)) in
          rw (less, under)
            (
              valid,
              same_items,
              same_size,
              elim outcome [
                | inl (ok, newcap_is) ↦ inl (ok, rw newcap_is (omega (arith, leb→le _ _ under)))
                | inr (failed, oom, same) ↦ inr (failed, same, inr oom)
              ],
            )
    ]
  ]

  grow_if_needed_lem :
      (v : VecDeque A)
      → IsValid v
      → let r = grow_if_needed max_cap alloc v in
        Kept v r.1
        × ((r.0 ≡ true) × r.1.size < r.1.cap
            ⊎ (r.0 ≡ false)
              × (r.1 ≡ v)
              × (v.size ≡ v.cap)
              × (max_cap ≤ v.cap ⊎ (alloc (clamp (growsize v.cap) min_cap max_cap) ≡ false)))
  unfolding grow_if_needed grow
  grow_if_needed_lem v h = elim (ℕ_discrete v.size v.cap) [
    | no room ↦ rw (eqb_ne v.size v.cap room) (Kept-refl v h, inl (refl, omega (arith, h)))
    | yes full ↦ elim (Bool-cases (ltb v.cap max_cap)) [
      | inr over ↦
          rw ((==_iff v.size v.cap).1 full)
            (rw over (Kept-refl v h, inr (refl, refl, full, inl (ltb_false→ge v.cap max_cap over))))
      | inl under ↦
          let lt = clamp-growsize v.cap min_cap max_cap (ltb→lt _ _ under) small (omega arith) in
          let grown = realloc_lem v (clamp (growsize v.cap) min_cap max_cap) h lt in
          rw ((==_iff v.size v.cap).1 full) (
            rw under (
              grown.0,
              elim grown.1 [
                | inl (ok, newcap_is) ↦ inl (ok, rw newcap_is (omega (arith, lt)))
                | inr (failed, oom, same) ↦ inr (failed, same, full, inr oom)
              ],
            ))
    ]
  ]

  -- `push` on a valid queue adds the item after the others, growing a full queue first; it fails only
  -- on a full queue at its maximum or without memory, and then changes nothing. The capacity never
  -- shrinks.
  pub contents-push :
      (v : VecDeque A) (x : A)
      → IsValid v
      → let r = push max_cap alloc v x in
        IsValid r.1
        × v.cap ≤ r.1.cap
        × ((r.0 ≡ true) × (contents r.1 ≡ contents v ++ (some x ∷ []))
            ⊎ (r.0 ≡ false)
              × (r.1 ≡ v)
              × (v.size ≡ v.cap)
              × (max_cap ≤ v.cap ⊎ (alloc (clamp (growsize v.cap) min_cap max_cap) ≡ false)))
  unfolding push push_noresize
  contents-push v x h =
      let ((valid, same_items, _, larger), outcome) = grow_if_needed_lem v h in
      elim outcome [
        | inl (ok, room) ↦ rw ok (
          push_noresize-IsValid _ x valid room,
          larger,
          inl (
            refl,
            contents-push_noresize _ x valid room ∙ ap (λ l. l ++ (some x ∷ [])) same_items,
          ),
        )
        | inr (failed, unchanged, full, why) ↦
            rw failed (valid, larger, inr (refl, unchanged, full, why))
      ]
