-- ===== src/VecDeque/Moved.antt =====
-- Moving the items of a queue to more memory keeps them, in order.
use droidctl.Base.{ℕ, ◌+◌, ◌-◌, ◌%◌, ◌≤◌, ◌<◌, min, ◌≡◌, refl, ap, sym, ◌∙◌, inl, inr}
use droidctl.Base.{
  Option, none, List, ◌++◌, length, take, drop, get_or, replicate, arith, leb, leb→le, Bool-cases,
}
use droidctl.Base.{
  length-append, length-replicate, length-take, length-drop, get_or-append_left,
  get_or-append_right, get_or-take, get_or-drop,
}
use droidctl.VecDeque.{VecDeque, moved}
use droidctl.VecDeque.Inv.{IsValid, contents, slot, tabulate_ext, wrap_once}
use native.Mathlib.Nat.{mod-eq_of_lt}
use native.Mathlib.Decide.{dec_lt}

module _ {A : Type 0} (v : VecDeque A) (newcap : ℕ) (h : IsValid v) (more : v.cap < newcap) where
  right : ℕ
  right = min v.size (v.cap - v.origin)

  -- The array that the items of a ring that goes round its end are copied to.
  unrolled : List (Option A)
  unrolled =
      take right (drop v.origin v.slots)
      ++ (take (v.size - right) v.slots ++ replicate (newcap - v.size) none)

  length-unrolled : length unrolled ≡ newcap
  unfolding unrolled right
  length-unrolled = omega (
    arith,
    h,
    length-append (take right (drop v.origin v.slots))
        (take (v.size - right) v.slots ++ replicate (newcap - v.size) none),
    length-append (take (v.size - right) v.slots) (replicate {A = Option A} (newcap - v.size) none),
    length-take right (drop v.origin v.slots),
    length-drop v.origin v.slots,
    length-take (v.size - right) v.slots,
    length-replicate {A = Option A} (newcap - v.size) none,
  )

  get_or-unrolled : (i : ℕ) → i < v.size → get_or unrolled i none ≡ slot v i
  unfolding unrolled right
  get_or-unrolled i p = elim (dec_lt i right) [
    | yes lt ↦
        get_or-append_left _ _ i none (
          omega (arith, h, length-take right (drop v.origin v.slots), length-drop v.origin v.slots))
        ∙ get_or-take right (drop v.origin v.slots) i none lt
        ∙ get_or-drop v.origin v.slots i none
        ∙ ap (λ k. get_or v.slots k none) (sym (mod-eq_of_lt (omega (arith, h))))
    | no ge ↦
        get_or-append_right _ _ i (i - right) none (
          omega (arith, h, length-take right (drop v.origin v.slots), length-drop v.origin v.slots))
        ∙ get_or-append_left _ _ (i - right) none
            (omega (arith, h, length-take (v.size - right) v.slots))
        ∙ get_or-take (v.size - right) v.slots (i - right) none (omega arith)
        ∙ ap (λ k. get_or v.slots k none)
            (omega (arith, h, wrap_once (v.origin + i) v.cap (omega (arith, h)) (omega (arith, h))))
  ]

  in_place :
      v.origin + v.size ≤ v.cap
      → (i : ℕ) → i < v.size
      → get_or (v.slots ++ replicate (newcap - v.cap) none) ((v.origin + i) % newcap) none
        ≡ slot v i
  in_place fits i p =
      ap (λ k. get_or (v.slots ++ replicate (newcap - v.cap) none) k none)
        (mod-eq_of_lt (omega arith))
      ∙ get_or-append_left v.slots _ (v.origin + i) none (omega (arith, h))
      ∙ ap (λ k. get_or v.slots k none) (sym (mod-eq_of_lt (omega arith)))

  pub moved-IsValid : IsValid (moved v newcap)
  unfolding moved unrolled right
  moved-IsValid = elim (Bool-cases (leb (v.origin + v.size) v.cap)) [
    | inl inline ↦ rw inline (record {
      slots_cap = omega (
        arith,
        h,
        length-append v.slots (replicate {A = Option A} (newcap - v.cap) none),
        length-replicate {A = Option A} (newcap - v.cap) none,
      );
      origin_in = omega (arith, h);
      size_in = omega (arith, h);
    })
    | inr round ↦ rw round (record {
      slots_cap = length-unrolled;
      origin_in = omega arith;
      size_in = omega (arith, h);
    })
  ]

  pub contents-moved : contents (moved v newcap) ≡ contents v
  unfolding contents moved unrolled right
  contents-moved = elim (Bool-cases (leb (v.origin + v.size) v.cap)) [
    | inl inline ↦ rw inline (tabulate_ext v.size _ _ (in_place (leb→le _ _ inline)))
    | inr round ↦ rw round (
        tabulate_ext v.size _ _ (λ i p.
          ap (λ k. get_or unrolled k none) {x = (0 + i) % newcap} {y = i}
            (omega (arith, h, mod-eq_of_lt {n = 0 + i} {m = newcap} (omega (arith, h))))
          ∙ get_or-unrolled i p))
  ]

  pub size-moved : (moved v newcap).size ≡ v.size
  unfolding moved
  size-moved = elim (Bool-cases (leb (v.origin + v.size) v.cap)) [
    | inl e ↦ rw e refl
    | inr e ↦ rw e refl
  ]

  pub cap-moved : (moved v newcap).cap ≡ newcap
  unfolding moved
  cap-moved = elim (Bool-cases (leb (v.origin + v.size) v.cap)) [
    | inl e ↦ rw e refl
    | inr e ↦ rw e refl
  ]
