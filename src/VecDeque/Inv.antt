-- ===== src/VecDeque/Inv.antt =====
-- The representation invariant of a queue, and what each operation does to the items in order.
use droidctl.Base.{
  ℕ, zero, suc, ◌+◌, ◌-◌, ◌%◌, ◌≤◌, ◌<◌, max, ◌⊎◌, inl, inr, ◌≡◌, ◌≢◌, refl, ap, ap₂, sym, ◌∙◌,
}
use droidctl.Base.{Option, none, some, List, [], ◌∷◌, ◌++◌, length, set, get_or, arith}
use droidctl.Base.{length-append, length-set, get_or-set_self, get_or-set_ne}
use droidctl.VecDeque.{VecDeque, push_noresize, pop}
use native.Mathlib.Nat.{mod-eq_of_lt, mod-eq-sub-mod, mod-add-mod}
use native.Mathlib.Decide.{dec_lt}

-- The values of `f` below `n`, in order.
abbrev pub tabulate {ℓ} : {B : Type ℓ} → ℕ → (ℕ → B) → List B
tabulate zero f = []
tabulate (suc n) f = tabulate n f ++ (f n ∷ [])

pub tabulate_ext {ℓ} :
    {B : Type ℓ} (n : ℕ) (f g : ℕ → B) → ((i : ℕ) → i < n → f i ≡ g i) → tabulate n f ≡ tabulate n g
tabulate_ext zero f g h = refl
tabulate_ext (suc n) f g h =
    ap₂ (λ l x. l ++ (x ∷ [])) (tabulate_ext n f g (λ i p. h i (omega arith))) (h n (omega arith))

pub tabulate-suc {ℓ} :
    {B : Type ℓ} (n : ℕ) (f : ℕ → B) → tabulate (suc n) f ≡ f 0 ∷ tabulate n (λ i. f (suc i))
tabulate-suc zero f = refl
tabulate-suc (suc n) f = ap (λ l. l ++ (f (suc n) ∷ [])) (tabulate-suc n f)

pub length-tabulate {ℓ} : {B : Type ℓ} (n : ℕ) (f : ℕ → B) → length (tabulate n f) ≡ n
length-tabulate zero f = refl
length-tabulate (suc n) f =
    omega (arith, length-append (tabulate n f) (f n ∷ []), length-tabulate n f)

-- An index below twice the capacity goes round once at most.
pub wrap_once :
    (x cap : ℕ) → x < cap + cap → 0 < cap → x % cap ≡ x ⊎ ((x % cap + cap ≡ x) × (cap ≤ x))
wrap_once x cap h p = elim (dec_lt x cap) [
  | yes lt ↦ inl (mod-eq_of_lt lt)
  | no ge ↦ inr (
    omega (
      arith,
      mod-eq-sub-mod {n = x} {m = cap} (omega arith),
      mod-eq_of_lt {n = x - cap} {m = cap} (omega arith),
    ),
    omega arith,
  )
]

-- Two positions of a queue stand in different slots.
slots_differ : (o cap i n : ℕ) → o < cap → i < n → n < cap → (o + n) % cap ≢ (o + i) % cap
slots_differ o cap i n ho hi hn = ground (
  arith,
  wrap_once (o + n) cap (omega arith) (omega arith),
  wrap_once (o + i) cap (omega arith) (omega arith),
)

tabulate-add_one {ℓ} :
    {B : Type ℓ} (n : ℕ) (f : ℕ → B) → tabulate (n + 1) f ≡ tabulate n f ++ (f n ∷ [])
tabulate-add_one n f = ap (λ k. tabulate k f) {x = n + 1} {y = suc n} (omega arith)

module _ {A : Type 0} where
  pub record IsValid (v : VecDeque A) : Type 0 where
    pub slots_cap : length v.slots ≡ v.cap
    pub origin_in : v.origin < max v.cap 1
    pub size_in : v.size ≤ v.cap

  -- The slot of the item at position `i`.
  abbrev pub slot : VecDeque A → ℕ → Option A
  slot v i = get_or v.slots ((v.origin + i) % v.cap) none

  -- The items in order.
  unfoldable pub contents : VecDeque A → List (Option A)
  contents v = tabulate v.size (slot v)

  pub push_noresize-IsValid :
      (v : VecDeque A) (x : A) → IsValid v → v.size < v.cap → IsValid (push_noresize v x)
  unfolding push_noresize
  push_noresize-IsValid v x h lt = record {
    slots_cap = length-set v.slots _ _ ∙ h.slots_cap;
    origin_in = h.origin_in;
    size_in = omega arith;
  }

  pub contents-push_noresize :
      (v : VecDeque A) (x : A)
      → IsValid v
      → v.size < v.cap
      → contents (push_noresize v x) ≡ contents v ++ (some x ∷ [])
  unfolding contents push_noresize
  contents-push_noresize v x h lt =
      tabulate-add_one v.size
        (λ i. get_or (set v.slots written (some x)) ((v.origin + i) % v.cap) none)
      ∙ ap₂ (λ l y. l ++ (y ∷ []))
          (tabulate_ext v.size _ _ (λ i p.
            get_or-set_ne v.slots (some x) none
              (rw at_end (slots_differ v.origin v.cap i v.size (omega (arith, h)) p lt))))
          (rw at_end (
            get_or-set_self v.slots ((v.origin + v.size) % v.cap) (some x) none (omega (arith, h))))
    where
      written : ℕ
      written = (v.origin + (v.size + 1) - 1) % v.cap

      at_end : written ≡ (v.origin + v.size) % v.cap
      at_end = ap (λ k. k % v.cap) (omega arith)

  pub pop-IsValid : (v : VecDeque A) → IsValid v → v.size ≢ 0 → IsValid (pop v).1
  unfolding pop
  pop-IsValid v h ne = record {
    slots_cap = h.slots_cap;
    origin_in = omega (arith, h);
    size_in = omega (arith, h);
  }

  -- On a valid queue that is not empty, `pop` returns the first item and leaves the others in order.
  pub contents-pop :
      (v : VecDeque A) → IsValid v → v.size ≢ 0 → contents v ≡ (pop v).0 ∷ contents (pop v).1
  unfolding contents pop
  contents-pop v h ne =
      ap (λ n. tabulate n (slot v)) {x = v.size} {y = suc (v.size - 1)} (omega arith)
      ∙ tabulate-suc (v.size - 1) (slot v)
      ∙ ap₂ ◌∷◌ (ap (λ k. get_or v.slots k none) first) (tabulate_ext (v.size - 1) _ _ next)
    where
      first : (v.origin + 0) % v.cap ≡ v.origin
      first = omega (arith, h, mod-eq_of_lt {n = v.origin + 0} {m = v.cap} (omega (arith, h)))

      next :
          (i : ℕ)
          → i < v.size - 1
          → slot v (suc i) ≡ get_or v.slots (((v.origin + 1) % v.cap + i) % v.cap) none
      next i p =
          ap (λ k. get_or v.slots k none)
            (ap (λ k. k % v.cap) (omega arith) ∙ sym (mod-add-mod (v.origin + 1) v.cap i))
