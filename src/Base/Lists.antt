-- ===== src/Base/Lists.antt =====
-- Arrays as lists measured and indexed by native numbers, under the library's names.
use Prim.Native.Nat.{ℕ, zero, suc, ◌+◌, ◌-◌, ◌≤◌, min}
use mathlib.Core.Path.{◌≡◌, refl, ap, ap₂, sym, ◌∙◌}
use mathlib.Core.List.{List, [], ◌∷◌, ◌++◌, map, append_assoc}
use mathlib.Core.Option.{Option, none, some}
use native.Mathlib.Omega.{arith}

module _ {ℓ} {A : Type ℓ} where
  abbrev pub length : List A → ℕ
  length [] = 0
  length (x ∷ xs) = suc (length xs)

  abbrev pub get_elem? : List A → ℕ → Option A
  get_elem? [] i = none
  get_elem? (x ∷ xs) zero = some x
  get_elem? (x ∷ xs) (suc i) = get_elem? xs i

  abbrev pub get_or : List A → ℕ → A → A
  get_or [] i d = d
  get_or (x ∷ xs) zero d = x
  get_or (x ∷ xs) (suc i) d = get_or xs i d

  -- A write out of bounds changes nothing.
  abbrev pub set : List A → ℕ → A → List A
  set [] i v = []
  set (x ∷ xs) zero v = v ∷ xs
  set (x ∷ xs) (suc i) v = x ∷ set xs i v

  abbrev pub take : ℕ → List A → List A
  take zero xs = []
  take (suc n) [] = []
  take (suc n) (x ∷ xs) = x ∷ take n xs

  abbrev pub drop : ℕ → List A → List A
  drop zero xs = xs
  drop (suc n) [] = []
  drop (suc n) (x ∷ xs) = drop n xs

  abbrev pub replicate : ℕ → A → List A
  replicate zero a = []
  replicate (suc n) a = a ∷ replicate n a

  abbrev pub All {κ} : (A → Type κ) → List A → Type κ
  All P [] = Unit {κ}
  All P (x ∷ xs) = P x × All P xs

  pub length-append : (xs ys : List A) → length (xs ++ ys) ≡ length xs + length ys
  length-append [] ys = omega arith
  length-append (x ∷ xs) ys = omega (arith, length-append xs ys)

  pub length-set : (xs : List A) (i : ℕ) (v : A) → length (set xs i v) ≡ length xs
  length-set [] i v = refl
  length-set (x ∷ xs) zero v = refl
  length-set (x ∷ xs) (suc i) v = ap suc (length-set xs i v)

  pub length-take : (n : ℕ) (xs : List A) → length (take n xs) ≡ min n (length xs)
  length-take zero xs = omega arith
  length-take (suc n) [] = omega arith
  length-take (suc n) (x ∷ xs) = omega (arith, length-take n xs)

  pub length-drop : (n : ℕ) (xs : List A) → length (drop n xs) ≡ length xs - n
  length-drop zero xs = omega arith
  length-drop (suc n) [] = omega arith
  length-drop (suc n) (x ∷ xs) = omega (arith, length-drop n xs)

  pub length-replicate : (n : ℕ) (a : A) → length (replicate n a) ≡ n
  length-replicate zero a = refl
  length-replicate (suc n) a = ap suc (length-replicate n a)

  pub take-append-drop : (n : ℕ) (xs : List A) → take n xs ++ drop n xs ≡ xs
  take-append-drop zero xs = refl
  take-append-drop (suc n) [] = refl
  take-append-drop (suc n) (x ∷ xs) = ap (λ l. x ∷ l) (take-append-drop n xs)

  -- `n` is the length of the first list.
  pub take-append_left : (xs ys : List A) (n : ℕ) → n ≡ length xs → take n (xs ++ ys) ≡ xs
  take-append_left [] ys zero h = refl
  take-append_left [] ys (suc n) h = absurd (omega arith)
  take-append_left (x ∷ xs) ys zero h = absurd (omega arith)
  take-append_left (x ∷ xs) ys (suc n) h = ap (λ l. x ∷ l) (take-append_left xs ys n (omega arith))

  pub drop-append_left : (xs ys : List A) (n : ℕ) → n ≡ length xs → drop n (xs ++ ys) ≡ ys
  drop-append_left [] ys zero h = refl
  drop-append_left [] ys (suc n) h = absurd (omega arith)
  drop-append_left (x ∷ xs) ys zero h = absurd (omega arith)
  drop-append_left (x ∷ xs) ys (suc n) h = drop-append_left xs ys n (omega arith)

  pub take-append_longer :
      (n : ℕ) (xs ys : List A) → length xs ≤ n → take n (xs ++ ys) ≡ xs ++ take (n - length xs) ys
  take-append_longer n [] ys h = ap (λ k. take k ys) {x = n} (omega arith)
  take-append_longer zero (x ∷ xs) ys h = absurd (omega arith)
  take-append_longer (suc n) (x ∷ xs) ys h =
      ap (λ l. x ∷ l)
        (take-append_longer n xs ys (omega arith)
          ∙ ap (λ k. xs ++ take k ys) {y = suc n - suc (length xs)} (omega arith))

  pub take_all : (n : ℕ) (xs : List A) → length xs ≤ n → take n xs ≡ xs
  take_all zero [] h = refl
  take_all zero (x ∷ xs) h = absurd (omega arith)
  take_all (suc n) [] h = refl
  take_all (suc n) (x ∷ xs) h = ap (λ l. x ∷ l) (take_all n xs (omega arith))

module _ {ℓ} {A : Type ℓ} where
  pub All-append {κ} : (P : A → Type κ) (xs ys : List A) → All P xs → All P ys → All P (xs ++ ys)
  All-append P [] ys h k = k
  All-append P (x ∷ xs) ys h k = (h.0, All-append P xs ys h.1 k)

  pub All-take {κ} : (P : A → Type κ) (n : ℕ) (xs : List A) → All P xs → All P (take n xs)
  All-take P zero xs h = tt
  All-take P (suc n) [] h = tt
  All-take P (suc n) (x ∷ xs) h = (h.0, All-take P n xs h.1)

  pub drop-nil : (n : ℕ) → drop {A = A} n [] ≡ []
  drop-nil zero = refl
  drop-nil (suc n) = refl

  pub drop-drop : (m n : ℕ) (xs : List A) → drop n (drop m xs) ≡ drop (m + n) xs
  drop-drop zero n xs = ap (λ k. drop k xs) {x = n} (omega arith)
  drop-drop (suc m) n [] = drop-nil n ∙ sym (drop-nil (suc m + n))
  drop-drop (suc m) n (x ∷ xs) =
      drop-drop m n xs ∙ ap (λ k. drop k (x ∷ xs)) {x = suc (m + n)} (omega arith)

  -- Two ways to split one list: the first part of one holds that of the other, or is a part of it.
  pub append_split_longer :
      (front back xs ys : List A)
      → xs ++ ys ≡ front ++ back
      → length front ≤ length xs
      → (xs ≡ front ++ drop (length front) xs) × (drop (length front) xs ++ ys ≡ back)
  append_split_longer [] back xs ys e h = (refl, e)
  append_split_longer (a ∷ front) back [] ys e h = absurd (omega arith)
  append_split_longer (a ∷ front) back (x ∷ xs) ys e h =
      let (whole, rest) = append_split_longer front back xs ys (cc) (omega arith) in
      let same : x ≡ a = cc in (ap₂ (λ y l. y ∷ l) same whole, rest)

  pub append_split_shorter :
      (front back xs ys : List A)
      → xs ++ ys ≡ front ++ back
      → length xs ≤ length front
      → xs ≡ take (length xs) front
  append_split_shorter front back [] ys e h = refl
  append_split_shorter [] back (x ∷ xs) ys e h = absurd (omega arith)
  append_split_shorter (a ∷ front) back (x ∷ xs) ys e h =
      let same : x ≡ a = cc in
      ap₂ (λ y l. y ∷ l) same (append_split_shorter front back xs ys (cc) (omega arith))

  pub length-zero : (xs : List A) → length xs ≤ 0 → xs ≡ []
  length-zero [] h = refl
  length-zero (x ∷ xs) h = absurd (omega arith)

pub length-map {ℓ κ} :
    {A : Type ℓ} {B : Type κ} (f : A → B) (xs : List A) → length (map f xs) ≡ length xs
length-map f [] = refl
length-map f (x ∷ xs) = ap suc (length-map f xs)

pub cons_head {ℓ} : {A : Type ℓ} {x y : A} {xs ys : List A} → x ∷ xs ≡ y ∷ ys → x ≡ y
cons_head {x = x} e = ap (λ l. get_or l 0 x) e

pub cons_tail {ℓ} : {A : Type ℓ} {x y : A} {xs ys : List A} → x ∷ xs ≡ y ∷ ys → xs ≡ ys
cons_tail e = ap (drop 1) e

abbrev pub concat {ℓ} : {A : Type ℓ} → List (List A) → List A
concat [] = []
concat (xs ∷ xss) = xs ++ concat xss

pub concat-append {ℓ} :
    {A : Type ℓ} (xss yss : List (List A)) → concat (xss ++ yss) ≡ concat xss ++ concat yss
concat-append [] yss = refl
concat-append (xs ∷ xss) yss =
    ap (λ l. xs ++ l) (concat-append xss yss) ∙ sym (append_assoc xs (concat xss) (concat yss))
