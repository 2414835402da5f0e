-- ===== src/Keyboard/Keys.antt =====
-- The six keys of a report: those that are pressed, or the phantom state.
use droidctl.Base.{
  ℕ, suc, ◌+◌, ◌-◌, ◌≤◌, ◌<◌, ◌≡◌, refl, ap, ap₂, sym, ◌∙◌, inl, inr, Bool, true, false, List, [],
  ◌∷◌, ◌++◌, append_assoc, append-nil, length, length-append, set, replicate, leb, leb→le,
  leb_false→gt, if◌then◌else◌, Bool-cases, arith,
}
use droidctl.Binary.{u8}
use droidctl.Keyboard.{keyboard_max_keys, fill_keys}

-- The numbers from `i` on of the keys that are pressed.
abbrev pub pressed : ℕ → List Bool → List ℕ
pressed i [] = []
pressed i (true ∷ keys) = i ∷ pressed (suc i) keys
pressed i (false ∷ keys) = pressed (suc i) keys

-- Up to six keys and zeros, or six times the error code.
abbrev pub six_keys : List ℕ → List ℕ
six_keys keys =
    if leb (length keys) keyboard_max_keys
    then keys ++ replicate (keyboard_max_keys - length keys) 0
    else replicate keyboard_max_keys 1

set_first_zero :
    (xs : List ℕ) (n x : ℕ)
    → set (xs ++ replicate (suc n) 0) (length xs) x ≡ (xs ++ (x ∷ [])) ++ replicate n 0
set_first_zero [] n x = refl
set_first_zero (y ∷ xs) n x = ap (λ l. y ∷ l) (set_first_zero xs n x)

too_many : (l : List ℕ) → keyboard_max_keys < length l → six_keys l ≡ replicate keyboard_max_keys 1
too_many l h = ground arith

few_enough :
    (l : List ℕ)
    → length l ≤ keyboard_max_keys
    → l ++ replicate (keyboard_max_keys - length l) 0 ≡ six_keys l
few_enough l h = ground arith

-- One more key, written at the first zero.
next :
    (i : ℕ) (keys : List Bool) (xs : List ℕ)
    → i + length (true ∷ keys) ≤ 256
    → length xs < keyboard_max_keys
    → fill_keys
        (suc i)
        keys
        ((xs ++ (i ∷ [])) ++ replicate (keyboard_max_keys - length (xs ++ (i ∷ []))) 0)
        (length (xs ++ (i ∷ [])))
      ≡ six_keys ((xs ++ (i ∷ [])) ++ pressed (suc i) keys)
    → fill_keys
        (suc i)
        keys
        (set (xs ++ replicate (keyboard_max_keys - length xs) 0) (length xs) (u8 i))
        (length xs + 1)
      ≡ six_keys (xs ++ (i ∷ pressed (suc i) keys))
next i keys xs inside few h =
    ap₂ (λ l n. fill_keys (suc i) keys l n) written (sym one_more)
    ∙ h
    ∙ ap six_keys (append_assoc xs (i ∷ []) (pressed (suc i) keys))
  where
    one_more : length (xs ++ (i ∷ [])) ≡ length xs + 1
    one_more = length-append xs (i ∷ [])

    written :
        set (xs ++ replicate (keyboard_max_keys - length xs) 0) (length xs) (u8 i)
        ≡ (xs ++ (i ∷ [])) ++ replicate (keyboard_max_keys - length (xs ++ (i ∷ []))) 0
    written =
        ap₂ (λ n x. set (xs ++ replicate n 0) (length xs) x) {x = keyboard_max_keys - length xs}
          {y = suc (keyboard_max_keys - length (xs ++ (i ∷ [])))} (omega (arith, one_more))
          (omega arith)
        ∙ set_first_zero xs (keyboard_max_keys - length (xs ++ (i ∷ []))) i

fill_keys-from :
    (i : ℕ) (keys : List Bool) (xs : List ℕ)
    → i + length keys ≤ 256
    → length xs ≤ keyboard_max_keys
    → fill_keys i keys (xs ++ replicate (keyboard_max_keys - length xs) 0) (length xs)
      ≡ six_keys (xs ++ pressed i keys)
unfolding fill_keys
fill_keys-from i [] xs inside few = few_enough xs few ∙ ap six_keys (sym (append-nil xs))
fill_keys-from i (false ∷ keys) xs inside few = fill_keys-from (suc i) keys xs (omega arith) few
fill_keys-from i (true ∷ keys) xs inside few =
    elim (Bool-cases (leb keyboard_max_keys (length xs))) [
      | inl full ↦ rw full (
          sym (
            too_many (xs ++ (i ∷ pressed (suc i) keys))
              (omega (arith, leb→le _ _ full, length-append xs (i ∷ pressed (suc i) keys)))))
      | inr room ↦ rw room (
          next i keys xs inside (leb_false→gt _ _ room) (
            fill_keys-from (suc i) keys (xs ++ (i ∷ [])) (omega arith)
              (omega (arith, leb_false→gt _ _ room, length-append xs (i ∷ [])))))
    ]

-- The loop over all keys fills a report that was cleared with the keys that are pressed.
pub fill_keys_lem :
    (keys : List Bool)
    → length keys ≤ 256
    → fill_keys 0 keys (replicate keyboard_max_keys 0) 0 ≡ six_keys (pressed 0 keys)
fill_keys_lem keys h = fill_keys-from 0 keys [] (omega arith) (omega arith)
