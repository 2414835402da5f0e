-- ===== src/Base/Buffer.antt =====
-- A byte buffer that C fills through pointers: writes of a run of bytes at an offset.
use Prim.Native.Nat.{ℕ, zero, suc, ◌+◌, ◌≤◌}
use mathlib.Core.Path.{◌≡◌, refl, ap, sym, ◌∙◌}
use mathlib.Core.List.{List, [], ◌∷◌, ◌++◌, append_assoc}
use native.Mathlib.Omega.{arith}
use droidctl.Base.Lists.{length, drop, length-drop, drop-drop}

module _ {ℓ} {A : Type ℓ} where
  -- `memcpy(buf + offset, bytes, length bytes)`. What lies out of bounds is lost, and the length stays.
  abbrev pub write_at : List A → ℕ → List A → List A
  write_at [] offset bytes = []
  write_at (x ∷ buf) (suc offset) bytes = x ∷ write_at buf offset bytes
  write_at (x ∷ buf) zero [] = x ∷ buf
  write_at (x ∷ buf) zero (b ∷ bytes) = b ∷ write_at buf zero bytes

  pub length-write_at :
      (buf : List A) (offset : ℕ) (bytes : List A) → length (write_at buf offset bytes) ≡ length buf
  length-write_at [] offset bytes = refl
  length-write_at (x ∷ buf) (suc offset) bytes = ap suc (length-write_at buf offset bytes)
  length-write_at (x ∷ buf) zero [] = refl
  length-write_at (x ∷ buf) zero (b ∷ bytes) = ap suc (length-write_at buf zero bytes)

  write_at-nil : (buf : List A) → write_at buf zero [] ≡ buf
  write_at-nil [] = refl
  write_at-nil (x ∷ buf) = refl

  -- A write behind `front` leaves it alone.
  pub write_at_behind :
      (front rest : List A) (offset k : ℕ) (bytes : List A)
      → offset ≡ length front + k
      → write_at (front ++ rest) offset bytes ≡ front ++ write_at rest k bytes
  write_at_behind [] rest offset k bytes e = ap (λ n. write_at rest n bytes) (omega arith)
  write_at_behind (x ∷ front) rest zero k bytes e = absurd (omega arith)
  write_at_behind (x ∷ front) rest (suc offset) k bytes e =
      ap (λ l. x ∷ l) (write_at_behind front rest offset k bytes (omega arith))

  pub write_at_start :
      (buf bytes : List A)
      → length bytes ≤ length buf
      → write_at buf zero bytes ≡ bytes ++ drop (length bytes) buf
  write_at_start [] [] h = refl
  write_at_start [] (b ∷ bytes) h = absurd (omega arith)
  write_at_start (x ∷ buf) [] h = refl
  write_at_start (x ∷ buf) (b ∷ bytes) h = ap (λ l. b ∷ l) (write_at_start buf bytes (omega arith))

  -- A write behind what has been written appends to it.
  pub write_at_next :
      (front buf : List A) (offset : ℕ) (bytes : List A)
      → offset ≡ length front
      → length front + length bytes ≤ length buf
      → write_at (front ++ drop offset buf) offset bytes
        ≡ (front ++ bytes) ++ drop (offset + length bytes) buf
  write_at_next front buf offset bytes e h =
      write_at_behind front (drop offset buf) offset zero bytes (omega arith)
      ∙ ap (λ l. front ++ l)
          (write_at_start (drop offset buf) bytes (omega (arith, length-drop offset buf))
            ∙ ap (λ l. bytes ++ l) (drop-drop offset (length bytes) buf))
      ∙ sym (append_assoc front bytes (drop (offset + length bytes) buf))

  -- A payload written behind the room for its header, then the header.
  pub write_at_framed :
      (rest header sent : List A)
      → length header + length sent ≤ length rest
      → write_at (write_at rest (length header) sent) zero header
        ≡ (header ++ sent) ++ drop (length header + length sent) rest
  write_at_framed rest [] sent h =
      write_at-nil (write_at rest zero sent)
      ∙ write_at_start rest sent (omega arith)
      ∙ ap (λ n. sent ++ drop n rest) (omega arith)
  write_at_framed [] (b ∷ header) sent h = absurd (omega arith)
  write_at_framed (x ∷ rest) (b ∷ header) sent h =
      ap (λ l. b ∷ l) (write_at_framed rest header sent (omega arith))
      ∙ ap (λ n. b ∷ ((header ++ sent) ++ drop n (x ∷ rest)))
          {x = suc (length header + length sent)} (omega arith)
