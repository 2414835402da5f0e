-- ===== src/AudioBuf/Stores.antt =====
-- What stands in an array after a copy into it.
use droidctl.Base.{
  ℕ, zero, suc, ◌+◌, ◌-◌, ◌≤◌, ◌<◌, ◌≡◌, refl, ap, ◌∙◌, List, [], ◌∷◌, length, get_or, arith,
}
use droidctl.Base.Buffer.{write_at}

module _ {A : Type 0} (d : A) where
  pub get_or-write_at_before :
      (buf : List A) (offset : ℕ) (bytes : List A) (j : ℕ)
      → j < offset
      → get_or (write_at buf offset bytes) j d ≡ get_or buf j d
  get_or-write_at_before [] offset bytes j h = refl
  get_or-write_at_before (x ∷ buf) zero bytes j h = absurd (omega arith)
  get_or-write_at_before (x ∷ buf) (suc offset) bytes zero h = refl
  get_or-write_at_before (x ∷ buf) (suc offset) bytes (suc j) h =
      get_or-write_at_before buf offset bytes j (omega arith)

  pub get_or-write_at_in :
      (buf : List A) (offset : ℕ) (bytes : List A) (j : ℕ)
      → offset + length bytes ≤ length buf
      → offset ≤ j
      → j < offset + length bytes
      → get_or (write_at buf offset bytes) j d ≡ get_or bytes (j - offset) d
  get_or-write_at_in [] offset bytes j fits from to = absurd (omega arith)
  get_or-write_at_in (x ∷ buf) (suc offset) bytes zero fits from to = absurd (omega arith)
  get_or-write_at_in (x ∷ buf) (suc offset) bytes (suc j) fits from to =
      get_or-write_at_in buf offset bytes j (omega arith) (omega arith) (omega arith)
      ∙ ap (λ k. get_or bytes k d) {x = j - offset} {y = suc j - suc offset} (omega arith)
  get_or-write_at_in (x ∷ buf) zero [] j fits from to = absurd (omega arith)
  get_or-write_at_in (x ∷ buf) zero (b ∷ bytes) zero fits from to = refl
  get_or-write_at_in (x ∷ buf) zero (b ∷ bytes) (suc j) fits from to =
      get_or-write_at_in buf zero bytes j (omega arith) (omega arith) (omega arith)
      ∙ ap (λ k. get_or (b ∷ bytes) k d) {x = suc (j - 0)} {y = suc j - 0} (omega arith)

  pub get_or-write_at_after :
      (buf : List A) (offset : ℕ) (bytes : List A) (j : ℕ)
      → offset + length bytes ≤ j
      → get_or (write_at buf offset bytes) j d ≡ get_or buf j d
  get_or-write_at_after [] offset bytes j h = refl
  get_or-write_at_after (x ∷ buf) (suc offset) bytes zero h = absurd (omega arith)
  get_or-write_at_after (x ∷ buf) (suc offset) bytes (suc j) h =
      get_or-write_at_after buf offset bytes j (omega arith)
  get_or-write_at_after (x ∷ buf) zero [] j h = refl
  get_or-write_at_after (x ∷ buf) zero (b ∷ bytes) zero h = absurd (omega arith)
  get_or-write_at_after (x ∷ buf) zero (b ∷ bytes) (suc j) h =
      get_or-write_at_after buf zero bytes j (omega arith)
