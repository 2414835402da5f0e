-- ===== src/Examples/Numbers.antt =====
-- A model of the floats for the examples, multiples of 2 ^ -20, and numbers on the wire.
use droidctl.Base.{ℕ, zero, suc, ◌+◌, ◌*◌, ◌/◌, ◌^◌, ◌-◌, ◌≡◌, arith, [], ◌∷◌, ◌++◌}
use droidctl.Base.Int.{ℤ, pos, negsuc, ltb_ℤ}
use droidctl.Floats.{Floats}
use droidctl.Binary.{write64be, read64be, write32be, read32be}
use droidctl.Binary.RoundTrip.{read64be-write64be, read32be-write32be}

abbrev negated : ℕ → ℤ
negated zero = pos 0
negated (suc n) = negsuc n

-- Multiplication and division, which rounds to zero.
abbrev times : ℕ → ℤ → ℤ
times n (pos m) = pos (m * n)
times n (negsuc m) = negated ((m + 1) * n)

abbrev over : ℕ → ℤ → ℤ
over n (pos m) = pos (m / n)
over n (negsuc m) = negated ((m + 1) / n)

abbrev to_ℕ : ℤ → ℕ
to_ℕ (pos n) = n
to_ℕ (negsuc n) = 0

abbrev pub fixed : Floats
fixed = record {
  Float = ℤ;
  lt = ltb_ℤ;
  one = pos (2 ^ 20);
  minus_one = negsuc (2 ^ 20 - 1);
  div_16 = over 16;
  mul_16 = times 16;
  scale_16 = λ f. to_ℕ (over 16 f);
  scale_15 = over 32;
  unscale_16 = λ n. pos (n * 16);
  unscale_15 = times 32;
}

sixty_four_bits : read64be (write64be 1234567890123456789 ++ (7 ∷ [])) ≡ 1234567890123456789
sixty_four_bits = read64be-write64be 1234567890123456789 (7 ∷ []) (omega arith)

thirty_two_bits : read32be (write32be 4000000000 ++ (7 ∷ [])) ≡ 4000000000
thirty_two_bits = read32be-write32be 4000000000 (7 ∷ []) (omega arith)
