-- ===== src/Binary.antt =====
-- app/src/util/binary.h. A store through `buf` is the list of the bytes that it leaves there, and a
-- load takes the bytes from the pointer on.
pub mod RoundTrip
use droidctl.Base.{ℕ, ◌+◌, ◌-◌, ◌*◌, ◌/◌, ◌%◌, ◌^◌, ◌<◌, List, [], ◌∷◌, ◌++◌, get_or, drop, bit_or}
use droidctl.Base.{leb, if◌then◌else◌}
use droidctl.Base.Int.{ℤ, pos, pos_part, ltb_ℤ}
use droidctl.Floats.{Floats}

abbrev pub IsByte : ℕ → Type 0
IsByte b = b < 256

-- The conversion to `uint8_t`.
abbrev pub u8 : ℕ → ℕ
u8 v = v % 2 ^ 8

abbrev pub u16 : ℕ → ℕ
u16 v = v % 2 ^ 16

abbrev pub u32 : ℕ → ℕ
u32 v = v % 2 ^ 32

unfoldable pub write16be : ℕ → List ℕ
write16be value = u8 (value / 2 ^ 8) ∷ u8 value ∷ []

unfoldable pub write16le : ℕ → List ℕ
write16le value = u8 value ∷ u8 (value / 2 ^ 8) ∷ []

unfoldable pub write32be : ℕ → List ℕ
write32be value = u8 (value / 2 ^ 24) ∷ u8 (value / 2 ^ 16) ∷ u8 (value / 2 ^ 8) ∷ u8 value ∷ []

unfoldable pub write32le : ℕ → List ℕ
write32le value = u8 value ∷ u8 (value / 2 ^ 8) ∷ u8 (value / 2 ^ 16) ∷ u8 (value / 2 ^ 24) ∷ []

unfoldable pub write64be : ℕ → List ℕ
unfolding write32be
write64be value = write32be (u32 (value / 2 ^ 32)) ++ write32be (u32 value)

unfoldable pub write64le : ℕ → List ℕ
unfolding write32le
write64le value = write32le (u32 value) ++ write32le (u32 (value / 2 ^ 32))

abbrev pub byte : List ℕ → ℕ → ℕ
byte buf i = get_or buf i 0

unfoldable pub read16be : List ℕ → ℕ
read16be buf = bit_or (byte buf 0 * 2 ^ 8) (byte buf 1)

unfoldable pub read32be : List ℕ → ℕ
read32be buf =
    bit_or (bit_or (bit_or (byte buf 0 * 2 ^ 24) (byte buf 1 * 2 ^ 16)) (byte buf 2 * 2 ^ 8))
      (byte buf 3)

unfoldable pub read64be : List ℕ → ℕ
unfolding read32be
read64be buf =
    let msb = read32be buf in let lsb = read32be (drop 4 buf) in bit_or (msb * 2 ^ 32) lsb

module _ (floats : Floats) where
  open floats use {Float, scale_16, scale_15}

  -- The assertions on the argument are the callers' hypotheses.
  unfoldable pub float_to_u16fp : Float → ℕ
  float_to_u16fp f = let u = scale_16 f in u16 (if leb 0xffff u then 0xffff else u)

  unfoldable pub float_to_i16fp : Float → ℤ
  float_to_i16fp f = let i = scale_15 f in if ltb_ℤ i (pos 0x7fff) then i else pos 0x7fff
