-- ===== src/Binary/RoundTrip.antt =====
-- What is stored big-endian is loaded back, at each width.
use droidctl.Base.{ℕ, ◌+◌, ◌*◌, ◌/◌, ◌^◌, ◌<◌, ◌≡◌, List, ◌∷◌, ◌++◌, arith}
use droidctl.Base.{bit_or, refl, ap₂, ◌∙◌, drop}
use droidctl.Base.Bits.{bit_or_disjoint, bit_or_sum}
use droidctl.Binary.{u8, u32, write16be, write32be, write64be}
use droidctl.Binary.{read16be, read32be, read64be}

read16be-sum : (a b : ℕ) (rest : List ℕ) → b < 256 → read16be (a ∷ b ∷ rest) ≡ a * 256 + b
unfolding read16be
read16be-sum a b rest h = bit_or_disjoint 8 a b h

pub read32be-sum :
    (a b c d : ℕ) (rest : List ℕ)
    → b < 256
    → c < 256
    → d < 256
    → read32be (a ∷ b ∷ c ∷ d ∷ rest) ≡ a * 2 ^ 24 + b * 2 ^ 16 + c * 2 ^ 8 + d
unfolding read32be
read32be-sum a b c d rest hb hc hd = ap₂ bit_or (ap₂ bit_or one refl ∙ two) refl ∙ three
  where
    one : bit_or (a * 2 ^ 24) (b * 2 ^ 16) ≡ a * 2 ^ 24 + b * 2 ^ 16
    one = bit_or_disjoint 24 a (b * 2 ^ 16) (omega arith)

    two : bit_or (a * 2 ^ 24 + b * 2 ^ 16) (c * 2 ^ 8) ≡ a * 2 ^ 24 + b * 2 ^ 16 + c * 2 ^ 8
    two = bit_or_sum 16 (a * 2 ^ 8 + b) (c * 2 ^ 8) (omega arith) (omega arith)

    three : bit_or (a * 2 ^ 24 + b * 2 ^ 16 + c * 2 ^ 8) d ≡ a * 2 ^ 24 + b * 2 ^ 16 + c * 2 ^ 8 + d
    three = bit_or_sum 8 (a * 2 ^ 16 + b * 2 ^ 8 + c) d (omega arith) (omega arith)

pub read16be-write16be : (v : ℕ) (rest : List ℕ) → v < 2 ^ 16 → read16be (write16be v ++ rest) ≡ v
unfolding write16be
read16be-write16be v rest h = omega (arith, read16be-sum (u8 (v / 2 ^ 8)) (u8 v) rest (omega arith))

pub read32be-write32be : (v : ℕ) (rest : List ℕ) → v < 2 ^ 32 → read32be (write32be v ++ rest) ≡ v
unfolding write32be
read32be-write32be v rest h = omega (
  arith,
  read32be-sum (u8 (v / 2 ^ 24)) (u8 (v / 2 ^ 16)) (u8 (v / 2 ^ 8)) (u8 v) rest (omega arith)
      (omega arith) (omega arith),
)

-- Reading 64 bits in big endian undoes writing them, for every 64-bit value, with any bytes behind.
pub read64be-write64be : (v : ℕ) (rest : List ℕ) → v < 2 ^ 64 → read64be (write64be v ++ rest) ≡ v
unfolding read64be write64be
read64be-write64be v rest h =
    ap₂ (λ hi lo. bit_or (hi * 2 ^ 32) lo) (msb ∙ high) lsb
    ∙ bit_or_disjoint 32 (v / 2 ^ 32) (u32 v) (omega arith)
    ∙ omega arith
  where
    high : u32 (v / 2 ^ 32) ≡ v / 2 ^ 32
    high = omega arith

    msb : read32be (write64be v ++ rest) ≡ u32 (v / 2 ^ 32)
    msb = read32be-write32be (u32 (v / 2 ^ 32)) (write32be (u32 v) ++ rest) (omega arith)

    lsb : read32be (drop 4 (write64be v ++ rest)) ≡ u32 v
    lsb = unfold write32be in read32be-write32be (u32 v) rest (omega arith)
