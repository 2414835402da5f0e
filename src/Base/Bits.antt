-- ===== src/Base/Bits.antt =====
-- `bit_or` by the lowest digit, and of fields that have no bit in common.
use Prim.Native.Nat.{
  ℕ, zero, suc, ◌+◌, ◌-◌, ◌*◌, ◌/◌, ◌%◌, ◌≤◌, ◌<◌, ◌^◌, max, min, bit_or, bit_and, digits,
  bit_or-bitwise, bit_and-bitwise,
}
use mathlib.Core.Path.{◌≡◌, refl, ap, ap₂, ◌∙◌}
use native.Mathlib.Nat.{pow-suc}
use native.Mathlib.Omega.{arith}

-- The digits of a number do not depend on how much fuel is left over; `n` bounds the fuels.
spare_fuel :
    (rest : ℕ → ℕ) (op : ℕ → ℕ → ℕ) (n fuel a b : ℕ)
    → a ≤ fuel
    → fuel ≤ n
    → digits rest op fuel a b ≡ digits rest op a a b
spare_fuel rest op n zero zero b le bound = refl
spare_fuel rest op n (suc fuel) zero b le bound = refl
spare_fuel rest op n zero (suc a) b le bound = absurd (omega arith)
spare_fuel rest op zero (suc fuel) (suc a) b le bound = absurd (omega arith)
spare_fuel rest op (suc n) (suc fuel) (suc a) b le bound =
    let half : ℕ = suc a / 2 in
    omega (
      arith,
      spare_fuel rest op n fuel half (b / 2) (omega arith) (omega arith),
      spare_fuel rest op n a half (b / 2) (omega arith) (omega arith),
    )

pub bit_or_step : (a b : ℕ) → bit_or a b ≡ bit_or (a / 2) (b / 2) * 2 + max (a % 2) (b % 2)
bit_or_step zero b = omega (arith, bit_or-bitwise 0 b, bit_or-bitwise 0 (b / 2))
bit_or_step (suc a) b =
    let half : ℕ = suc a / 2 in
    let spare = spare_fuel (λ b. b) max a a half (b / 2) (omega arith) (omega arith) in
    omega (arith, bit_or-bitwise half (b / 2), spare, bit_or-bitwise (suc a) b)

-- A number of `n` digits.
or_nothing : (n a : ℕ) → a < 2 ^ n → bit_or a 0 ≡ a
or_nothing zero a small =
    omega (arith, ap (λ x. bit_or x 0) {x = a} {y = 0} (omega arith), bit_or-bitwise 0 0)
or_nothing (suc n) a small =
    omega (arith, bit_or_step a 0, or_nothing n (a / 2) (omega (arith, pow-suc 2 n)))

double_shift : (q k : ℕ) → q * 2 ^ suc k ≡ 2 * (q * 2 ^ k)
double_shift q k = omega (arith, ap (λ (t : ℕ). q * t) (pow-suc 2 k))

small_power : (n : ℕ) → n < 2 ^ n
small_power zero = omega arith
small_power (suc n) = omega (arith, small_power n, pow-suc 2 n)

-- `hi << k | lo` is a sum when `lo` has at most `k` bits.
pub bit_or_disjoint : (k hi lo : ℕ) → lo < 2 ^ k → bit_or (hi * 2 ^ k) lo ≡ hi * 2 ^ k + lo
bit_or_disjoint zero hi lo h = omega (arith, lo_zero, or_nothing hi hi (small_power hi))
  where
    lo_zero : bit_or (hi * 2 ^ 0) lo ≡ bit_or hi 0
    lo_zero = ap₂ bit_or (omega arith) (omega arith)
bit_or_disjoint (suc k) hi lo h = omega (
  arith,
  bit_or_step (hi * 2 ^ suc k) lo,
  double_shift hi k,
  halves,
  bit_or_disjoint k hi (lo / 2) (omega (arith, pow-suc 2 k)),
)
  where
    halves : bit_or (hi * 2 ^ suc k / 2) (lo / 2) ≡ bit_or (hi * 2 ^ k) (lo / 2)
    halves = ap (λ t. bit_or t (lo / 2)) (omega (arith, double_shift hi k))

pub bit_or_sum : (k : ℕ) {x : ℕ} (hi lo : ℕ) → x ≡ hi * 2 ^ k → lo < 2 ^ k → bit_or x lo ≡ x + lo
bit_or_sum k hi lo e h = rw e (bit_or_disjoint k hi lo h)

pub bit_or_swap : (n a b : ℕ) → a < 2 ^ n → b < 2 ^ n → bit_or a b ≡ bit_or b a
bit_or_swap zero a b ha hb = ap₂ bit_or {x = a} {y = b} (omega arith) (omega arith)
bit_or_swap (suc n) a b ha hb = omega (
  arith,
  bit_or_step a b,
  bit_or_step b a,
  bit_or_swap n (a / 2) (b / 2) (omega (arith, pow-suc 2 n)) (omega (arith, pow-suc 2 n)),
)

pub bit_and_halves : (a b : ℕ) → bit_and a b ≡ bit_and (a / 2) (b / 2) * 2 + min (a % 2) (b % 2)
bit_and_halves zero b = omega (arith, bit_and-bitwise 0 b, bit_and-bitwise 0 (b / 2))
bit_and_halves (suc a) b = omega (
  arith,
  bit_and-bitwise (suc a / 2) (b / 2),
  spare_fuel (λ b. 0) min a a (suc a / 2) (b / 2) (omega arith) (omega arith),
  bit_and-bitwise (suc a) b,
)

and_nothing : (n a : ℕ) → a < 2 ^ n → bit_and a 0 ≡ 0
and_nothing zero a small =
    omega (arith, ap (λ x. bit_and x 0) {x = a} {y = 0} (omega arith), bit_and-bitwise 0 0)
and_nothing (suc n) a small =
    omega (arith, bit_and_halves a 0, and_nothing n (a / 2) (omega (arith, pow-suc 2 n)))

-- Bit `k` of a number.
pub bit_and_flag : (k hi lo : ℕ) → lo < 2 ^ k → bit_and (hi * 2 ^ k + lo) (2 ^ k) ≡ hi % 2 * 2 ^ k
bit_and_flag zero hi lo h = omega (
  arith,
  bit_and_halves (hi * 2 ^ 0 + lo) (2 ^ 0),
  and_nothing ((hi * 2 ^ 0 + lo) / 2) ((hi * 2 ^ 0 + lo) / 2) (small_power ((hi * 2 ^ 0 + lo) / 2)),
  ap (bit_and ((hi * 2 ^ 0 + lo) / 2)) {x = 2 ^ 0 / 2} {y = 0} (omega arith),
)
bit_and_flag (suc k) hi lo h = omega (
  arith,
  bit_and_halves (hi * 2 ^ suc k + lo) (2 ^ suc k),
  halves,
  bit_and_flag k hi (lo / 2) (omega (arith, pow-suc 2 k)),
  double_shift (hi % 2) k,
  pow-suc 2 k,
)
  where
    halves :
        bit_and ((hi * 2 ^ suc k + lo) / 2) (2 ^ suc k / 2) ≡ bit_and (hi * 2 ^ k + lo / 2) (2 ^ k)
    halves = ap₂ bit_and (omega (arith, double_shift hi k)) (omega (arith, pow-suc 2 k))

-- The `k` lowest bits of a number.
pub bit_and_mask : (k hi lo : ℕ) → lo < 2 ^ k → bit_and (hi * 2 ^ k + lo) (2 ^ k - 1) ≡ lo
bit_and_mask zero hi lo h =
    ap (bit_and (hi * 2 ^ 0 + lo)) {x = 2 ^ 0 - 1} {y = 0} (omega arith)
    ∙ and_nothing (hi * 2 ^ 0 + lo) (hi * 2 ^ 0 + lo) (small_power (hi * 2 ^ 0 + lo))
    ∙ omega arith
bit_and_mask (suc k) hi lo h = omega (
  arith,
  bit_and_halves (hi * 2 ^ suc k + lo) (2 ^ suc k - 1),
  halves,
  bit_and_mask k hi (lo / 2) (omega (arith, pow-suc 2 k)),
  double_shift hi k,
  pow-suc 2 k,
)
  where
    halves :
        bit_and ((hi * 2 ^ suc k + lo) / 2) ((2 ^ suc k - 1) / 2)
        ≡ bit_and (hi * 2 ^ k + lo / 2) (2 ^ k - 1)
    halves = ap₂ bit_and (omega (arith, double_shift hi k)) (omega (arith, pow-suc 2 k))
