-- ===== src/ControlMsg/Fields.antt =====
-- The device's end reads numbers and byte arrays as the client writes them.
use droidctl.Base.{ℕ, ◌+◌, ◌*◌, ◌/◌, ◌%◌, ◌≤◌, ◌<◌, ◌^◌, ◌≡◌, refl, ap, ◌∙◌, some}
use droidctl.Base.{List, ◌∷◌, ◌++◌}
use droidctl.Base.{
  length, take, arith, length-append, length-take, take-append_left, drop-append_left, bit_or,
  lt→ltb,
}
use droidctl.Base.Bits.{bit_or_sum}
use droidctl.Binary.{u8, u32, write16be, write32be}
use droidctl.ControlMsg.Reader.{
  >>=-some, be16, be32, be64, read_fully, parse_buffer_length, parse_byte_array,
}

pub be16_lem : (v : ℕ) → v < 2 ^ 16 → be16 (u8 (v / 2 ^ 8)) (u8 v) ≡ v
unfolding be16
be16_lem v h = omega arith

pub be32_lem :
    (v : ℕ) → v < 2 ^ 32 → be32 (u8 (v / 2 ^ 24)) (u8 (v / 2 ^ 16)) (u8 (v / 2 ^ 8)) (u8 v) ≡ v
unfolding be32
be32_lem v h = omega arith

pub be64_lem : (v : ℕ) → v < 2 ^ 64 → be64 (u32 (v / 2 ^ 32)) (u32 v) ≡ v
unfolding be64
be64_lem v h = omega arith

read_fully-append :
    (bytes rest : List ℕ) (n : ℕ)
    → n ≡ length bytes
    → read_fully n (bytes ++ rest) ≡ some (bytes, rest)
unfolding read_fully
read_fully-append bytes rest n e = ground (
  arith,
  length-append bytes rest,
  take-append_left bytes rest n e,
  drop-append_left bytes rest n e,
)

next_byte : (v b : ℕ) → v < 2 ^ 24 → b < 256 → bit_or (v * 2 ^ 8 % 2 ^ 32) b ≡ v * 256 + b
next_byte v b hv hb = bit_or_sum 8 v b (omega arith) hb ∙ omega arith

first_byte : (b : ℕ) → b < 256 → bit_or (0 * 2 ^ 8 % 2 ^ 32) b ≡ b
first_byte b hb = next_byte 0 b (omega arith) hb ∙ omega arith

length_1 :
    (n : ℕ) (rest : List ℕ) → n < 256 → parse_buffer_length 1 0 (u8 n ∷ rest) ≡ some (n, rest)
unfolding parse_buffer_length
length_1 n rest h = ap (λ v. some (v, rest)) (first_byte (u8 n) (omega arith) ∙ omega arith)

-- What the loop makes of a second, a third and a fourth byte.
abbrev next : ℕ → ℕ → ℕ
next b v = bit_or (v * 2 ^ 8 % 2 ^ 32) b

length_2 :
    (n : ℕ) (rest : List ℕ)
    → n < 2 ^ 16
    → parse_buffer_length 2 0 (write16be n ++ rest) ≡ some (n, rest)
unfolding parse_buffer_length write16be
length_2 n rest h =
    ap (λ v. some (v, rest))
      (ap (next (u8 n)) (first_byte (u8 (n / 2 ^ 8)) (omega arith))
        ∙ next_byte (u8 (n / 2 ^ 8)) (u8 n) (omega arith) (omega arith)
        ∙ omega arith)

four_bytes :
    (a b c d : ℕ)
    → a < 256
    → b < 256
    → c < 256
    → d < 256
    → next d (next c (next b (next a 0))) ≡ be32 a b c d
unfolding be32
four_bytes a b c d ha hb hc hd =
    ap (next d) (ap (next c) (ap (next b) (first_byte a ha) ∙ next_byte a b (omega arith) hb))
    ∙ ap (next d) (next_byte (a * 256 + b) c (omega arith) hc)
    ∙ next_byte ((a * 256 + b) * 256 + c) d (omega arith) hd
    ∙ omega arith

length_4 :
    (n : ℕ) (rest : List ℕ)
    → n < 2 ^ 32
    → parse_buffer_length 4 0 (write32be n ++ rest) ≡ some (n, rest)
unfolding parse_buffer_length write32be
length_4 n rest h =
    ap (λ v. some (v, rest))
      (four_bytes (u8 (n / 2 ^ 24)) (u8 (n / 2 ^ 16)) (u8 (n / 2 ^ 8)) (u8 n) (omega arith)
          (omega arith) (omega arith) (omega arith)
        ∙ be32_lem n h)

-- A run of bytes behind its length.
array_of_length :
    (size_bytes : ℕ) (stream bytes rest : List ℕ)
    → length bytes < 2 ^ 31
    → parse_buffer_length size_bytes 0 stream ≡ some (length bytes, bytes ++ rest)
    → parse_byte_array size_bytes stream ≡ some (bytes, rest)
unfolding parse_byte_array
array_of_length size_bytes stream bytes rest h e =
    >>=-some (parse_buffer_length size_bytes 0) _ stream e
    ∙ rw (lt→ltb (length bytes) (2 ^ 31) h) (read_fully-append bytes rest (length bytes) refl)

pub array_4 :
    (bytes rest : List ℕ)
    → length bytes < 2 ^ 31
    → parse_byte_array 4 (write32be (u32 (length bytes)) ++ (bytes ++ rest)) ≡ some (bytes, rest)
array_4 bytes rest h = array_of_length 4 _ bytes rest h (
    ap (λ n. parse_buffer_length 4 0 (write32be n ++ (bytes ++ rest))) {x = u32 (length bytes)}
      (omega arith)
    ∙ length_4 (length bytes) (bytes ++ rest) (omega arith))

pub array_1 :
    (bytes rest : List ℕ)
    → length bytes < 256
    → parse_byte_array 1 (u8 (length bytes) ∷ (bytes ++ rest)) ≡ some (bytes, rest)
array_1 bytes rest h =
    array_of_length 1 _ bytes rest (omega arith) (length_1 (length bytes) (bytes ++ rest) h)

-- `size` bytes of an array that may be longer.
pub array_2 :
    (bytes rest : List ℕ) (size : ℕ)
    → size < 2 ^ 16
    → size ≤ length bytes
    → parse_byte_array 2 (write16be size ++ (take size bytes ++ rest))
      ≡ some (take size bytes, rest)
array_2 bytes rest size h inside =
    array_of_length 2 _ (take size bytes) rest (omega (arith, full)) (
      length_2 size (take size bytes ++ rest) h
      ∙ ap (λ n. some (n, take size bytes ++ rest)) (omega (arith, full)))
  where
    full : length (take size bytes) ≡ size
    full = omega (arith, length-take size bytes)
