-- ===== src/Str/Truncation.antt =====
-- `sc_str_utf8_truncation_index` cuts between two codepoints.
use droidctl.Base.{ℕ, zero, suc, ◌+◌, ◌-◌, ◌≤◌, ◌<◌, ◌≡◌, refl, ap, ◌∙◌, sym, true, false}
use droidctl.Base.{some, List, [], ◌∷◌, ◌++◌, length, take, All, arith, inl, inr}
use droidctl.Base.{Bool-cases, length-append, leb, leb→le, take_all}
use droidctl.Base.{length-take}
use mathlib.Core.Option.{some-injective}
use native.Mathlib.Decide.{dec_le}
use droidctl.Binary.{byte}
use droidctl.Str.{is_continuation, truncation_loop, utf8_truncation_index}

-- A text whose first byte does not continue a codepoint, such as any valid UTF-8 text.
abbrev pub StartsCodepoint : List ℕ → Type 0
StartsCodepoint utf8 = is_continuation (byte utf8 0) ≡ false

-- What the loop stops at: the last index up to `i` that does not continue a codepoint.
record Stops (utf8 : List ℕ) (i : ℕ) : Type 0 where
  index : ℕ
  found : truncation_loop utf8 i ≡ some index
  within : index ≤ i
  starts : is_continuation (byte utf8 index) ≡ false
  last : (j : ℕ) → index < j → j ≤ i → is_continuation (byte utf8 j) ≡ true

-- One more index that continues a codepoint.
up_to_suc :
    (utf8 : List ℕ) (i k : ℕ)
    → is_continuation (byte utf8 (suc i)) ≡ true
    → ((j : ℕ) → k < j → j ≤ i → is_continuation (byte utf8 j) ≡ true)
    → (j : ℕ) → k < j
    → j ≤ suc i
    → is_continuation (byte utf8 j) ≡ true
up_to_suc utf8 i k cont below j p q = elim (dec_le j i) [
  | yes le ↦ below j p le
  | no gt ↦ rw (last_index gt) cont
]
  where
    last_index : ¬ (j ≤ i) → j ≡ suc i
    last_index gt = omega arith

truncation_loop-Stops : (utf8 : List ℕ) (i : ℕ) → StartsCodepoint utf8 → Stops utf8 i
unfolding truncation_loop
truncation_loop-Stops utf8 zero h = record {
  index = zero;
  found = rw h;
  within = omega arith;
  starts = h;
  last = λ j p q. absurd (omega arith);
}
truncation_loop-Stops utf8 (suc i) h = elim (Bool-cases (is_continuation (byte utf8 (suc i)))) [
  | inl cont ↦
      let s = truncation_loop-Stops utf8 i h in
      record {
        index = s.index;
        found = rw cont s.found;
        within = omega (arith, s.within);
        starts = s.starts;
        last = up_to_suc utf8 i s.index cont s.last;
      }
  | inr start ↦ record {
    index = suc i;
    found = rw start;
    within = omega arith;
    starts = start;
    last = λ j p q. absurd (omega arith);
  }
]

-- A text that starts a codepoint is cut at an index within the limit and within the text.
pub utf8_truncation_index_total :
    (utf8 : List ℕ) (max_len : ℕ)
    → StartsCodepoint utf8
    → (n : ℕ) × (utf8_truncation_index utf8 max_len ≡ some n) × (n ≤ max_len) × (n ≤ length utf8)
unfolding utf8_truncation_index
utf8_truncation_index_total utf8 max_len h = elim (Bool-cases (leb (length utf8) max_len)) [
  | inl fits ↦ (length utf8, rw fits, leb→le _ _ fits, omega arith)
  | inr longer ↦
      let s = truncation_loop-Stops utf8 max_len h in
      (s.index, rw longer s.found, s.within, ground (arith, s.within))
]

-- A codepoint in UTF-8: its first byte, and the bytes that continue it.
abbrev pub Codepoint : Type 0
Codepoint = ℕ × List ℕ

abbrev pub IsCodepoint : Codepoint → Type 0
IsCodepoint c = (is_continuation c.0 ≡ false) × All (λ b. is_continuation b ≡ true) c.1

abbrev pub encode : List Codepoint → List ℕ
encode [] = []
encode ((lead, tail) ∷ rest) = lead ∷ (tail ++ encode rest)

zero-starts : is_continuation 0 ≡ false
unfolding is_continuation
zero-starts = refl

byte-append_tail :
    (tail rest : List ℕ) (j : ℕ) → byte (tail ++ rest) (length tail + j) ≡ byte rest j
byte-append_tail [] rest j = ap (byte rest) (omega arith)
byte-append_tail (b ∷ tail) rest j =
    ap (byte (b ∷ (tail ++ rest))) {y = suc (length tail + j)} (omega arith)
    ∙ byte-append_tail tail rest j

take-append_tail :
    (tail rest : List ℕ) (j : ℕ) → take (length tail + j) (tail ++ rest) ≡ tail ++ take j rest
take-append_tail [] rest j = ap (λ n. take n rest) (omega arith)
take-append_tail (b ∷ tail) rest j =
    ap (λ n. take n (b ∷ (tail ++ rest))) {y = suc (length tail + j)} (omega arith)
    ∙ ap (λ l. b ∷ l) (take-append_tail tail rest j)

byte-tail :
    (tail rest : List ℕ) (j : ℕ)
    → All (λ b. is_continuation b ≡ true) tail
    → j < length tail
    → is_continuation (byte (tail ++ rest) j) ≡ true
byte-tail [] rest j h lt = absurd (omega arith)
byte-tail (b ∷ tail) rest zero h lt = h.0
byte-tail (b ∷ tail) rest (suc j) h lt = byte-tail tail rest j h.1 (omega arith)

-- Where a whole number of codepoints ends, the next byte starts one.
byte-boundary :
    (cs : List Codepoint) (k : ℕ)
    → All IsCodepoint cs
    → is_continuation (byte (encode cs) (length (encode (take k cs)))) ≡ false
byte-boundary [] zero h = zero-starts
byte-boundary [] (suc k) h = zero-starts
byte-boundary (c ∷ cs) zero h = h.0.0
byte-boundary ((lead, tail) ∷ cs) (suc k) h =
    ap is_continuation (
      ap (byte (tail ++ encode cs)) (length-append tail (encode (take k cs)))
      ∙ byte-append_tail tail (encode cs) (length (encode (take k cs))))
    ∙ byte-boundary cs k h.1

-- A byte that starts a codepoint, or the terminator, is where a whole number of codepoints ends.
boundary_of_start :
    (cs : List Codepoint) (j : ℕ)
    → All IsCodepoint cs
    → j ≤ length (encode cs)
    → is_continuation (byte (encode cs) j) ≡ false
    → (k : ℕ) × (take j (encode cs) ≡ encode (take k cs))
boundary_of_start cs zero h le start = (zero, refl)
boundary_of_start [] (suc j) h le start = absurd (omega arith)
boundary_of_start ((lead, tail) ∷ cs) (suc j) h le start = elim (dec_le (length tail) j) [
  | yes past ↦
      let i = j - length tail in
      let e : j ≡ length tail + i = omega arith in
      let (k, cut) =
        boundary_of_start cs i h.1 (omega (arith, length-append tail (encode cs)))
          (rw (sym (byte-append_tail tail (encode cs) i)) (rw (← e) start)) in
      (
        suc k,
        ap (λ l. lead ∷ l)
            (ap (λ n. take n (tail ++ encode cs)) e
              ∙ take-append_tail tail (encode cs) i
              ∙ ap (λ l. tail ++ l) cut),
      )
  | no inside ↦ absurd (cc (byte-tail tail (encode cs) j h.0.1 (omega arith)))
]

encode-StartsCodepoint : (cs : List Codepoint) → All IsCodepoint cs → StartsCodepoint (encode cs)
encode-StartsCodepoint cs h = byte-boundary cs zero h

length-encode-take :
    (cs : List Codepoint) (k : ℕ) → length (encode (take k cs)) ≤ length (encode cs)
length-encode-take cs zero = omega arith
length-encode-take [] (suc k) = omega arith
length-encode-take ((lead, tail) ∷ cs) (suc k) = omega (
  arith,
  length-encode-take cs k,
  length-append tail (encode cs),
  length-append tail (encode (take k cs)),
)

take-length : (cs : List Codepoint) → encode (take (length cs) cs) ≡ encode cs
take-length cs = ap encode (take_all (length cs) cs (omega arith))

-- No run of whole codepoints ends between the index that the loop finds and the limit.
stop_is_longest :
    (cs : List Codepoint) (max_len : ℕ) (h : All IsCodepoint cs) (s : Stops (encode cs) max_len)
    (k : ℕ)
    → length (encode (take k cs)) ≤ max_len
    → length (encode (take k cs)) ≤ s.index
stop_is_longest cs max_len h s k fits = elim (dec_le (length (encode (take k cs))) s.index) [
  | yes le ↦ le
  | no gt ↦
      absurd (cc (byte-boundary cs k h, s.last (length (encode (take k cs))) (omega arith) fits))
]

-- `sc_str_utf8_truncation_index` on a sequence of codepoints returns an index within the limit,
-- and the text before that index is a whole number of codepoints.
pub utf8_truncation_index_whole :
    (cs : List Codepoint) (max_len : ℕ)
    → All IsCodepoint cs
    → (n k : ℕ) × (utf8_truncation_index (encode cs) max_len ≡ some n)
      × (take n (encode cs) ≡ encode (take k cs))
      × (n ≤ max_len)
unfolding utf8_truncation_index
utf8_truncation_index_whole cs max_len h = elim (Bool-cases (leb (length (encode cs)) max_len)) [
  | inl fits ↦ (
    length (encode cs),
    length cs,
    rw fits,
    take_all _ _ (omega arith) ∙ sym (take-length cs),
    leb→le _ _ fits,
  )
  | inr longer ↦
      let s = truncation_loop-Stops (encode cs) max_len (encode-StartsCodepoint cs h) in
      let (k, cut) = boundary_of_start cs s.index h (ground (arith, s.within)) s.starts in
      (s.index, k, rw longer s.found, cut, s.within)
]

longest :
    (cs : List Codepoint) (max_len n k : ℕ)
    → All IsCodepoint cs
    → utf8_truncation_index (encode cs) max_len ≡ some n
    → length (encode (take k cs)) ≤ max_len
    → length (encode (take k cs)) ≤ n
unfolding utf8_truncation_index
longest cs max_len n k h e fits = elim (Bool-cases (leb (length (encode cs)) max_len)) [
  | inl short ↦ ground (arith, length-encode-take cs k)
  | inr longer ↦
      let s = truncation_loop-Stops (encode cs) max_len (encode-StartsCodepoint cs h) in
      ground (arith, stop_is_longest cs max_len h s k fits, s.found)
]

-- What `sc_str_utf8_truncation_index` returns on a sequence of codepoints is the length of a whole
-- number of them, and fits the limit; and no whole number of them that fits the limit is longer.
pub utf8_truncation_index_longest :
    (cs : List Codepoint) (max_len n k : ℕ)
    → All IsCodepoint cs
    → utf8_truncation_index (encode cs) max_len ≡ some n
    → length (encode (take k cs)) ≤ max_len
    → (j : ℕ) × (n ≡ length (encode (take j cs)))
      × (n ≤ max_len)
      × (length (encode (take k cs)) ≤ n)
utf8_truncation_index_longest cs max_len n k h e fits =
    let (n1, found, within, inside) =
      utf8_truncation_index_total (encode cs) max_len (encode-StartsCodepoint cs h) in
    let (n2, j, cut_found, cut, _) = utf8_truncation_index_whole cs max_len h in
    let same1 : n1 ≡ n = some-injective _ _ (sym found ∙ e) in
    let same2 : n2 ≡ n = some-injective _ _ (sym cut_found ∙ e) in
    let size : length (take n2 (encode cs)) ≡ length (encode (take j cs)) = ap length cut in
    (
      j,
      omega (arith, size, length-take n2 (encode cs), inside, same1, same2),
      omega (arith, within, same1),
      longest cs max_len n k h e fits,
    )
