-- ===== src/Examples/Texts.antt =====
-- Texts cut at a codepoint.
use droidctl.Base.{ℕ, ◌≡◌, ◌≤◌, refl, some, List, [], ◌∷◌, take, length, All, arith}
use droidctl.Str.{is_continuation, utf8_truncation_index}
use droidctl.Str.Truncation.{
  Codepoint, IsCodepoint, encode, StartsCodepoint, utf8_truncation_index_whole,
  utf8_truncation_index_longest, utf8_truncation_index_total,
}

-- "aé€", where é takes two bytes and € three.
abbrev word : List Codepoint
word = (97, []) ∷ (195, 169 ∷ []) ∷ (226, 130 ∷ 172 ∷ []) ∷ []

word-IsCodepoint : All IsCodepoint word
unfolding is_continuation
word-IsCodepoint = ((refl, tt), ((refl, (refl, tt)), ((refl, (refl, (refl, tt))), tt)))

word-cut : utf8_truncation_index (encode word) 5 ≡ some 3
unfolding utf8_truncation_index is_continuation
word-cut = refl

word-StartsCodepoint : StartsCodepoint (encode word)
unfolding is_continuation
word-StartsCodepoint = refl

utf8_truncation_index_whole_example :
    (n k : ℕ) × (utf8_truncation_index (encode word) 5 ≡ some n)
    × (take n (encode word) ≡ encode (take k word))
    × (n ≤ 5)
utf8_truncation_index_whole_example = utf8_truncation_index_whole word 5 word-IsCodepoint

utf8_truncation_index_longest_example :
    (j : ℕ) × (◌≡◌ {A = ℕ} 3 (length (encode (take j word))))
    × (3 ≤ 5)
    × (length (encode (take 2 word)) ≤ 3)
utf8_truncation_index_longest_example =
    utf8_truncation_index_longest word 5 3 2 word-IsCodepoint word-cut (omega arith)

utf8_truncation_index_total_example :
    (n : ℕ) × (utf8_truncation_index (encode word) 5 ≡ some n)
    × (n ≤ 5)
    × (n ≤ length (encode word))
utf8_truncation_index_total_example =
    utf8_truncation_index_total (encode word) 5 word-StartsCodepoint
