-- ===== src/Str/Copied.antt =====
-- What `sc_strncpy` leaves in a buffer, behind a text that is in it.
use droidctl.Base.{
  ℕ, zero, suc, ◌+◌, ◌-◌, ◌%◌, ◌^◌, ◌≤◌, ◌<◌, ◌≡◌, refl, ap, ap₂, sym, ◌∙◌, false, List, [], ◌∷◌,
  ◌++◌, append_assoc, append-nil, length, length-append, length-drop, length-take, eqb_ne, set,
  drop, take, ltb, lt→ltb, ◌==◌, if◌then◌else◌, arith,
}
use droidctl.Str.Join.{strncpy_loop, strncpy}

-- `text` at the start of `dst`.
abbrev pub at_start : List ℕ → List ℕ → List ℕ
at_start text dst = text ++ drop (length text) dst

pub set_next :
    (text dst : List ℕ) (c : ℕ)
    → length text < length dst
    → set (at_start text dst) (length text) c ≡ at_start (text ++ (c ∷ [])) dst
set_next [] [] c h = absurd (omega arith)
set_next [] (d ∷ dst) c h = refl
set_next (x ∷ text) [] c h = absurd (omega arith)
set_next (x ∷ text) (d ∷ dst) c h = ap (λ l. x ∷ l) (set_next text dst c (omega arith))

-- The loop copies what there is room for.
pub copied :
    (text dst src : List ℕ) (at limit i k : ℕ)
    → at + i ≡ length text
    → limit ≡ i + k
    → at + limit < length dst
    → strncpy_loop (at_start text dst) at src limit i
      ≡ (i + length (take k src), drop k src, at_start (text ++ take k src) dst)
copied text dst [] at limit i zero here rest room =
    ap₂ (λ n l. (n, [], at_start l dst)) {x = i} {y = i + 0} (omega arith) (sym (append-nil text))
copied text dst [] at limit i (suc k) here rest room =
    ap₂ (λ n l. (n, [], at_start l dst)) {x = i} {y = i + 0} (omega arith) (sym (append-nil text))
copied text dst (c ∷ src) at limit i zero here rest room = rw (full) (
    ap₂ (λ n l. (n, c ∷ src, at_start l dst)) {x = i} {y = i + 0} (omega arith)
      (sym (append-nil text)))
  where
    full : ltb i limit ≡ false
    full = ground (arith, rest)
copied text dst (c ∷ src) at limit i (suc k) here rest room =
    rw (lt→ltb i limit (omega (arith, rest))) (
      ap (λ d. strncpy_loop d at src limit (i + 1)) written
      ∙ copied (text ++ (c ∷ [])) dst src at limit (i + 1) k
          (omega (arith, here, length-append text (c ∷ []))) (omega (arith, rest)) room
      ∙ ap₂ (λ n l. (n, drop k src, at_start l dst)) {x = i + 1 + length (take k src)} (omega arith)
          (append_assoc text (c ∷ []) (take k src)))
  where
    written : set (at_start text dst) (at + i) c ≡ at_start (text ++ (c ∷ [])) dst
    written =
        ap (λ n. set (at_start text dst) n c) here ∙ set_next text dst c (omega (arith, here, rest))

-- Copying `src` behind `text`, with room for `n` bytes.
pub strncpy_lem :
    (text dst src : List ℕ) (n : ℕ)
    → 0 < n
    → n < 2 ^ 64
    → length text + n ≤ length dst
    → let all = text ++ take (n - 1) src in
      strncpy (at_start text dst) (length text) src n
      ≡ ((if ltb (length src) n then length src else n), at_start (all ++ (0 ∷ [])) dst)
unfolding strncpy
strncpy_lem text dst src n some_room small room =
    rw
      (
        strncpy,
        copied text dst src (length text) ((n + 2 ^ 64 - 1) % 2 ^ 64) 0 (n - 1) (omega arith)
            (omega arith) (omega arith),
      )
      (ap₂ (λ w d. (w, d)) result memory)
  where
    all : List ℕ
    all = text ++ take (n - 1) src

    result :
        (if length (drop (n - 1) src) == 0 then 0 + length (take (n - 1) src) else n)
        ≡ (if ltb (length src) n then length src else n)
    result = ground (arith, length-drop (n - 1) src, length-take (n - 1) src)

    memory :
        (if n == 0
          then at_start all dst
          else set (at_start all dst) (length text + (0 + length (take (n - 1) src))) 0)
        ≡ at_start (all ++ (0 ∷ [])) dst
    memory = rw (eqb_ne n 0 (λ e. absurd (omega (arith, e)))) (
        ap (λ k. set (at_start all dst) k 0) {y = length all}
          (omega (arith, length-append text (take (n - 1) src)))
        ∙ set_next all dst 0
            (omega (arith, length-append text (take (n - 1) src), length-take (n - 1) src)))

drop-covered :
    (n : ℕ) (xs ys : List ℕ) → length xs ≤ n → drop n (xs ++ drop (length xs) ys) ≡ drop n ys
drop-covered n [] ys h = refl
drop-covered zero (x ∷ xs) ys h = absurd (omega arith)
drop-covered (suc n) (x ∷ xs) [] h = ap (drop n) (append-nil xs) ∙ drop_short n xs (omega arith)
  where
    drop_short : (n : ℕ) (xs : List ℕ) → length xs ≤ n → drop n xs ≡ []
    drop_short zero [] h = refl
    drop_short zero (x ∷ xs) h = absurd (omega arith)
    drop_short (suc n) [] h = refl
    drop_short (suc n) (x ∷ xs) h = drop_short n xs (omega arith)
drop-covered (suc n) (x ∷ xs) (y ∷ ys) h = drop-covered n xs ys (omega arith)

pub length-at_start :
    (text dst : List ℕ) → length text ≤ length dst → length (at_start text dst) ≡ length dst
length-at_start text dst h =
    omega (arith, length-append text (drop (length text) dst), length-drop (length text) dst)

-- The last byte is written again.
pub set_last :
    (text dst : List ℕ) (c d : ℕ)
    → set (at_start (text ++ (c ∷ [])) dst) (length text) d ≡ at_start (text ++ (d ∷ [])) dst
set_last text dst c d =
    set_behind text (drop (length (text ++ (c ∷ []))) dst)
    ∙ ap (λ n. (text ++ (d ∷ [])) ++ drop n dst)
        (length-append text (c ∷ []) ∙ sym (length-append text (d ∷ [])))
  where
    set_behind :
        (front rest : List ℕ)
        → set ((front ++ (c ∷ [])) ++ rest) (length front) d ≡ (front ++ (d ∷ [])) ++ rest
    set_behind [] rest = refl
    set_behind (x ∷ front) rest = ap (λ l. x ∷ l) (set_behind front rest)

pub covered :
    (text : List ℕ) (c : ℕ) (dst all : List ℕ)
    → length text < length all
    → at_start all (at_start (text ++ (c ∷ [])) dst) ≡ at_start all dst
covered text c dst all h =
    ap (λ l. all ++ l)
      (drop-covered (length all) (text ++ (c ∷ [])) dst
        (omega (arith, length-append text (c ∷ []))))
