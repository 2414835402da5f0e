-- ===== src/Str/Join.antt =====
-- app/src/util/str.c: copying and joining texts into a buffer of a given size.
use droidctl.Base.{
  ℕ, ◌+◌, ◌-◌, ◌%◌, ◌^◌, List, [], ◌∷◌, length, set, not, ◌&&◌, ltb, leb, ◌==◌, if◌then◌else◌,
}

-- The loop of `sc_strncpy` from `src[i]` on, with `limit` for `n - 1`: `i` after it, the rest of the
-- source, and the memory, in which `dest` is at `at`.
abbrev pub strncpy_loop : List ℕ → ℕ → List ℕ → ℕ → ℕ → ℕ × List ℕ × List ℕ
strncpy_loop dst at [] limit i = (i, [], dst)
strncpy_loop dst at (c ∷ src) limit i =
    let rest = strncpy_loop (set dst (at + i) c) at src limit (i + 1) in
    if ltb i limit then rest else (i, c ∷ src, dst)

-- The result, and the memory. `n - 1` is computed in `size_t`.
unfoldable pub strncpy : List ℕ → ℕ → List ℕ → ℕ → ℕ × List ℕ
strncpy dst at src n =
    let (i, rest, dst') = strncpy_loop dst at src ((n + 2 ^ 64 - 1) % 2 ^ 64) 0 in
    (if length rest == 0 then i else n, if n == 0 then dst' else set dst' (at + i) 0)

-- `truncated:`
abbrev pub truncated : List ℕ → ℕ → ℕ × List ℕ
truncated dst n = (n, set dst (n - 1) 0)

-- The loop of `sc_str_join` from index `i` on.
unfoldable pub join_loop : List ℕ → List (List ℕ) → ℕ → ℕ → ℕ → ℕ × List ℕ
join_loop dst [] sep n i = (i, dst)
join_loop dst (token ∷ remaining) sep n i =
    let dst1 = if i == 0 then dst else set dst i sep in
    let i1 = if i == 0 then i else i + 1 in
    let (w, dst2) = strncpy dst1 i1 token (n - i1) in
    let rest = join_loop dst2 remaining sep n (i1 + w) in
    if not (i == 0) && i1 == n
    then truncated dst1 n
    else if leb (n - i1) w
    then truncated dst2 n
    else rest

-- `sc_str_join`: the result, and `dst` after it.
unfoldable pub str_join : List ℕ → List (List ℕ) → ℕ → ℕ → ℕ × List ℕ
str_join dst tokens sep n = join_loop dst tokens sep n 0
