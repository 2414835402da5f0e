-- ===== src/Str/Tokens.antt =====
-- app/src/util/str.c: lists of tokens in a text, columns, and ends of lines.
use droidctl.Base.{
  ℕ, zero, suc, ◌+◌, Bool, true, false, ◌||◌, Option, none, some, List, [], ◌∷◌, length, get_or,
  set, take, drop, leb, ◌==◌, if◌then◌else◌,
}
use droidctl.Base.Text.{starts_with}

-- `strcspn` and `strspn`, for a set of separators.
abbrev pub strcspn : (ℕ → Bool) → List ℕ → ℕ
strcspn seps [] = 0
strcspn seps (c ∷ s) = let n = suc (strcspn seps s) in if seps c then 0 else n

abbrev pub strspn : (ℕ → Bool) → List ℕ → ℕ
strspn seps [] = 0
strspn seps (c ∷ s) = let n = suc (strspn seps s) in if seps c then n else 0

-- The loop of `sc_str_list_contains`. Each round but the last goes past a separator. With the
-- separator '\0', `strchr` finds the terminator, and the loop goes on behind the text: this read out
-- of bounds is `none`, as is a loop that is still running.
unfoldable pub list_contains_loop : ℕ → List ℕ → ℕ → List ℕ → Option Bool
list_contains_loop zero list sep s = none
list_contains_loop (suc fuel) list sep s =
    let token_len = strcspn (λ c. c == sep) list in
    let next = list_contains_loop fuel (drop (token_len + 1) list) sep s in
    if starts_with (take token_len list) s
    then some true
    else if leb (length list) token_len
    then if sep == 0 then none else some false
    else next

unfoldable pub list_contains : List ℕ → ℕ → List ℕ → Option Bool
list_contains list sep s = list_contains_loop (suc (length list)) list sep s

-- The loop of `sc_str_index_of_column`: the outer `none` is a loop that is still running. The
-- inner one is -1.
unfoldable pub column_loop : ℕ → List ℕ → ℕ → (ℕ → Bool) → ℕ → ℕ → Option (Option ℕ)
column_loop zero s col seps idx colidx = none
column_loop (suc fuel) s col seps idx colidx =
    let idx' = idx + strcspn seps (drop idx s) in
    let idx'' = idx' + strspn seps (drop idx' s) in
    let next =
      column_loop fuel s col seps idx'' (if leb (length s) idx'' then colidx else colidx + 1) in
    if leb (length s) idx || colidx == col
    then some (if col == colidx then some idx else none)
    else if leb (length s) idx'
    then some none
    else next

unfoldable pub index_of_column : List ℕ → ℕ → (ℕ → Bool) → Option (Option ℕ)
index_of_column s col seps = column_loop (suc (length s)) s col seps 0 0

-- `sc_str_remove_trailing_cr`: the new length, and the memory.
unfoldable pub remove_trailing_cr : List ℕ → ℕ → ℕ × List ℕ
remove_trailing_cr s zero = (0, s)
remove_trailing_cr s (suc len) =
    let rest = remove_trailing_cr (set s len 0) len in
    if get_or s len 0 == 13 then rest else (suc len, s)
