-- ===== src/Str.antt =====
-- app/src/util/str.c. A `char *` is the list of the bytes before its terminator: reading at the
-- length gives the terminating 0.
pub mod Truncation
pub mod Join
pub mod Copied
pub mod Joined
pub mod Tokens
pub mod Listed
pub mod Columns
use droidctl.Base.{ℕ, zero, suc, Bool, not, ◌&&◌, Option, none, some, List, length, bit_and}
use droidctl.Base.{leb, ◌==◌, if◌then◌else◌}
use droidctl.Binary.{byte}

-- `(b & 0x80) != 0 && (b & 0xc0) != 0xc0`: not the start of a codepoint.
unfoldable pub is_continuation : ℕ → Bool
is_continuation b = not (bit_and b 0x80 == 0) && not (bit_and b 0xc0 == 0xc0)

-- The `while` of `sc_str_utf8_truncation_index`. `none` is the read before the string that follows
-- when even its first byte does not start a codepoint.
unfoldable pub truncation_loop : List ℕ → ℕ → Option ℕ
unfolding is_continuation
truncation_loop utf8 zero = if is_continuation (byte utf8 0) then none else some zero
truncation_loop utf8 (suc len) =
    let shorter = truncation_loop utf8 len in
    if is_continuation (byte utf8 (suc len)) then shorter else some (suc len)

unfoldable pub utf8_truncation_index : List ℕ → ℕ → Option ℕ
unfolding truncation_loop
utf8_truncation_index utf8 max_len =
    let len = length utf8 in if leb len max_len then some len else truncation_loop utf8 max_len
