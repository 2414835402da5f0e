-- ===== src/ControlMsg/Frames.antt =====
-- Writes through a buffer that extend what has been written, and the texts that are sent.
use droidctl.Base.{ℕ, ◌+◌, ◌≤◌, ◌≡◌, refl, ap, sym, ap₂, ◌∙◌, none, some, List, [], ◌∷◌, ◌++◌}
use droidctl.Base.{
  length, take, drop, arith, length-append, length-take, length-drop, drop-drop, append_assoc, zero,
  suc,
}
use droidctl.Base.Buffer.{write_at, write_at_next, write_at_behind, write_at_framed}
use droidctl.Binary.{u8, u32, write32be}
use droidctl.Str.{utf8_truncation_index}
use droidctl.Str.Truncation.{utf8_truncation_index_total}
use droidctl.ControlMsg.{Written, CString}
use droidctl.ControlMsg.{write_string, write_string_tiny, write_string_payload}
use droidctl.ControlMsg.Encoding.{IsText, payload, string_bytes, tiny_string_bytes}

module _ (buf : List ℕ) where
  -- The buffer starts with `front`, and the rest is as it was.
  pub record Starts (front out : List ℕ) : Type 0 where
    pub holds : out ≡ front ++ drop (length front) buf

  pub Starts-next :
      {front out : List ℕ} (at : ℕ) (bytes : List ℕ)
      → Starts front out
      → at ≡ length front
      → length front + length bytes ≤ length buf
      → Starts (front ++ bytes) (write_at out at bytes)
  Starts-next {front} at bytes s e h = record {
    holds =
        ap (λ o. write_at o at bytes) (s.holds ∙ ap (λ n. front ++ drop n buf) (sym e))
        ∙ write_at_next front buf at bytes e h
        ∙ ap (λ n. (front ++ bytes) ++ drop n buf) (omega (arith, length-append front bytes));
  }

  -- A payload behind its header, which is written last.
  pub Starts-framed :
      {front out : List ℕ} (at behind : ℕ) (header sent : List ℕ)
      → Starts front out
      → at ≡ length front
      → behind ≡ at + length header
      → length front + (length header + length sent) ≤ length buf
      → Starts (front ++ (header ++ sent)) (write_at (write_at out behind sent) at header)
  Starts-framed {front} at behind header sent s e b h = record {
    holds =
        ap (λ o. write_at (write_at o behind sent) at header) s.holds
        ∙ ap (λ o. write_at o at header)
            (write_at_behind front (drop (length front) buf) behind (length header) sent
              (omega arith))
        ∙ write_at_behind front (write_at (drop (length front) buf) (length header) sent) at 0
            header (omega arith)
        ∙ ap (λ l. front ++ l)
            (write_at_framed (drop (length front) buf) header sent
                (omega (arith, length-drop (length front) buf))
              ∙ ap (λ l. (header ++ sent) ++ l)
                  (drop-drop (length front) (length header + length sent) buf
                    ∙ ap (λ n. drop n buf) whole))
        ∙ sym (append_assoc front (header ++ sent) _);
  }
    where
      whole : length front + (length header + length sent) ≡ length (front ++ (header ++ sent))
      whole = omega (arith, length-append front (header ++ sent), length-append header sent)

-- The text that is sent, and its length as the code computes it.
pub record Sent (text : CString) (max_len : ℕ) : Type 0 where
  pub short : length (payload text max_len) ≤ max_len
  pub written :
      (buf : List ℕ) (at : ℕ)
      → write_string_payload buf at text max_len
        ≡ some (write_at buf at (payload text max_len), length (payload text max_len))

write_at_nothing : (buf : List ℕ) (at : ℕ) → write_at buf at [] ≡ buf
write_at_nothing [] at = refl
write_at_nothing (x ∷ buf) zero = refl
write_at_nothing (x ∷ buf) (suc at) = ap (λ l. x ∷ l) (write_at_nothing buf at)

payload_cut :
    (utf8 : List ℕ) (max_len n : ℕ)
    → utf8_truncation_index utf8 max_len ≡ some n
    → payload (some utf8) max_len ≡ take n utf8
unfolding payload
payload_cut utf8 max_len n e = rw (e, payload)

pub text-Sent : (text : CString) (max_len : ℕ) → IsText text → Sent text max_len
unfolding payload write_string_payload
text-Sent none max_len h = record {
  short = omega arith;
  written = λ buf at. ap (λ b. some (b, 0)) (sym (write_at_nothing buf at));
}
text-Sent (some utf8) max_len h =
    let (n, e, le, fits) = utf8_truncation_index_total utf8 max_len h in
    let cut : payload (some utf8) max_len ≡ take n utf8 = payload_cut utf8 max_len n e in
    record {
      short = omega (arith, length-take n utf8, ap length cut);
      written = λ buf at. rw e (
          ap₂ (λ sent k. some (write_at buf at sent, k)) (sym cut)
            (omega (arith, length-take n utf8, ap length cut)));
    }

module _ (buf : List ℕ) where
  -- The outcome of a writer that appends `bytes` to `front` and returns `n`.
  pub record Wrote (front bytes : List ℕ) (n : ℕ) (result : Written) : Type 0 where
    pub out : List ℕ
    pub returned : result ≡ some (out, n)
    pub starts : Starts buf (front ++ bytes) out

  pub write_string-Wrote :
      {front out : List ℕ} (at : ℕ) (text : CString) (max_len : ℕ)
      → IsText text
      → Starts buf front out
      → at ≡ length front
      → length front + (4 + max_len) ≤ length buf
      → Wrote front
          (string_bytes text max_len)
          (4 + length (payload text max_len))
          (write_string out at text max_len)
  unfolding write_string
  write_string-Wrote {front} {out} at text max_len h s e fits =
      let sent = text-Sent text max_len h in
      record {
        out = _;
        returned = rw (sent.written out (at + 4));
        starts =
            Starts-framed buf at (at + 4) (write32be (u32 (length (payload text max_len))))
              (payload text max_len) s e (unfold write32be in refl)
              (unfold write32be in omega (arith, sent.short));
      }

  pub write_string_tiny-Wrote :
      {front out : List ℕ} (at : ℕ) (text : CString) (max_len : ℕ)
      → IsText text
      → Starts buf front out
      → at ≡ length front
      → length front + (1 + max_len) ≤ length buf
      → Wrote front
          (tiny_string_bytes text max_len)
          (1 + length (payload text max_len))
          (write_string_tiny out at text max_len)
  unfolding write_string_tiny
  write_string_tiny-Wrote {front} {out} at text max_len h s e fits =
      let sent = text-Sent text max_len h in
      record {
        out = _;
        returned = rw (sent.written out (at + 1));
        starts =
            Starts-framed buf at (at + 1) (u8 (length (payload text max_len)) ∷ [])
              (payload text max_len) s e refl (omega (arith, sent.short));
      }

  -- The same, with the size and the bytes written another way.
  pub Wrote-as :
      {front bytes : List ℕ} {n : ℕ} {result : Written} (bytes' : List ℕ) (n' : ℕ)
      → bytes ≡ bytes'
      → n ≡ n'
      → Wrote front bytes n result
      → Wrote front bytes' n' result
  Wrote-as {front} bytes' n' e k w = record {
    out = w.out;
    returned = w.returned ∙ ap (λ n. some (w.out, n)) k;
    starts = rw (← e) w.starts;
  }
