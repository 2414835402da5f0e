-- ===== src/Demuxer/Headers.antt =====
-- The headers that the device writes, and what the demuxer reads in them.
use droidctl.Base.{
  ℕ, ◌+◌, ◌*◌, ◌/◌, ◌%◌, ◌^◌, ◌<◌, ◌≡◌, refl, ap, ap₂, ◌∙◌, Bool, true, false, not, none, some,
  List, [], ◌++◌, length, length-append, drop, take-append_left, drop-append_left, ltb, ◌==◌,
  ==_iff, eqb_ne, if◌then◌else◌, bit_and, bit_or, arith,
}
use droidctl.Base.Bits.{bit_and_flag, bit_and_mask, bit_or_swap, bit_or_disjoint}
use droidctl.Binary.{u8, u32, write32be, write64be, read32be, read64be}
use droidctl.Binary.RoundTrip.{read32be-write32be, read64be-write64be}
use droidctl.PacketMerger.{Packet}
use droidctl.Demuxer.{
  packet_flag_config, packet_flag_key_frame, packet_pts_mask, recv_all, is_session, parse_session,
  recv_packet,
}
use droidctl.Demuxer.Streamer.{write_session_meta, key_frame_flag}

pub recv_all-front :
    (xs rest : List ℕ) (n : ℕ) → n ≡ length xs → recv_all n (xs ++ rest) ≡ some (xs, rest)
unfolding recv_all
recv_all-front xs rest n e =
    rw (enough)
      (ap₂ (λ a b. some (a, b)) (take-append_left xs rest n e) (drop-append_left xs rest n e))
  where
    enough : ltb (length (xs ++ rest)) n ≡ false
    enough = ground (arith, e, length-append xs rest)

-- The header of a packet.
abbrev pub header_of : ℕ → ℕ → List ℕ
header_of pts_flags len = write64be pts_flags ++ write32be len

pub length-header_of : (pts_flags len : ℕ) → 12 ≡ length (header_of pts_flags len)
unfolding write64be write32be
length-header_of pts_flags len = refl

pub packet_no_session :
    (pts_flags len : ℕ) → pts_flags < 2 ^ 63 → is_session (header_of pts_flags len) ≡ false
unfolding is_session write64be write32be
packet_no_session pts_flags len h =
    ap not ((==_iff _ 0).1 (no_top_bit (u8 (u32 (pts_flags / 2 ^ 32) / 2 ^ 24)) (omega arith)))
  where
    no_top_bit : (b : ℕ) → b < 2 ^ 7 → bit_and b 0x80 ≡ 0
    no_top_bit b small =
        ap (λ x. bit_and x 0x80) {x = b} {y = 0 * 2 ^ 7 + b} (omega arith)
        ∙ bit_and_flag 7 0 b small

-- What a packet is, by its flags.
abbrev pub packet_of : ℕ → List ℕ → Packet
packet_of pts_flags buffer = record {
  pts =
      if not (bit_and pts_flags packet_flag_config == 0)
      then none
      else some (bit_and pts_flags packet_pts_mask);
  key = not (bit_and pts_flags packet_flag_key_frame == 0);
  bytes = buffer;
}

module _ (new_packet : ℕ → Bool) (memory : (n : ℕ) → new_packet n ≡ true) where
  recv_packet-fields :
      (header : List ℕ) (pts_flags : ℕ) (buffer rest : List ℕ)
      → read64be header ≡ pts_flags
      → read32be (drop 8 header) ≡ length buffer
      → 0 < length buffer
      → recv_packet new_packet header (buffer ++ rest) ≡ some (packet_of pts_flags buffer, rest)
  unfolding recv_packet
  recv_packet-fields header pts_flags buffer rest e f some_bytes =
      rw
        (
          recv_packet,
          f,
          nonempty,
          memory (length buffer),
          recv_all-front buffer rest (length buffer) refl,
          e,
        )
        refl
    where
      nonempty : (length buffer == 0) ≡ false
      nonempty = eqb_ne (length buffer) 0 (λ e. absurd (omega (arith, e)))

  len_lem : (pts_flags n : ℕ) → n < 2 ^ 32 → read32be (drop 8 (header_of pts_flags n)) ≡ n
  unfolding write64be write32be
  len_lem pts_flags n h = read32be-write32be n [] h

  pub recv_packet-header :
      (pts_flags : ℕ) (buffer rest : List ℕ)
      → pts_flags < 2 ^ 64
      → 0 < length buffer
      → length buffer < 2 ^ 32
      → recv_packet new_packet (header_of pts_flags (length buffer)) (buffer ++ rest)
        ≡ some (packet_of pts_flags buffer, rest)
  recv_packet-header pts_flags buffer rest h some_bytes small =
      recv_packet-fields (header_of pts_flags (length buffer)) pts_flags buffer rest
        (read64be-write64be pts_flags (write32be (length buffer)) h)
        (len_lem pts_flags (length buffer) small) some_bytes

-- The flags of a media packet: the time, with bit 61 for a key frame.
pub packet_of-media :
    (pts : ℕ) (key : ℕ) (buffer : List ℕ)
    → pts < 2 ^ 61
    → key < 2
    → packet_of (key * 2 ^ 61 + pts) buffer
      ≡ record { pts = some pts; key = not (key == 0); bytes = buffer }
packet_of-media pts key buffer h k =
    ap₂ (λ a b. record { pts = a; key = b; bytes = buffer }) times keys
  where
    times :
        (if not (bit_and (key * 2 ^ 61 + pts) packet_flag_config == 0)
          then none
          else some (bit_and (key * 2 ^ 61 + pts) packet_pts_mask))
        ≡ some pts
    times =
        rw
          ((==_iff (bit_and (key * 2 ^ 61 + pts) packet_flag_config) 0).1 (
            ap (λ x. bit_and x packet_flag_config) {y = 0 * 2 ^ 62 + (key * 2 ^ 61 + pts)}
              (omega arith)
            ∙ bit_and_flag 62 0 (key * 2 ^ 61 + pts) (omega arith)))
          (ap some (bit_and_mask 61 key pts h))

    small_key : (key % 2 * 2 ^ 61 == 0) ≡ (key == 0)
    small_key = ground arith

    keys : not (bit_and (key * 2 ^ 61 + pts) packet_flag_key_frame == 0) ≡ not (key == 0)
    keys = ap not (ap (λ x. x == 0) (bit_and_flag 61 key pts h) ∙ small_key)

pub session_header :
    (width height : ℕ) (is_client_resize : Bool)
    → width < 2 ^ 32
    → height < 2 ^ 32
    → (is_session (write_session_meta width height is_client_resize) ≡ true)
      × (parse_session (write_session_meta width height is_client_resize)
          ≡ record { width = width; height = height; client_resized = is_client_resize })
      × (12 ≡ length (write_session_meta width height is_client_resize))
unfolding write_session_meta is_session parse_session write32be
session_header width height true w h = (
  refl,
  ap₂ (λ a b. record { width = a; height = b; client_resized = true })
      (read32be-write32be width (write32be height) w) (read32be-write32be height [] h),
  refl,
)
session_header width height false w h = (
  refl,
  ap₂ (λ a b. record { width = a; height = b; client_resized = false })
      (read32be-write32be width (write32be height) w) (read32be-write32be height [] h),
  refl,
)

-- The flags as the device puts them together.
pub media_flags : (pts : ℕ) → pts < 2 ^ 61 → bit_or pts key_frame_flag ≡ 1 * 2 ^ 61 + pts
media_flags pts h =
    bit_or_swap 62 pts key_frame_flag (omega arith) (omega arith) ∙ bit_or_disjoint 61 1 pts h
