-- ===== src/Demuxer/Delivered.antt =====
-- What the sinks get of what the device streams.
use droidctl.Base.{
  ℕ, zero, suc, ◌+◌, ◌*◌, ◌^◌, ◌≤◌, ◌<◌, ◌≡◌, refl, ap, ◌∙◌, Bool, true, false, none, some, List,
  [], ◌∷◌, ◌++◌, append_assoc, map, concat, length, All, if◌then◌else◌, arith,
}
use droidctl.PacketMerger.{Packet, Merger, merge}
use droidctl.Demuxer.{
  recv_all, recv_header, is_session, parse_session, recv_packet, Session, Item, push_session, push,
  eos, demux_loop,
}
use droidctl.Demuxer.Streamer.{
  Event, session, packet, written, IsEvent, write_session_meta, write_frame_meta, write_packet,
  config_flag,
}
use droidctl.Demuxer.Headers.{
  recv_all-front, header_of, length-header_of, packet_no_session, packet_of, recv_packet-header,
  packet_of-media, session_header, media_flags,
}

-- The events, as the sinks get them. `must_merge` is for the codecs whose config packets go in front.
abbrev pub with_config : Merger → List ℕ → List ℕ
with_config none buffer = buffer
with_config (some config) buffer = config ++ buffer

-- A config packet has no time and no key flag, and waits for the next media packet.
abbrev pub packet_after : Bool → Merger → List ℕ → ℕ → Bool → Bool → Packet
packet_after must_merge merger buffer pts true key_frame = record {
  pts = none;
  key = false;
  bytes = buffer;
}
packet_after must_merge merger buffer pts false key_frame = record {
  pts = some pts;
  key = key_frame;
  bytes = if must_merge then with_config merger buffer else buffer;
}

abbrev pub merger_after : Bool → Merger → List ℕ → Bool → Merger
merger_after must_merge merger buffer true = if must_merge then some buffer else merger
merger_after must_merge merger buffer false = if must_merge then none else merger

abbrev pub delivered : Bool → Merger → List Event → List Item
delivered must_merge merger [] = []
delivered must_merge merger (session width height is_client_resize ∷ events) =
    push_session (record { width = width; height = height; client_resized = is_client_resize })
    ∷ delivered must_merge merger events
delivered must_merge merger (packet buffer pts config key_frame ∷ events) =
    push (packet_after must_merge merger buffer pts config key_frame)
    ∷ delivered must_merge (merger_after must_merge merger buffer config) events

module _ (new_packet : ℕ → Bool) (memory : (n : ℕ) → new_packet n ≡ true) (takes : Item → Bool)
    (taken : (item : Item) → takes item ≡ true) (malloc grow : ℕ → Bool)
    (malloced : (n : ℕ) → malloc n ≡ true) (grown : (n : ℕ) → grow n ≡ true) where
  demux_session :
      (fuel : ℕ) (must_merge : Bool) (merger : Merger) (stream header rest : List ℕ) (s : Session)
      → recv_header stream ≡ some (header, rest)
      → is_session header ≡ true
      → parse_session header ≡ s
      → let more = demux_loop new_packet takes malloc grow fuel must_merge merger rest in
        demux_loop new_packet takes malloc grow (suc fuel) must_merge merger stream
        ≡ (push_session s ∷ more.0, more.1)
  unfolding demux_loop
  demux_session fuel must_merge merger stream header rest s e is parsed =
      rw (demux_loop, e, is, parsed, taken (push_session s)) refl

  demux_packet :
      (fuel : ℕ) (must_merge : Bool) (merger merger' : Merger) (stream header rest rest' : List ℕ)
      (p p' : Packet)
      → recv_header stream ≡ some (header, rest)
      → is_session header ≡ false
      → recv_packet new_packet header rest ≡ some (p, rest')
      → (if must_merge then merge malloc grow merger p else (true, merger, p)) ≡ (true, merger', p')
      → let more = demux_loop new_packet takes malloc grow fuel must_merge merger' rest' in
        demux_loop new_packet takes malloc grow (suc fuel) must_merge merger stream
        ≡ (push p' ∷ more.0, more.1)
  unfolding demux_loop
  demux_packet fuel must_merge merger merger' stream header rest rest' p p' e is read merged =
      rw (demux_loop, e, is, read, merged, taken (push p')) refl

  merged_lem :
      (must_merge : Bool) (merger : Merger) (buffer : List ℕ) (pts : ℕ) (config key_frame : Bool)
      → let read = packet_after false none buffer pts config key_frame in
        (if must_merge then merge malloc grow merger read else (true, merger, read)) ≡ (
          true,
          merger_after must_merge merger buffer config,
          packet_after must_merge merger buffer pts config key_frame,
        )
  unfolding merge
  merged_lem false merger buffer pts true key_frame = refl
  merged_lem false merger buffer pts false key_frame = refl
  merged_lem true merger buffer pts true key_frame = rw (malloced (length buffer)) refl
  merged_lem true none buffer pts false key_frame = refl
  merged_lem true (some config) buffer pts false key_frame = rw (grown (length config)) refl

  -- The flags of a packet, and the packet that they make.
  flags_lem :
      (buffer : List ℕ) (pts : ℕ) (config key_frame : Bool)
      → pts < 2 ^ 61
      → (pts_flags : ℕ) × (pts_flags < 2 ^ 63)
        × (write_frame_meta (length buffer) pts config key_frame
            ≡ header_of pts_flags (length buffer))
        × (packet_of pts_flags buffer ≡ packet_after false none buffer pts config key_frame)
  unfolding write_frame_meta
  flags_lem buffer pts true key_frame h = (config_flag, omega arith, refl, refl)
  flags_lem buffer pts false true h = (
    1 * 2 ^ 61 + pts,
    omega arith,
    ap (λ f. header_of f (length buffer)) (media_flags pts h),
    packet_of-media pts 1 buffer h (omega arith),
  )
  flags_lem buffer pts false false h = (
    0 * 2 ^ 61 + pts,
    omega arith,
    ap (λ f. header_of f (length buffer)) {x = pts} (omega arith),
    packet_of-media pts 0 buffer h (omega arith),
  )

  packet_step :
      (fuel : ℕ) (must_merge : Bool) (merger : Merger) (buffer : List ℕ) (pts : ℕ)
      (config key_frame : Bool) (rest : List ℕ)
      → IsEvent (packet buffer pts config key_frame)
      → let more =
          demux_loop new_packet takes malloc grow fuel must_merge
            (merger_after must_merge merger buffer config)
            rest in
        demux_loop new_packet takes malloc grow
          (suc fuel)
          must_merge
          merger
          (written (packet buffer pts config key_frame) ++ rest)
        ≡ (push (packet_after must_merge merger buffer pts config key_frame) ∷ more.0, more.1)
  unfolding write_packet recv_header
  packet_step fuel must_merge merger buffer pts config key_frame rest valid =
      let (flags, small, header, made) = flags_lem buffer pts config key_frame valid.2 in
      demux_packet fuel must_merge merger (merger_after must_merge merger buffer config) _
        (header_of flags (length buffer)) (buffer ++ rest) rest
        (packet_after false none buffer pts config key_frame)
        (packet_after must_merge merger buffer pts config key_frame)
        (ap recv_header (
            append_assoc (write_frame_meta (length buffer) pts config key_frame) buffer rest
            ∙ ap (λ l. l ++ (buffer ++ rest)) header)
          ∙ recv_all-front (header_of flags (length buffer)) (buffer ++ rest) 12
              (length-header_of flags (length buffer)))
        (packet_no_session flags (length buffer) small)
        (recv_packet-header new_packet memory flags buffer rest (omega arith) valid.0 valid.1
          ∙ ap (λ p. some (p, rest)) made)
        (merged_lem must_merge merger buffer pts config key_frame)

  session_step :
      (fuel : ℕ) (must_merge : Bool) (merger : Merger) (width height : ℕ) (is_client_resize : Bool)
      (rest : List ℕ)
      → IsEvent (session width height is_client_resize)
      → let more = demux_loop new_packet takes malloc grow fuel must_merge merger rest in
        demux_loop new_packet takes malloc grow
          (suc fuel)
          must_merge
          merger
          (written (session width height is_client_resize) ++ rest)
        ≡ (
          push_session
                (record { width = width; height = height; client_resized = is_client_resize })
              ∷ more.0,
          more.1,
        )
  unfolding recv_header
  session_step fuel must_merge merger width height is_client_resize rest valid =
      let (is, parsed, size) = session_header width height is_client_resize valid.0 valid.1 in
      demux_session fuel must_merge merger _ (write_session_meta width height is_client_resize) rest
        _ (recv_all-front (write_session_meta width height is_client_resize) rest 12 size) is parsed

  demux_end :
      (fuel : ℕ) (must_merge : Bool) (merger : Merger)
      → demux_loop new_packet takes malloc grow fuel must_merge merger [] ≡ ([], eos)
  unfolding demux_loop recv_header recv_all
  demux_end zero must_merge merger = refl
  demux_end (suc fuel) must_merge merger = refl

  -- The loop of the demuxer, with memory and with sinks that take everything, on what the device
  -- writes for sessions and packets whose sizes fit their fields: the sinks get each session and
  -- each packet, in order, with its time and flags, and, when config packets must be merged, with the
  -- last config packet that is not yet merged in front; then the stream has ended.
  pub demux_loop-delivered :
      (events : List Event) (fuel : ℕ) (must_merge : Bool) (merger : Merger)
      → All IsEvent events
      → length events ≤ fuel
      → demux_loop new_packet takes malloc grow fuel must_merge merger (concat (map written events))
        ≡ (delivered must_merge merger events, eos)
  demux_loop-delivered [] fuel must_merge merger valid enough = demux_end fuel must_merge merger
  demux_loop-delivered (e ∷ events) zero must_merge merger valid enough = absurd (omega arith)
  demux_loop-delivered (session width height is_client_resize ∷ events) (suc fuel) must_merge merger
        valid enough =
      session_step fuel must_merge merger width height is_client_resize
        (concat (map written events)) valid.0
      ∙ ap
          (λ r. (
            push_session
                  (record { width = width; height = height; client_resized = is_client_resize })
                ∷ r.0,
            r.1,
          ))
          (demux_loop-delivered events fuel must_merge merger valid.1 (omega arith))
  demux_loop-delivered (packet buffer pts config key_frame ∷ events) (suc fuel) must_merge merger
        valid enough =
      packet_step fuel must_merge merger buffer pts config key_frame (concat (map written events))
        valid.0
      ∙ ap (λ r. (push (packet_after must_merge merger buffer pts config key_frame) ∷ r.0, r.1))
          (demux_loop-delivered events fuel must_merge
            (merger_after must_merge merger buffer config) valid.1 (omega arith))
