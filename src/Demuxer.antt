-- ===== src/Demuxer.antt =====
-- app/src/demuxer.c: the packets in the stream of a video or audio socket.
pub mod Streamer
pub mod Headers
pub mod Delivered
pub mod Streams
use droidctl.Base.{
  ℕ, zero, suc, ◌+◌, ◌-◌, ◌*◌, ◌^◌, Bool, true, false, not, ◌&&◌, ◌||◌, Option, none, some, List,
  [], ◌∷◌, ◌++◌, length, take, drop, ltb, leb, ◌==◌, if◌then◌else◌, bit_and,
}
use droidctl.Binary.{byte, read32be, read64be}
use droidctl.PacketMerger.{Packet, Merger, init, merge}

abbrev pub packet_header_size : ℕ
packet_header_size = 12

abbrev pub packet_flag_config : ℕ
packet_flag_config = 1 * 2 ^ 62

abbrev pub packet_flag_key_frame : ℕ
packet_flag_key_frame = 1 * 2 ^ 61

abbrev pub packet_pts_mask : ℕ
packet_pts_mask = packet_flag_key_frame - 1

-- `enum AVCodecID`, as far as it is used.
pub data Codec : Type 0 where
  h264 hevc av1 vp8 vp9 opus aac flac pcm_s16le : Codec

abbrev pub codec_id_h264 : ℕ
codec_id_h264 = 0x68323634

abbrev pub codec_id_h265 : ℕ
codec_id_h265 = 0x68323635

-- `none` is `AV_CODEC_ID_NONE`. `has_av1` tells whether FFmpeg knows AV1.
unfoldable pub to_avcodec_id : Bool → ℕ → Option Codec
to_avcodec_id has_av1 codec_id =
    if codec_id == codec_id_h264
    then some h264
    else if codec_id == codec_id_h265
    then some hevc
    else if codec_id == 0x00617631
    then (if has_av1 then some av1 else none)
    else if codec_id == 0x00767038
    then some vp8
    else if codec_id == 0x00767039
    then some vp9
    else if codec_id == 0x6f707573
    then some opus
    else if codec_id == 0x00616163
    then some aac
    else if codec_id == 0x666c6163
    then some flac
    else if codec_id == 0x00726177
    then some pcm_s16le
    else none

-- `struct sc_stream_session`
pub record Session : Type 0 where
  pub width : ℕ
  pub height : ℕ
  pub client_resized : Bool

-- `net_recv_all`, on the bytes that the socket still gives: those asked for and the rest, or `none`
-- when the stream ends before.
unfoldable pub recv_all : ℕ → List ℕ → Option (List ℕ × List ℕ)
recv_all len stream =
    if ltb (length stream) len then none else some (take len stream, drop len stream)

unfoldable pub recv_codec_id : List ℕ → Option (ℕ × List ℕ)
recv_codec_id stream = elim (recv_all 4 stream) [
  | none ↦ none
  | some (bytes, rest) ↦ some (read32be bytes, rest)
]

unfoldable pub recv_header : List ℕ → Option (List ℕ × List ℕ)
recv_header stream = recv_all packet_header_size stream

unfoldable pub is_session : List ℕ → Bool
is_session header = not (bit_and (byte header 0) 0x80 == 0)

unfoldable pub parse_session : List ℕ → Session
parse_session header = record {
  width = read32be (drop 4 header);
  height = read32be (drop 8 header);
  client_resized = not (bit_and (byte header 3) 1 == 0);
}

-- What is done with the sinks.
pub data Item : Type 0 where
  disable : Item
  open_sinks : Option Session → Item
  push_session : Session → Item
  push : Packet → Item
  close_sinks : Item

-- `enum sc_demuxer_status`
pub data Status : Type 0 where
  eos disabled error : Status

module _ (new_packet : ℕ → Bool) where
  unfoldable pub recv_packet : List ℕ → List ℕ → Option (Packet × List ℕ)
  recv_packet header stream =
      let pts_flags = read64be header in
      let len = read32be (drop 8 header) in
      if len == 0 then none else if not (new_packet len) then none else elim (recv_all len stream) [
        | none ↦ none
        | some (bytes, rest) ↦ some (
          record {
            pts =
                if not (bit_and pts_flags packet_flag_config == 0)
                then none
                else some (bit_and pts_flags packet_pts_mask);
            key = not (bit_and pts_flags packet_flag_key_frame == 0);
            bytes = bytes;
          },
          rest,
        )
      ]

  -- Whether the sinks take an item, and the memory of the merger.
  module _ (takes : Item → Bool) (malloc grow : ℕ → Bool) where
    -- The loop of `run_demuxer`: what is given to the sinks, in order, and the status. Each round
    -- reads a header, so the bytes are fuel enough.
    unfoldable pub demux_loop : ℕ → Bool → Merger → List ℕ → List Item × Status
    demux_loop zero must_merge merger stream = ([], eos)
    demux_loop (suc fuel) must_merge merger stream = elim (recv_header stream) [
      | none ↦ ([], eos)
      | some (header, rest) ↦
          let session = push_session (parse_session header) in
          let more = demux_loop fuel must_merge merger rest in
          let on_session : List Item × Status =
            if takes session then (session ∷ more.0, more.1) else (session ∷ [], error) in
          let on_packet : List Item × Status = elim (recv_packet header rest) [
            | none ↦ ([], error)
            | some (packet, rest) ↦
                let merged : Bool × Merger × Packet =
                  if must_merge then merge malloc grow merger packet else (true, merger, packet) in
                let (ok, merger', packet') = merged in
                let more = demux_loop fuel must_merge merger' rest in
                if not ok
                then ([], error)
                else if takes (push packet')
                then (push packet' ∷ more.0, more.1)
                else (push packet' ∷ [], error)
          ] in
          if is_session header then on_session else on_packet
    ]

-- What FFmpeg and the sinks answer before the loop.
pub record Setup : Type 0 where
  pub has_av1 : Bool
  -- The decoder, and whether it is for video.
  pub find_decoder : Codec → Option Bool
  pub alloc_context : Bool
  pub open_codec : Bool
  pub alloc_packet : Bool

module _ (setup : Setup) (new_packet : ℕ → Bool) (takes : Item → Bool)
    (malloc grow : ℕ → Bool) where
  -- From `avcodec_open2` on.
  unfoldable pub run_sinks : ℕ → Option Session → List ℕ → List Item × Status
  run_sinks raw_codec_id session stream =
      let must_merge = raw_codec_id == codec_id_h264 || raw_codec_id == codec_id_h265 in
      let result =
        demux_loop new_packet takes malloc grow (suc (length stream)) must_merge init stream in
      if not setup.open_codec
      then ([], error)
      else if not (takes (open_sinks session))
      then (open_sinks session ∷ [], error)
      else if not setup.alloc_packet
      then (open_sinks session ∷ close_sinks ∷ [], error)
      else (open_sinks session ∷ (result.0 ++ (close_sinks ∷ [])), result.1)

  -- The session header that a video stream starts with.
  unfoldable pub run_video : ℕ → List ℕ → List Item × Status
  run_video raw_codec_id stream = elim (recv_header stream) [
    | none ↦ ([], error)
    | some (header, rest) ↦
        let session = parse_session header in
        let result = run_sinks raw_codec_id (some session) rest in
        if not (is_session header)
        then ([], error)
        else if session.width == 0 || session.height == 0
        then ([], error)
        else result
  ]

  unfoldable pub run_codec : ℕ → List ℕ → List Item × Status
  run_codec raw_codec_id stream = elim (to_avcodec_id setup.has_av1 raw_codec_id) [
    | none ↦ (disable ∷ [], error)
    | some codec ↦ elim (setup.find_decoder codec) [
      | none ↦ (disable ∷ [], error)
      | some video ↦
          if not setup.alloc_context
          then ([], error)
          else if video
          then run_video raw_codec_id stream
          else run_sinks raw_codec_id none stream
    ]
  ]

  -- `run_demuxer`: what is done with the sinks, in order, and the status given to `on_ended`.
  unfoldable pub run_demuxer : List ℕ → List Item × Status
  run_demuxer stream = elim (recv_codec_id stream) [
    | none ↦ ([], error)
    | some (raw_codec_id, rest) ↦
        if raw_codec_id == 0
        then (disable ∷ [], disabled)
        else if raw_codec_id == 1
        then ([], error)
        else run_codec raw_codec_id rest
  ]
