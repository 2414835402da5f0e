-- ===== src/Demuxer/Streams.antt =====
-- A whole video stream of the device, from the codec to its end.
use droidctl.Base.{
  ℕ, zero, suc, ◌^◌, ◌≤◌, ◌<◌, ◌≡◌, ◌≢◌, refl, ◌∙◌, Bool, true, ◌||◌, Option, none, some, List, [],
  ◌∷◌, ◌++◌, map, concat, length, length-append, All, ◌==◌, eqb_ne, arith,
}
use droidctl.Binary.{write32be, read32be}
use droidctl.Binary.RoundTrip.{read32be-write32be}
use droidctl.Demuxer.{
  Codec, Session, Item, open_sinks, close_sinks, eos, Setup, to_avcodec_id, codec_id_h264,
  codec_id_h265, recv_header, recv_codec_id, run_sinks, run_video, run_codec, run_demuxer,
}
use droidctl.Demuxer.Streamer.{
  Event, session, packet, written, IsEvent, write_session_meta, write_frame_meta, write_packet,
}
use droidctl.Demuxer.Headers.{recv_all-front, session_header}
use droidctl.Demuxer.Delivered.{delivered, demux_loop-delivered}
use mathlib.Core.Option.{none-ne-some}

-- Config packets go in front of the next packet for H.264 and H.265.
abbrev pub merges : ℕ → Bool
merges codec_id = codec_id == codec_id_h264 || codec_id == codec_id_h265

module _ (setup : Setup) (new_packet : ℕ → Bool) (memory : (n : ℕ) → new_packet n ≡ true)
    (takes : Item → Bool) (taken : (item : Item) → takes item ≡ true) (malloc grow : ℕ → Bool)
    (malloced : (n : ℕ) → malloc n ≡ true) (grown : (n : ℕ) → grow n ≡ true)
    (codec_opens : setup.open_codec ≡ true) (packet_there : setup.alloc_packet ≡ true) where
  -- Each event takes a byte or more.
  length-written : (e : Event) → 1 ≤ length (written e)
  unfolding write_session_meta write_packet write_frame_meta write32be droidctl.Binary.write64be
  length-written (session width height is_client_resize) = omega arith
  length-written (packet buffer pts config key_frame) = omega arith

  enough_fuel : (events : List Event) → length events ≤ length (concat (map written events))
  enough_fuel [] = omega arith
  enough_fuel (e ∷ events) = omega (
    arith,
    enough_fuel events,
    length-written e,
    length-append (written e) (concat (map written events)),
  )

  run_sinks-delivered :
      (codec_id : ℕ) (s : Option Session) (events : List Event)
      → All IsEvent events
      → run_sinks setup new_packet takes malloc grow codec_id s (concat (map written events))
        ≡ (open_sinks s ∷ (delivered (merges codec_id) none events ++ (close_sinks ∷ [])), eos)
  unfolding run_sinks
  run_sinks-delivered codec_id s events valid =
      rw
        (
          run_sinks,
          codec_opens,
          taken (open_sinks s),
          packet_there,
          demux_loop-delivered new_packet memory takes taken malloc grow malloced grown events
              (suc (length (concat (map written events)))) (merges codec_id) none valid
              (omega (arith, enough_fuel events)),
        )
        refl

  run_video-delivered :
      (codec_id width height : ℕ) (is_client_resize : Bool) (events : List Event)
      → IsEvent (session width height is_client_resize)
      → width ≢ 0
      → height ≢ 0
      → All IsEvent events
      → run_video setup new_packet takes malloc grow codec_id
          (concat (map written (session width height is_client_resize ∷ events)))
        ≡ (
          open_sinks
                (some record { width = width; height = height; client_resized = is_client_resize })
              ∷ (delivered (merges codec_id) none events ++ (close_sinks ∷ [])),
          eos,
        )
  unfolding run_video recv_header
  run_video-delivered codec_id width height is_client_resize events valid w h rest =
      let (is, parsed, size) = session_header width height is_client_resize valid.0 valid.1 in
      rw
        (
          run_video,
          recv_all-front (write_session_meta width height is_client_resize)
              (concat (map written events)) 12 size,
          is,
          parsed,
          eqb_ne width 0 w,
          eqb_ne height 0 h,
          run_sinks-delivered codec_id
              (some record { width = width; height = height; client_resized = is_client_resize })
              events rest,
        )
        refl

  no_codec :
      (has_av1 : Bool) (id : ℕ) {codec : Codec} → id < 2 → to_avcodec_id has_av1 id ≢ some codec
  unfolding to_avcodec_id
  no_codec has_av1 zero h e = none-ne-some _ e
  no_codec has_av1 (suc zero) h e = none-ne-some _ e
  no_codec has_av1 (suc (suc id)) h e = absurd (omega arith)

  recv_codec_id-front :
      (codec_id : ℕ) (stream : List ℕ)
      → codec_id < 2 ^ 32
      → recv_codec_id (write32be codec_id ++ stream) ≡ some (codec_id, stream)
  unfolding recv_codec_id
  recv_codec_id-front codec_id stream small =
      rw
        (
          recv_codec_id,
          recv_all-front (write32be codec_id) stream 4 (four codec_id),
          id_lem codec_id small,
        )
        refl
    where
      four : (n : ℕ) → 4 ≡ length (write32be n)
      four n = unfold write32be in refl

      id_lem : (n : ℕ) → n < 2 ^ 32 → read32be (write32be n) ≡ n
      id_lem n h = unfold write32be in read32be-write32be n [] h

  run_codec-video :
      (codec_id : ℕ) (codec : Codec) (stream : List ℕ)
      → to_avcodec_id setup.has_av1 codec_id ≡ some codec
      → setup.find_decoder codec ≡ some true
      → setup.alloc_context ≡ true
      → run_codec setup new_packet takes malloc grow codec_id stream
        ≡ run_video setup new_packet takes malloc grow codec_id stream
  unfolding run_codec
  run_codec-video codec_id codec stream known found context =
      rw (run_codec, known, found, context) refl

  -- When the decoder of the codec is there and opens, there is memory, and the sinks take everything,
  -- the demuxer, on the codec, the first session and the further events that the device writes, opens
  -- the sinks with that session, whose size is not empty, gives them each of the events, in order, and
  -- with config packets in front of the next media packet for H.264 and H.265,
  -- and, at the end of the stream, closes them.
  pub run_demuxer-delivered :
      (codec_id : ℕ) (codec : Codec) (width height : ℕ) (is_client_resize : Bool)
      (events : List Event)
      → codec_id < 2 ^ 32
      → to_avcodec_id setup.has_av1 codec_id ≡ some codec
      → setup.find_decoder codec ≡ some true
      → setup.alloc_context ≡ true
      → width ≢ 0
      → height ≢ 0
      → All IsEvent (session width height is_client_resize ∷ events)
      → run_demuxer setup new_packet takes malloc grow (
          write32be codec_id
          ++ concat (map written (session width height is_client_resize ∷ events)))
        ≡ (
          open_sinks
                (some record { width = width; height = height; client_resized = is_client_resize })
              ∷ (delivered (merges codec_id) none events ++ (close_sinks ∷ [])),
          eos,
        )
  unfolding run_demuxer
  run_demuxer-delivered codec_id codec width height is_client_resize events small known found
        context w h valid =
      rw
        (
          run_demuxer,
          received,
          eqb_ne codec_id 0 (λ e. no_codec setup.has_av1 codec_id (omega (arith, e)) known),
          eqb_ne codec_id 1 (λ e. no_codec setup.has_av1 codec_id (omega (arith, e)) known),
        )
        (codec_run
          ∙ run_video-delivered codec_id width height is_client_resize events valid.0 w h valid.1)
    where
      stream : List ℕ
      stream = concat (map written (session width height is_client_resize ∷ events))

      received : recv_codec_id (write32be codec_id ++ stream) ≡ some (codec_id, stream)
      received = recv_codec_id-front codec_id stream small

      codec_run :
          run_codec setup new_packet takes malloc grow codec_id stream
          ≡ run_video setup new_packet takes malloc grow codec_id stream
      codec_run = run_codec-video codec_id codec stream known found context
