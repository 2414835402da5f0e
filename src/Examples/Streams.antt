-- ===== src/Examples/Streams.antt =====
-- A video stream.
use droidctl.Base.{◌≡◌, refl, arith, true, false, some, none, List, [], ◌∷◌, ◌++◌, map, concat}
use droidctl.Binary.{write32be}
use droidctl.Demuxer.{
  Setup, open_sinks, close_sinks, push_session, push, eos, run_demuxer, codec_id_h264, h264,
}
use droidctl.Demuxer.Streamer.{Event, session, packet, written}
use droidctl.Demuxer.Delivered.{delivered}
use droidctl.Demuxer.Streams.{merges, run_demuxer-delivered}

abbrev setup : Setup
setup = record {
  has_av1 = false;
  find_decoder = λ codec. some true;
  alloc_context = true;
  open_codec = true;
  alloc_packet = true;
}

-- A config packet, a key frame, a rotation and a frame.
abbrev events : List Event
events =
    packet (1 ∷ 2 ∷ []) 0 true false
    ∷ packet (3 ∷ []) 1000 false true
    ∷ session 600 800 true
    ∷ packet (4 ∷ 5 ∷ []) 2000 false false
    ∷ []

run_demuxer-delivered_example :
    run_demuxer setup
      (λ n. true)
      (λ item. true)
      (λ n. true)
      (λ n. true)
      (write32be codec_id_h264 ++ concat (map written (session 800 600 false ∷ events)))
    ≡ (
      open_sinks (some record { width = 800; height = 600; client_resized = false })
          ∷ (delivered (merges codec_id_h264) none events ++ (close_sinks ∷ [])),
      eos,
    )
unfolding droidctl.Demuxer.to_avcodec_id
run_demuxer-delivered_example =
    run_demuxer-delivered setup (λ n. true) (λ n. refl) (λ item. true) (λ item. refl) (λ n. true)
      (λ n. true) (λ n. refl) (λ n. refl) refl refl codec_id_h264 h264 800 600 false events
      (omega arith) refl refl refl (omega arith) (omega arith)
      (
        (omega arith, omega arith),
        (
          (omega arith, omega arith, omega arith),
          (
            (omega arith, omega arith, omega arith),
            ((omega arith, omega arith), ((omega arith, omega arith, omega arith), tt)),
          ),
        ),
      )

merged : delivered (merges codec_id_h264) none events ≡ (
    push (record { pts = none; key = false; bytes = 1 ∷ 2 ∷ [] })
    ∷ push (record { pts = some 1000; key = true; bytes = 1 ∷ 2 ∷ 3 ∷ [] })
    ∷ push_session (record { width = 600; height = 800; client_resized = true })
    ∷ push (record { pts = some 2000; key = false; bytes = 4 ∷ 5 ∷ [] })
    ∷ [])
merged = refl
