-- ===== src/PacketMerger.antt =====
-- app/src/packet_merger.{h,c}: config packets, which go in front of the next media packet.
use droidctl.Base.{ℕ, Bool, true, false, Option, none, some, List, ◌++◌, length, if◌then◌else◌}

-- `AVPacket`, as far as the client uses it: `none` is `AV_NOPTS_VALUE`, and the key flag.
pub record Packet : Type 0 where
  pub pts : Option ℕ
  pub key : Bool
  pub bytes : List ℕ

-- `struct sc_packet_merger`
abbrev pub Merger : Type 0
Merger = Option (List ℕ)

abbrev pub init : Merger
init = none

-- `sc_packet_merger_merge`: the result, the merger and the packet after it. `malloc` and `grow`
-- tell whether there is memory for so many bytes.
unfoldable pub merge : (ℕ → Bool) → (ℕ → Bool) → Merger → Packet → Bool × Merger × Packet
merge malloc grow merger packet = elim packet.pts [
  | none ↦
      if malloc (length packet.bytes)
      then (true, some packet.bytes, packet)
      else (false, none, packet)
  | some pts ↦ elim merger [
    | none ↦ (true, none, packet)
    | some config ↦
        if grow (length config)
        then (true, none, record packet { bytes = config ++ packet.bytes })
        else (false, some config, packet)
  ]
]
