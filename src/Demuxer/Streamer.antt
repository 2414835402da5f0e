-- ===== src/Demuxer/Streamer.antt =====
-- server/src/main/java/com/genymobile/scrcpy/device/Streamer.java: what the device writes.
use droidctl.Base.{ℕ, ◌*◌, ◌^◌, ◌<◌, Bool, List, ◌++◌, length, if◌then◌else◌, bit_or}
use droidctl.Binary.{write32be, write64be}

-- `PACKET_FLAG_SESSION >> 32`, `PACKET_FLAG_CONFIG` and `PACKET_FLAG_KEY_FRAME`
abbrev pub session_flag : ℕ
session_flag = 1 * 2 ^ 31

abbrev pub config_flag : ℕ
config_flag = 1 * 2 ^ 62

abbrev pub key_frame_flag : ℕ
key_frame_flag = 1 * 2 ^ 61

unfoldable pub write_session_meta : ℕ → ℕ → Bool → List ℕ
write_session_meta width height is_client_resize =
    let flags = if is_client_resize then bit_or session_flag 1 else session_flag in
    write32be flags ++ (write32be width ++ write32be height)

unfoldable pub write_frame_meta : ℕ → ℕ → Bool → Bool → List ℕ
write_frame_meta packet_size pts config key_frame =
    let media = if key_frame then bit_or pts key_frame_flag else pts in
    write64be (if config then config_flag else media) ++ write32be packet_size

-- `writePacket`, of a config packet that is fixed already, with the meta data that the client asks for.
unfoldable pub write_packet : List ℕ → ℕ → Bool → Bool → List ℕ
write_packet buffer pts config key_frame =
    write_frame_meta (length buffer) pts config key_frame ++ buffer

-- What the device streams.
pub data Event : Type 0 where
  session : (width height : ℕ) → (is_client_resize : Bool) → Event
  packet : (buffer : List ℕ) → (pts : ℕ) → (config key_frame : Bool) → Event

abbrev pub written : Event → List ℕ
written (session width height is_client_resize) = write_session_meta width height is_client_resize
written (packet buffer pts config key_frame) = write_packet buffer pts config key_frame

-- Sizes that fit their fields, a packet that is not empty, and 61 bits of time.
abbrev pub IsEvent : Event → Type 0
IsEvent (session width height is_client_resize) = (width < 2 ^ 32) × (height < 2 ^ 32)
IsEvent (packet buffer pts config key_frame) =
    (0 < length buffer) × (length buffer < 2 ^ 32) × (pts < 2 ^ 61)
