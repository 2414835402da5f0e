-- ===== src/Lib.antt =====
-- droidctl, a client that mirrors and controls an Android device: its control
-- channel, its streams, its input devices and its audio buffer.
--
-- The client queues control messages in a growable ring (app/src/controller.c with
-- app/src/util/vecdeque.h); a thread takes them, serializes each into one static buffer
-- (app/src/control_msg.c) and sends it to the device, whose reader is
-- server/src/main/java/com/genymobile/scrcpy/control/ControlMessageReader.java. The device answers
-- with device messages (DeviceMessageWriter.java), which the client's receiver thread
-- (app/src/receiver.c) finds in the stream of bytes and deserializes (app/src/device_msg.c).
--
-- A keyboard of the client injects keys and texts by control messages (app/src/keyboard_sdk.c).
-- Otherwise keyboard, mouse and gamepads of the client are HID devices of the phone (app/src/hid): a gamepad has a slot,
-- whose index gives the id of its HID device, from its connection to its removal.
--
-- Audio samples go from the decoder to the player through a ring (app/src/util/audiobuf.c).
--
-- A video or audio stream comes from the device (Streamer.java) as headers and packets; a thread of
-- the client (app/src/demuxer.c) reads them, puts config packets in front of media packets
-- (app/src/packet_merger.c) and gives them to its sinks. The devices themselves are found in the
-- output of adb (app/src/adb/adb_parser.c).
--
-- Base            shared helpers: tests, lists, indices, bits, integers, buffers
-- Floats          the operations on `float`, a parameter
-- Binary          app/src/util/binary.h: `write32be` is `sc_write32be`, and so on
-- Str             app/src/util/str.c: `sc_str_utf8_truncation_index`; Str/Join `sc_strncpy` and
--                 `sc_str_join`, Str/Tokens lists, columns and ends of lines
-- VecDeque        app/src/util/vecdeque.h: `sc_vecdeque_*`; the array is a list of optional items
-- ControlMsg      app/src/control_msg.{h,c}; ControlMsg/Encoding is the wire format as a list of
--                 bytes, ControlMsg/Reader the reader of the server
-- DeviceMsg       app/src/device_msg.{h,c}; DeviceMsg/Writer the writer of the server
-- Receiver        app/src/receiver.c: `process_msg`, `process_msgs`, `run_receiver`
-- Controller      app/src/controller.{h,c}; Controller/Threads has its threads as steps
-- AckSync         app/src/util/acksync.c: `sc_acksync_*`; a wait takes the wake-ups to come,
--                 each with the calls of other threads before the mutex is taken again; AckSync/Calls is
--                 what these leave
-- AudioBuf        app/src/util/audiobuf.{h,c}: `sc_audiobuf_*`; the array is a list of samples
-- Gamepad         app/src/hid/hid_gamepad.{h,c}: `sc_hid_gamepad_*`; the slots are a list
-- PacketMerger    app/src/packet_merger.{h,c}: `sc_packet_merger_*`
-- Demuxer         app/src/demuxer.c: `sc_demuxer_*` and `run_demuxer`; Demuxer/Streamer is what the
--                 device writes (server/src/main/java/com/genymobile/scrcpy/device/Streamer.java)
-- AdbParser       app/src/adb/adb_parser.c: `sc_adb_parse_*`
-- Cli             app/src/cli.c: Cli/Shortcuts the modifiers of shortcuts, Cli/Colors colors,
--                 Cli/Bindings the buttons of the mouse
-- Hid             app/src/hid/hid_event.h
-- Keyboard        app/src/hid/hid_keyboard.{h,c}: `sc_hid_keyboard_*`; the keys are a list of Booleans
-- Keycodes        the tables of app/src/keyboard_sdk.c
-- KeyboardSdk     app/src/keyboard_sdk.{h,c}: the keys and texts that become control messages
-- Mouse           app/src/hid/hid_mouse.{h,c}: `sc_hid_mouse_*`
-- Orientation     app/src/options.{h,c}: `sc_orientation_*`
-- Screen          app/src/screen.c: the sizes and coordinates; Screen/Points puts the frame on the
--                 window, Screen/Sizes says which window sizes fit
-- Examples        the theorems on concrete inputs
--
-- A buffer is the list of its bytes, and a write replaces bytes at an index. Integers are natural
-- numbers with the wrap-around of their C type written out, and signed ones have their own type. A
-- read out of bounds, or of a slot that was never written, is the result `none`. The allocator, the
-- socket, the `float` of C and the decoding of UTF-8 by Java are parameters, or outcomes that the
-- caller chooses. A section that mutexes protect is one step; the steps of the threads come in any
-- order. The loop over the bytes received runs on as much fuel as there are bytes, and each message
-- takes a byte at least. The loop of the demuxer runs on the bytes of the stream, where each round
-- reads a header; the loops over a text run on its length, and each round goes past a character at
-- least. The loop that cuts a text recurses on the index.
--
-- Not modelled: the memory orders of the atomic cursors of the audio buffer, logging, the freeing of
-- memory, the creation and joining of threads, the tasks that run on the main thread, the scaling of
-- points by the rectangle of the content, and the parts of the program that are mostly calls of SDL,
-- FFmpeg, libusb and the operating system. A `net_send_all` that fails may have sent a part of the
-- message, which reaches the socket in the model too; the single calls of `net_send` are not
-- modelled. An assertion is a hypothesis of the theorem, or the result `none` where it fails, or is
-- left out, as the comment on the definition says.
pub mod AckSync
pub mod AdbParser
pub mod AudioBuf
pub mod Base
pub mod Binary
pub mod Cli
pub mod ControlMsg
pub mod Controller
pub mod Demuxer
pub mod DeviceMsg
pub mod Examples
pub mod Floats
pub mod Gamepad
pub mod Hid
pub mod Keyboard
pub mod KeyboardSdk
pub mod Keycodes
pub mod Mouse
pub mod Orientation
pub mod PacketMerger
pub mod Receiver
pub mod Screen
pub mod Str
pub mod VecDeque
