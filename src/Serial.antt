-- ===== src/Serial.antt =====
-- src/main.rs: the serial bridge. What reads and writes of the device answer is an argument; a
-- channel is the list of the chunks that pass through it.
pub mod Incoming
pub mod Stream
pub mod Bridge
use ws_usb_linux.Base.{
  ℕ, ◌+◌, Bool, true, false, Option, none, some, List, [], ◌∷◌, ◌++◌, length, drop, ltb, ◌==◌,
  list_eq, if◌then◌else◌, Bytes,
}
use ws_usb_linux.Crypto.{Crypto}
use ws_usb_linux.Proto.{Identity, Peer, pack_inner, cmd_serial_data}
use ws_usb_linux.Proto.Envelope.{verify_and_decrypt}
use ws_usb_linux.Proto.Frames.{build_peer_frame, frame_header, zero_header}

-- `cmd = inner[2]`, and a body that is not empty.
unfoldable pub serial_body : Bytes → Option Bytes
serial_body (_ ∷ (_ ∷ (cmd ∷ (b ∷ body)))) =
    if cmd == cmd_serial_data then some (b ∷ body) else none
serial_body _ = none

unfoldable opened_body : Option Bytes → Option Bytes
opened_body none = none
opened_body (some inner) = serial_body inner

-- `handle_incoming`: what it sends to the device writer.
unfoldable pub serial_incoming : Crypto → Identity → Peer → Bytes → Bytes → Option Bytes
unfolding opened_body
serial_incoming c me peer k_s2c frame =
    if ltb (length frame) (8 + 24 + 16 + 64)
    then none
    else if list_eq (frame_header c k_s2c frame) zero_header
    then none
    else opened_body (verify_and_decrypt c (drop 8 frame) me.x_priv peer.x_pub peer.ed_pub)

-- The frame of a chunk that was read from the device.
unfoldable pub serial_frame : Crypto → Bytes → Identity → Peer → Bytes → Bytes → Bytes
serial_frame c nonce me peer k_c2s chunk =
    build_peer_frame c nonce me peer.x_pub peer.id k_c2s (pack_inner 0 cmd_serial_data chunk)

-- What `read` answers: bytes, none of them at the end, or one of the errors that the loop tells apart.
pub data ReadResult : Type 0 where
  got : Bytes → ReadResult
  timed_out interrupted eio failed : ReadResult

-- The chunks that `device_read_loop` sends while the bridge takes them.
unfoldable pub device_read_loop : List ReadResult → List Bytes
device_read_loop [] = []
device_read_loop (got [] ∷ rs) = []
device_read_loop (got (b ∷ chunk) ∷ rs) = (b ∷ chunk) ∷ device_read_loop rs
device_read_loop (failed ∷ rs) = []
device_read_loop (_ ∷ rs) = device_read_loop rs

-- `device_write_loop` on the chunks of its channel: the bytes that the device has taken. The flags
-- say whether `write_all` succeeds.
unfoldable pub device_write_loop : List Bytes → List Bool → Bytes
device_write_loop (chunk ∷ rest) (true ∷ oks) = chunk ++ device_write_loop rest oks
device_write_loop _ _ = []

-- The frames that the bridge sends for the chunks, each under its own nonce.
unfoldable pub frames_of : Crypto → Identity → Peer → Bytes → List (Bytes × Bytes) → List Bytes
frames_of c me peer k_c2s [] = []
frames_of c me peer k_c2s ((nonce, chunk) ∷ rest) =
    serial_frame c nonce me peer k_c2s chunk ∷ frames_of c me peer k_c2s rest

unfoldable forward : Option Bytes → List Bytes → List Bytes
forward none rest = rest
forward (some chunk) rest = chunk ∷ rest

-- The chunks that reach the device writer from a sequence of frames.
unfoldable pub chunks_of : Crypto → Identity → Peer → Bytes → List Bytes → List Bytes
unfolding forward
chunks_of c me peer k_s2c [] = []
chunks_of c me peer k_s2c (frame ∷ rest) =
    forward (serial_incoming c me peer k_s2c frame) (chunks_of c me peer k_s2c rest)
