-- ===== src/Serial/Bridge.antt =====
-- src/main.rs: `bridge` with its two threads and two bounded channels, as steps from one wait to the
-- next. What the device and the relay answer are events. A run ends when the loop is over: that its
-- two channels are closed then, as the process ends, is left out.
pub mod Sessions
pub mod Flow
pub mod Sends
pub mod Runs
use ws_usb_linux.Base.{
  ℕ, ◌+◌, ◌%◌, Bool, true, false, Option, none, some, List, [], ◌∷◌, ◌++◌, length, ltb,
  if◌then◌else◌, Bytes,
}
use ws_usb_linux.Crypto.{Crypto}
use ws_usb_linux.Proto.{Identity, Peer}
use ws_usb_linux.Serial.{
  serial_frame, serial_incoming, ReadResult, got, timed_out, interrupted, eio, failed,
}
use ws_usb_linux.Tcp.Sessions.{Phase, connecting, unavailable, live, leaving, over}

abbrev pub channel_size : ℕ
channel_size = 256

-- `device_read_loop`: at `read`, at `blocking_send` of a chunk, or past its end, where its sender is
-- dropped.
pub data ReadThread : Type 0 where
  at_read : ReadThread
  holding : Bytes → ReadThread
  stopped : ReadThread

-- `device_write_loop`: at `blocking_recv`, at `write_all` of a chunk, or past its end, where its
-- receiver is dropped.
pub data WriteThread : Type 0 where
  at_recv : WriteThread
  putting : Bytes → WriteThread
  gone : WriteThread

-- What the loop builds and opens frames with.
pub record Side : Type 0 where
  pub me : Identity
  pub peer : Peer
  pub k_c2s : Bytes
  pub k_s2c : Bytes

-- `links` has, for each websocket that the loop has had, the newest first, the frames of chunks that
-- it has taken; `delivery` is the chunk at whose `net_tx.send` the loop stands, if it does.
-- `device_in` records what the device has given, `device_out` the chunks that were written to it in
-- full, and `received` the binary messages that came; no step reads these three.
pub record Bridge : Type 0 where
  pub reader : ReadThread
  pub dev_queue : List Bytes
  pub net_queue : List Bytes
  pub writer : WriteThread
  pub phase : Phase
  pub seq : ℕ
  pub links : List (List Bytes)
  pub delivery : Option Bytes
  pub device_in : Bytes
  pub device_out : Bytes
  pub received : List Bytes

abbrev pub idle : Bridge
idle = record {
  reader = at_read;
  dev_queue = [];
  net_queue = [];
  writer = at_recv;
  phase = connecting;
  seq = 1;
  links = [];
  delivery = none;
  device_in = [];
  device_out = [];
  received = [];
}

pub data BridgeEvent : Type 0 where
  -- the read thread, at `read` and at its send
  device_read : ReadResult → BridgeEvent
  device_sent : BridgeEvent
  -- the write thread, at `recv` and at `write_all`
  device_take : BridgeEvent
  device_wrote : Bool → BridgeEvent
  -- the loop: a handshake, the end of a wait, a binary message, the send of what `handle_incoming`
  -- makes of it, a chunk with the nonce of its frame and whether the websocket takes the frame, the
  -- loss of the connection, the interrupt
  handshake : Bool → BridgeEvent
  backed_off : BridgeEvent
  message : Bytes → BridgeEvent
  delivered : BridgeEvent
  send_chunk : Bytes → Bool → BridgeEvent
  lost ctrl_c : BridgeEvent

unfoldable pub read_result : ReadResult → Bridge → Bridge
read_result (got []) s = record s { reader = stopped }
read_result (got (b ∷ chunk)) s = record s {
  reader = holding (b ∷ chunk);
  device_in = s.device_in ++ (b ∷ chunk);
}
read_result failed s = record s { reader = stopped }
read_result timed_out s = s
read_result interrupted s = s
read_result eio s = s

-- The loop's receiver lives until the process ends.
unfoldable pub send_read : Bytes → Bridge → Option Bridge
send_read chunk s =
    if ltb (length s.dev_queue) channel_size
    then some (record s { reader = at_read; dev_queue = s.dev_queue ++ chunk ∷ [] })
    else none

unfoldable pub take_net : List Bytes → Bridge → Option Bridge
take_net [] s = none
take_net (chunk ∷ rest) s = some (record s { net_queue = rest; writer = putting chunk })

unfoldable pub put_device : Bytes → Bool → Bridge → Bridge
put_device chunk true s = record s { writer = at_recv; device_out = s.device_out ++ chunk }
put_device chunk false s = record s { writer = gone }

-- `let _ = net_tx.send(…)`: a send without a receiver fails at once.
unfoldable pub deliver_net : WriteThread → Bytes → Bridge → Option Bridge
deliver_net gone chunk s = some (record s { delivery = none })
deliver_net _ chunk s =
    if ltb (length s.net_queue) channel_size
    then some (record s { delivery = none; net_queue = s.net_queue ++ chunk ∷ [] })
    else none

-- The newest websocket takes a frame.
unfoldable pub put_frame : Bytes → List (List Bytes) → List (List Bytes)
put_frame frame [] = []
put_frame frame (link ∷ links) = (link ++ frame ∷ []) ∷ links

-- `ws.send` of a frame: taken, or an error that ends the connection.
send_frame : Bytes → Bool → Bridge → Bridge
send_frame frame true s = record s { links = put_frame frame s.links }
send_frame frame false s = record s { phase = leaving }

-- `dev_rx.recv()`: a chunk and the send of its frame, or the end of the bridge when the read thread
-- has stopped and nothing is left.
pub take_dev : Crypto → Side → List Bytes → ReadThread → Bytes → Bool → Bridge → Option Bridge
take_dev c side (chunk ∷ rest) r nonce ok s =
    let frame = serial_frame c nonce side.me side.peer side.k_c2s chunk in
    some (send_frame frame ok (record s { dev_queue = rest }))
take_dev c side [] stopped nonce ok s = some (record s { phase = over })
take_dev c side [] _ nonce ok s = none

-- The inner `select`, where the loop stands at no delivery.
in_select : Crypto → Side → Option Bytes → BridgeEvent → Bridge → Option Bridge
in_select c side none (message frame) s = some (record s {
  received = s.received ++ frame ∷ [];
  delivery = serial_incoming c side.me side.peer side.k_s2c frame;
})
in_select c side none (send_chunk nonce ok) s = take_dev c side s.dev_queue s.reader nonce ok s
in_select c side none lost s = some (record s { phase = leaving })
in_select c side none ctrl_c s = some (record s { phase = over })
in_select c side (some chunk) delivered s = deliver_net s.writer chunk s
in_select c side _ e s = none

-- The frames of the introduction and the subscription, whose errors are ignored, are left out.
bridge_phase : Crypto → Side → Phase → BridgeEvent → Bridge → Option Bridge
bridge_phase c side connecting (handshake true) s =
    some (record s { phase = live; seq = ((s.seq + 1) % 65536 + 1) % 65536; links = [] ∷ s.links })
bridge_phase c side connecting (handshake false) s = some (record s { phase = unavailable })
bridge_phase c side unavailable backed_off s = some (record s { phase = connecting })
bridge_phase c side unavailable ctrl_c s = some (record s { phase = over })
bridge_phase c side live e s = in_select c side s.delivery e s
bridge_phase c side leaving backed_off s = some (record s { phase = connecting })
bridge_phase c side _ e s = none

read_thread : ReadThread → BridgeEvent → Bridge → Option Bridge
read_thread at_read (device_read r) s = some (read_result r s)
read_thread (holding chunk) device_sent s = send_read chunk s
read_thread _ e s = none

write_thread : WriteThread → BridgeEvent → Bridge → Option Bridge
write_thread at_recv device_take s = take_net s.net_queue s
write_thread (putting chunk) (device_wrote ok) s = some (put_device chunk ok s)
write_thread _ e s = none

unfoldable pub bridge_step : Crypto → Side → Bridge → BridgeEvent → Option Bridge
unfolding read_result send_read take_net put_device deliver_net put_frame send_frame take_dev
    in_select bridge_phase read_thread write_thread
bridge_step c side s (device_read r) = read_thread s.reader (device_read r) s
bridge_step c side s device_sent = read_thread s.reader device_sent s
bridge_step c side s device_take = write_thread s.writer device_take s
bridge_step c side s (device_wrote ok) = write_thread s.writer (device_wrote ok) s
bridge_step c side s e = bridge_phase c side s.phase e s

unfoldable pub bridge_run : Crypto → Side → Bridge → List BridgeEvent → Option Bridge
bridge_run c side s [] = some s
bridge_run c side s (e ∷ es) = elim (bridge_step c side s e) [
  | none ↦ none
  | some t ↦ bridge_run c side t es
]
