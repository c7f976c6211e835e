-- ===== src/Tests/Loops.antt =====
-- src/tcp.rs and src/main.rs: runs of the session loop and of the bridge, and command lines.
use ws_usb_linux.Base.{
  ◌+◌, ◌≡◌, ◌≢◌, refl, true, false, Option, none, some, List, [], ◌∷◌, ◌++◌, map, replicate, drop,
  Bytes,
}
use ws_usb_linux.Base.Text.{codes}
use ws_usb_linux.Tcp.{
  OutFrame, bytes, Tunnel, start, receiving, waiting, delivering, send_peer, spawn_connection,
  dispatch, alloc_conn_id, alloc_loop,
}
use ws_usb_linux.Tcp.Tasks.{Event, incoming, continue, dialed, sent, accepts, step, run}
use ws_usb_linux.Tcp.Sessions.{
  SessionLoop, begin, live, over, LoopEvent, linked, backed_off, lost, ping, inner, loop_step,
  loop_run, open_link, taken, after, allowed, is_task,
}
use ws_usb_linux.Tcp.Sessions.Reconnection.{tunnel_events, loop_run_refines}
use ws_usb_linux.Tcp.Sessions.Recovery.{way_back, loop_run-live, loop_run-loses}
use ws_usb_linux.Tcp.Progress.{writing_out, writing_out-delivers}
use ws_usb_linux.Tcp.Waits.{Frees, delivering-Frees}
use ws_usb_linux.Proto.{xor_header, from_seeds, pack_inner, clamp}
use ws_usb_linux.Proto.Envelope.{encrypt_and_sign, verify_and_decrypt}
use ws_usb_linux.Proto.Frames.{build_peer_frame}
use ws_usb_linux.Serial.{serial_frame, serial_body, serial_incoming, got, timed_out}
use ws_usb_linux.Serial.Bridge
use ws_usb_linux.Serial.Bridge.{
  Side, Bridge, bridge_run, bridge_step, device_read, device_sent, send_chunk, message, delivered,
  device_take, device_wrote,
}
use ws_usb_linux.Serial.Bridge.Flow.{BridgeInv}
use ws_usb_linux.Serial.Bridge.Runs.{bridge_run-idle-Inv}
use ws_usb_linux.Cli.{parse}
use ws_usb_linux.Cli.Main.{main}
use ws_usb_linux.Relay.{env_or}
use ws_usb_linux.Cli.Main.Sound.{IsSound}
use ws_usb_linux.Cli.Main.Choice.{main-IsSound}
use ws_usb_linux.Proto.Invite.{make_qr, as_peer}
use ws_usb_linux.Tests.Toy.{toy}
use ws_usb_linux.Tests.Packets.{alice, bob, nonce, route_key, nick}

abbrev or_begin : Option SessionLoop → SessionLoop
or_begin none = begin
or_begin (some l) = l

-- A local socket is announced; the connection is lost and comes back; the announcement is sent.
abbrev two_links : List LoopEvent
two_links =
    linked true false
    ∷ inner accepts
    ∷ inner accepts
    ∷ lost
    ∷ inner accepts
    ∷ backed_off
    ∷ linked true true
    ∷ inner (sent true)
    ∷ ping
    ∷ []

abbrev relinked : SessionLoop
relinked = or_begin (loop_run false begin two_links)

relinked_runs : loop_run false begin two_links ≡ some relinked
unfolding loop_run loop_step open_link taken after allowed is_task step send_peer spawn_connection
    alloc_conn_id alloc_loop
relinked_runs = refl

loop_run_refines_example : run false start (tunnel_events two_links) ≡ some relinked.tunnel
loop_run_refines_example = loop_run_refines false two_links begin relinked relinked_runs

relinked_waits : (relinked.phase ≡ live) × (relinked.tunnel.session ≡ waiting)
unfolding loop_run loop_step open_link taken after allowed is_task step send_peer spawn_connection
    alloc_conn_id alloc_loop
relinked_waits = (refl, refl)

loop_run-live_example :
    (relinked.phase ≢ over)
    × (m : SessionLoop) × (loop_run false relinked (way_back true true relinked.phase) ≡ some m)
    × (m.phase ≡ live)
    × (m.sessions ≡ relinked.sessions + 1)
    × (m.tunnel ≡ relinked.tunnel)
loop_run-live_example =
    loop_run-live false true true two_links relinked tt relinked_runs (λ _. relinked_waits.1)

-- The announcement is in hand when the send fails.
abbrev announced : SessionLoop
announced = or_begin (loop_run false begin (linked true true ∷ inner accepts ∷ inner accepts ∷ []))

abbrev announcement : OutFrame
announcement = record { cmd = 0x32; body = 0 ∷ [] }

announced_waits :
    (announced.phase ≡ live)
    × (announced.tunnel.session ≡ waiting)
    × (announced.tunnel.out ≡ announcement ∷ [])
unfolding loop_run loop_step open_link taken after allowed is_task step send_peer spawn_connection
    alloc_conn_id alloc_loop
announced_waits = (refl, refl, refl)

loop_run-loses_example :
    (m : SessionLoop) × (loop_run false announced
        (inner (sent false) ∷ backed_off ∷ linked false true ∷ [])
      ≡ some m)
    × (m.phase ≡ live)
    × (m.tunnel ≡ record announced.tunnel { out = [] })
loop_run-loses_example =
    loop_run-loses false false true announced announcement [] announced_waits.0 announced_waits.1
      announced_waits.2

abbrev or_start : Option Tunnel → Tunnel
or_start none = start
or_start (some t) = t

-- Two chunks have been routed.
abbrev routing : List Event
routing =
    incoming 50 5 []
    ∷ dialed true
    ∷ incoming 51 5 (1 ∷ 2 ∷ [])
    ∷ continue
    ∷ incoming 51 5 (3 ∷ [])
    ∷ continue
    ∷ []

abbrev routed : Tunnel
routed = or_start (run true start routing)

routed_runs :
    (run true start routing ≡ some routed)
    × ((routed.conn 0).writer ≡ receiving)
    × ((routed.conn 0).queue ≡ map bytes ((1 ∷ 2 ∷ []) ∷ (3 ∷ []) ∷ []))
unfolding run step send_peer spawn_connection dispatch
routed_runs = (refl, refl, refl)

writing_out-delivers_example :
    (t : Tunnel) × (run true routed (writing_out 0 ((1 ∷ 2 ∷ []) ∷ (3 ∷ []) ∷ [])) ≡ some t)
    × ((t.conn 0).queue ≡ [])
    × ((t.conn 0).written ≡ (routed.conn 0).routed)
writing_out-delivers_example =
    writing_out-delivers true routing routed 0 ((1 ∷ 2 ∷ []) ∷ (3 ∷ []) ∷ []) routed_runs.0
      routed_runs.1 routed_runs.2

-- Two chunks wait, and the loop has the next.
abbrev filling : List Event
filling =
    incoming 50 5 []
    ∷ dialed true
    ∷ incoming 51 5 (1 ∷ [])
    ∷ continue
    ∷ incoming 51 5 (3 ∷ [])
    ∷ continue
    ∷ incoming 51 5 (2 ∷ [])
    ∷ []

abbrev filled : Tunnel
filled = or_start (run true start filling)

filled_runs :
    (run true start filling ≡ some filled) × (filled.session ≡ delivering 0 5 (bytes (2 ∷ [])))
unfolding run step send_peer spawn_connection dispatch
filled_runs = (refl, refl)

delivering-Frees_example : Frees true filled 0 5 (false ∷ true ∷ true ∷ [])
delivering-Frees_example =
    delivering-Frees true filling filled 0 5 (bytes (2 ∷ [])) false true true filled_runs.0
      filled_runs.1

-- Two chunks are read, and the first is lost with the connection.
-- Both ends of the bridge; the peer is Bob.
abbrev side : Side
side = record { me = alice; peer = as_peer bob []; k_c2s = route_key; k_s2c = route_key }

-- What Bob's bridge sends for a byte, as the relay passes it on.
abbrev from_bob : Bytes
from_bob =
    replicate 8 0 ++ drop 8 (serial_frame toy nonce bob (as_peer alice []) route_key (7 ∷ []))

-- A chunk is sent, the next one's send fails, and the one behind it is sent on the next connection.
abbrev bridging : List Bridge.BridgeEvent
bridging =
    Bridge.handshake true
    ∷ device_read (got (1 ∷ []))
    ∷ device_sent
    ∷ device_read timed_out
    ∷ device_read (got (2 ∷ []))
    ∷ send_chunk nonce true
    ∷ device_sent
    ∷ message from_bob
    ∷ delivered
    ∷ send_chunk nonce false
    ∷ Bridge.backed_off
    ∷ Bridge.handshake true
    ∷ device_read (got (3 ∷ []))
    ∷ device_sent
    ∷ send_chunk nonce true
    ∷ device_take
    ∷ device_wrote true
    ∷ []

abbrev or_idle : Option Bridge → Bridge
or_idle none = Bridge.idle
or_idle (some s) = s

abbrev bridged : Bridge
bridged = or_idle (bridge_run toy side Bridge.idle bridging)

bridged_runs : bridge_run toy side Bridge.idle bridging ≡ some bridged
unfolding bridge_run bridge_step serial_incoming serial_frame serial_body build_peer_frame
    xor_header from_seeds encrypt_and_sign pack_inner verify_and_decrypt clamp
bridged_runs = refl

bridge_run-idle-Inv_example : BridgeInv toy side bridged
bridge_run-idle-Inv_example = bridge_run-idle-Inv toy side bridging bridged bridged_runs

main-IsSound_example :
    IsSound toy
      (λ _. none)
      true
      (codes "usbws")
      (parse (codes "3240" ∷ codes "--peer" ∷ make_qr toy alice nick ∷ []))
      (codes "tcp-listen")
      (main toy
        (λ _. none)
        true
        (codes "tcp-listen" ∷ codes "3240" ∷ codes "--peer" ∷ make_qr toy alice nick ∷ []))
unfolding env_or
main-IsSound_example =
    main-IsSound toy (λ _. none) true (codes "tcp-listen")
      (codes "3240" ∷ codes "--peer" ∷ make_qr toy alice nick ∷ [])
