-- ===== src/Tests/Streams.antt =====
-- src/tcp.rs: a connection through both ends of the tunnel.
use ws_usb_linux.Base.{
  ◌<◌, ◌≡◌, refl, true, false, Option, none, some, List, [], ◌∷◌, ◌++◌, arith, Bytes,
}
use ws_usb_linux.Tcp.{
  Tunnel, start, receiving, waiting, send_peer, spawn_connection, dispatch, alloc_conn_id,
  alloc_loop,
}
use ws_usb_linux.Tcp.Tasks.{
  Event, incoming, continue, dialed, sent, accepts, writes, reads, step, run,
}
use ws_usb_linux.Tcp.Listening.{allocated_id, unregistered-dropped}
use ws_usb_linux.Tcp.Outgoing.{Accounted, Sole, in_hand}
use ws_usb_linux.Tcp.Outgoing.Runs.{run-start-Accounted}
use ws_usb_linux.Tcp.Pieces.Relayed.{received-written}
use ws_usb_linux.Tcp.Arriving.{arrivals}
use ws_usb_linux.Tcp.Announcing.{is_registering, Announced}
use ws_usb_linux.Tcp.Announcing.Runs.{run-start-Announced}
use ws_usb_linux.Tcp.Stream.{written-received, written_received_all}

abbrev or_start : Option Tunnel → Tunnel
or_start none = start
or_start (some t) = t

-- A local socket is taken and announced, gives two bytes, and both frames are sent.
abbrev home_events : List Event
home_events =
    accepts ∷ accepts ∷ accepts ∷ reads 0 (7 ∷ 8 ∷ []) ∷ reads 0 [] ∷ sent true ∷ sent true ∷ []

abbrev home : Tunnel
home = or_start (run false start home_events)

-- The other side dials and writes them.
abbrev gate_events : List Event
gate_events =
    incoming 50 0 []
    ∷ dialed true
    ∷ incoming 51 0 (7 ∷ 8 ∷ [])
    ∷ continue
    ∷ writes 0 true
    ∷ writes 0 true
    ∷ []

abbrev gate : Tunnel
gate = or_start (run true start gate_events)

home_facts :
    (run false start home_events ≡ some home)
    × (0 < home.spawned)
    × Sole home 0
    × (is_registering home.acceptor (home.conn 0).conn_id ≡ false)
    × (home.wire ≡ arrivals gate_events ++ [])
    × (in_hand (home.conn 0).reader ≡ [])
    × (home.out ≡ [])
unfolding run step send_peer spawn_connection alloc_conn_id alloc_loop
home_facts = (refl, omega arith, (λ l less e. omega (arith, less)), refl, refl, refl, refl)

gate_facts :
    (run true start gate_events ≡ some gate)
    × ((gate.conn 0).conn_id ≡ (home.conn 0).conn_id)
    × (0 < gate.spawned)
    × (gate.conns (home.conn 0).conn_id ≡ some 0)
    × (gate.session ≡ waiting)
    × ((gate.conn 0).writer ≡ receiving)
    × ((gate.conn 0).queue ≡ [])
unfolding run step send_peer spawn_connection alloc_conn_id alloc_loop dispatch
gate_facts = (refl, refl, omega arith, refl, refl, refl, refl)

run-start-Accounted_example : Accounted (home.wire ++ home.out) (home.conn 0)
run-start-Accounted_example =
    run-start-Accounted false home_events home 0 tt home_facts.0 home_facts.1 home_facts.2

run-start-Announced_example : Announced 0 home
run-start-Announced_example = run-start-Announced 0 home_events home tt home_facts.0

written-received_example : (rest : Bytes) × ((home.conn 0).received ≡ (gate.conn 0).written ++ rest)
written-received_example =
    written-received home_events gate_events home gate [] 0 0 tt home_facts.0 tt gate_facts.0
      home_facts.4 home_facts.1 home_facts.2 home_facts.3 gate_facts.1 gate_facts.2

written_received_all_example : (gate.conn 0).written ≡ (home.conn 0).received
written_received_all_example =
    written_received_all home_events gate_events home gate [] 0 0 tt home_facts.0 tt gate_facts.0
      home_facts.4 home_facts.1 home_facts.2 home_facts.3 gate_facts.1 home_facts.5 home_facts.6
      refl gate_facts.3 gate_facts.4 gate_facts.5 gate_facts.6

-- OPEN is on the wire, and the connection is not spawned yet.
abbrev announced_events : List Event
announced_events = accepts ∷ accepts ∷ sent true ∷ []

abbrev announced : Tunnel
announced = or_start (run false start announced_events)

announced_facts :
    (run false start announced_events ≡ some announced)
    × (allocated_id announced.acceptor ≡ some 0)
    × (announced.session ≡ waiting)
unfolding run step send_peer spawn_connection alloc_conn_id alloc_loop
announced_facts = (refl, refl, refl)

unregistered-dropped_example : step false announced (incoming 51 0 (9 ∷ [])) ≡ some announced
unregistered-dropped_example =
    unregistered-dropped announced_events announced 0 (9 ∷ []) announced_facts.0 announced_facts.1
      announced_facts.2

-- The server answers, and the local socket gets the answer.
abbrev answer_events : List Event
answer_events = incoming 50 0 [] ∷ dialed true ∷ reads 0 (5 ∷ 6 ∷ []) ∷ reads 0 [] ∷ sent true ∷ []

abbrev answering : Tunnel
answering = or_start (run true start answer_events)

abbrev answered_events : List Event
answered_events =
    accepts
    ∷ accepts
    ∷ accepts
    ∷ incoming 51 0 (5 ∷ 6 ∷ [])
    ∷ continue
    ∷ writes 0 true
    ∷ writes 0 true
    ∷ []

abbrev answered : Tunnel
answered = or_start (run false start answered_events)

answer_facts :
    (run true start answer_events ≡ some answering)
    × (run false start answered_events ≡ some answered)
    × (answering.wire ≡ arrivals answered_events ++ [])
    × (0 < answering.spawned)
    × Sole answering 0
    × (0 < answered.spawned)
    × ((answered.conn 0).conn_id ≡ (answering.conn 0).conn_id)
unfolding run step send_peer spawn_connection alloc_conn_id alloc_loop dispatch
answer_facts = (refl, refl, refl, omega arith, (λ l less e. omega (arith, less)), omega arith, refl)

received-written_example :
    (before : Bytes) × (after : Bytes) × ((answering.conn 0).received
      ≡ before ++ ((answered.conn 0).written ++ after))
received-written_example =
    received-written true false answer_events answered_events answering answered [] 0 0 tt
      answer_facts.0 answer_facts.1 answer_facts.2 answer_facts.3 answer_facts.4 answer_facts.5
      answer_facts.6
