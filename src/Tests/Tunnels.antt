-- ===== src/Tests/Tunnels.antt =====
-- src/tcp.rs at concrete runs of the tunnel.
use ws_usb_linux.Base.{
  ℕ, zero, suc, ◌<◌, ◌≡◌, refl, ◌↔◌, true, false, Option, none, some, List, [], ◌∷◌, ◌++◌,
  if◌then◌else◌, ◌==◌, arith,
}
use ws_usb_linux.Base.Maps.{is_some}
use ws_usb_linux.Tcp.{
  Tunnel, start, receiving, alloc_loop, alloc_conn_id, send_peer, spawn_connection, dispatch,
}
use ws_usb_linux.Tcp.Tasks.{Event, incoming, continue, dialed, accepts, writes, reads, step, run}
use ws_usb_linux.Tcp.Alloc.{FirstFree, alloc_conn_id-FirstFree, alloc_conn_id-none}
use ws_usb_linux.Tcp.Invariant.{Inv}
use ws_usb_linux.Tcp.Invariant.Steps.{run-start-Inv}
use ws_usb_linux.Tcp.Blocking.{Stuck, refusing_forever}
use ws_usb_linux.Tcp.Reopening.{replaced, Unreachable, reopened-Unreachable}
use ws_usb_linux.Tcp.Listening.{allocated_id}

-- Only 255 is in use, and it is next: the allocation goes on at 0.
abbrev one_used : ℕ → Option ℕ
one_used i = if i == 255 then some 0 else none

wraps : (alloc_conn_id one_used 255).0 ≡ some 0
unfolding alloc_conn_id alloc_loop
wraps = refl

alloc_conn_id-FirstFree_example : FirstFree one_used 255 0 (alloc_conn_id one_used 255).1
alloc_conn_id-FirstFree_example = alloc_conn_id-FirstFree one_used 255 0 (omega arith) wraps

alloc_conn_id-none_example :
    ((alloc_conn_id one_used 3).0 ≡ none)
    ↔ ((conn_id : ℕ) → conn_id < 256 → is_some (one_used conn_id) ≡ true)
alloc_conn_id-none_example = alloc_conn_id-none one_used 3 (omega arith)

abbrev or_start : Option Tunnel → Tunnel
or_start none = start
or_start (some t) = t

-- The peer opens 5 and sends two frames of data; the first reaches the socket.
abbrev opening : List Event
opening =
    incoming 50 5 []
    ∷ dialed true
    ∷ incoming 51 5 (1 ∷ 2 ∷ [])
    ∷ continue
    ∷ incoming 51 5 (3 ∷ [])
    ∷ continue
    ∷ writes 0 true
    ∷ writes 0 true
    ∷ []

abbrev opened : Tunnel
opened = or_start (run true start opening)

opened_runs : run true start opening ≡ some opened
unfolding run step send_peer spawn_connection dispatch
opened_runs = refl

run-start-Inv_example : Inv opened
run-start-Inv_example = run-start-Inv true opening opened opened_runs

abbrev drained : Tunnel
drained = or_start (run true start (opening ++ writes 0 true ∷ writes 0 true ∷ []))

drained_runs : run true start (opening ++ writes 0 true ∷ writes 0 true ∷ []) ≡ some drained
unfolding run step send_peer spawn_connection dispatch
drained_runs = refl

drained_waits : ((drained.conn 0).writer ≡ receiving) × ((drained.conn 0).queue ≡ [])
unfolding run step send_peer spawn_connection dispatch
drained_waits = (refl, refl)

-- The peer opens 5 again.
abbrev again : Tunnel
again = or_start (step true drained (incoming 50 5 []))

reopened-Unreachable_example :
    (t : Tunnel) × (run true again (replaced 0) ≡ some t) × Unreachable 5 again.spawned t
unfolding run step send_peer spawn_connection dispatch
reopened-Unreachable_example =
    reopened-Unreachable true again 5 0 refl refl (omega arith) refl refl refl

-- Two local sockets: the first is registered, the second has its id.
abbrev two_sockets : List Event
two_sockets = accepts ∷ accepts ∷ accepts ∷ accepts ∷ []

abbrev two : Tunnel
two = or_start (run false start two_sockets)

two_runs : (run false start two_sockets ≡ some two) × (allocated_id two.acceptor ≡ some 1)
unfolding run step send_peer spawn_connection dispatch alloc_conn_id alloc_loop
two_runs = (refl, refl)

-- While the loop dials for 1, connection 0 reads until the out queue is full; then the dial fails.
abbrev reading_on : ℕ → List Event → List Event
reading_on zero es = es
reading_on (suc n) es = reads 0 (1 ∷ []) ∷ reads 0 [] ∷ reading_on n es

abbrev flooding : List Event
flooding = incoming 50 0 [] ∷ dialed true ∷ incoming 50 1 [] ∷ reading_on 512 (dialed false ∷ [])

abbrev flooded : Tunnel
flooded = or_start (run true start flooding)

flooded-Stuck : Stuck 1 [] flooded
unfolding run step send_peer spawn_connection dispatch
flooded-Stuck = record { refuses = refl; full = omega arith; unsent = refl }

-- Connection 0 reads once more, and then waits too.
abbrev later : Tunnel
later = or_start (run true flooded (reads 0 (9 ∷ []) ∷ []))

later_runs : run true flooded (reads 0 (9 ∷ []) ∷ []) ≡ some later
unfolding run step send_peer spawn_connection dispatch
later_runs = refl

refusing_forever_example : Stuck 1 [] later
refusing_forever_example =
    refusing_forever 1 [] true (reads 0 (9 ∷ []) ∷ []) flooded later flooded-Stuck later_runs
