-- ===== src/Tcp/Invariant/Steps.antt =====
-- src/tcp.rs: the invariant through every event and every run from the start.
use ws_usb_linux.Base.{
  ℕ, ◌≡◌, inl, inr, refl, sym, ap, subst, ◌∙◌, Bool, true, false, some, List, [], ◌∷◌, ◌++◌,
  append-nil, if◌then◌else◌, Option-cases, arith, Bytes, ◌==◌,
}
use ws_usb_linux.Base.Maps.{Holds, Holds-some}
use ws_usb_linux.Proto.{cmd_tcp_open, cmd_tcp_data, cmd_tcp_close}
use ws_usb_linux.Tcp.{
  Writer, receiving, writing, shutting, removing, ended, Conn, Session, waiting, dialing, Tunnel,
  dispatch, start, route_data, route_close,
}
use ws_usb_linux.Tcp.Tasks.{
  Event, incoming, continue, dialed, sent, accepts, writes, reads, step, run, command,
}
use ws_usb_linux.Tcp.Invariant.{payloads, Flow, Inv, Inv-elsewhere}
use ws_usb_linux.Tcp.Invariant.Loop.{resume-Inv, dial_done-Inv, drain-Inv, accept-Inv}
use ws_usb_linux.Tcp.Invariant.Conns.{at, write_step-Inv, read_step-Inv}

route_data-Inv : (s : Tunnel) (conn_id : ℕ) (body : Bytes) → Inv s → Inv (route_data s conn_id body)
unfolding route_data
route_data-Inv s conn_id [] v = v
route_data-Inv s conn_id (b ∷ body) v = elim (Option-cases (s.conns conn_id)) [
  | inl e ↦ rw (e, route_data) v
  | inr (j, e) ↦ rw (e, route_data) (Inv-elsewhere s _ s.acceptor s.next_id v)
]

route_close-Inv : (s : Tunnel) (conn_id : ℕ) → Inv s → Inv (route_close s conn_id)
unfolding route_close
route_close-Inv s conn_id v = elim (Option-cases (s.conns conn_id)) [
  | inl e ↦ rw (e, route_close) v
  | inr (j, e) ↦ rw (e, route_close) (Inv-elsewhere s _ s.acceptor s.next_id v)
]

if-Inv : (b : Bool) (s t : Tunnel) → Inv s → Inv t → Inv (if b then s else t)
if-Inv true s t u v = u
if-Inv false s t u v = v

pub dispatch-Inv :
    (dials : Bool) (s : Tunnel) (cmd conn_id : ℕ) (body : Bytes)
    → Inv s
    → Inv (dispatch dials s cmd conn_id body)
unfolding dispatch
dispatch-Inv dials s cmd conn_id body v =
    if-Inv (cmd == cmd_tcp_open) _ _
      (if-Inv dials _ _ (Inv-elsewhere s (dialing conn_id) s.acceptor s.next_id v) v)
      (if-Inv (cmd == cmd_tcp_data) _ _ (route_data-Inv s conn_id body v)
        (if-Inv (cmd == cmd_tcp_close) _ _ (route_close-Inv s conn_id v) v))

command-Inv :
    (p : Session) (dials : Bool) (cmd conn_id : ℕ) (body : Bytes) (s : Tunnel)
    → Inv s
    → Holds Inv (command p dials cmd conn_id body s)
unfolding command
command-Inv waiting dials cmd conn_id body s v = dispatch-Inv dials s cmd conn_id body v
command-Inv _ dials cmd conn_id body s v = tt

step-Holds-Inv : (dials : Bool) (s : Tunnel) (e : Event) → Inv s → Holds Inv (step dials s e)
unfolding step
step-Holds-Inv dials s (incoming cmd conn_id body) v =
    command-Inv s.session dials cmd conn_id body s v
step-Holds-Inv dials s continue v = resume-Inv s.session s v
step-Holds-Inv dials s (dialed ok) v = dial_done-Inv s.session ok s v
step-Holds-Inv dials s (sent ok) v = drain-Inv s.session ok s.out s refl v
step-Holds-Inv dials s accepts v = accept-Inv s.acceptor s v
step-Holds-Inv dials s (writes j ok) v =
    write_step-Inv (s.conn j).writer s j ok (at s j (s.conn j).writer v refl) v
step-Holds-Inv dials s (reads j chunk) v = read_step-Inv (s.conn j).reader s j chunk v

-- Every step of every task keeps the invariant.
pub step-Inv : (dials : Bool) (s t : Tunnel) (e : Event) → Inv s → step dials s e ≡ some t → Inv t
step-Inv dials s t e v = Holds-some Inv (step dials s e) t (step-Holds-Inv dials s e v)

pub start-Inv : Inv start
start-Inv = record {
  out_bounded = omega arith;
  conns_ok = λ j. record { bounded = omega arith; flow = ([], refl) };
  mapped = λ i j e. absurd (cc);
}

run-Inv : (dials : Bool) (es : List Event) (s t : Tunnel) → Inv s → run dials s es ≡ some t → Inv t
unfolding run
run-Inv dials [] s t v e = subst Inv {x = s} (ground arith) v
run-Inv dials (ev ∷ es) s t v e = elim (Option-cases (step dials s ev)) [
  | inl stuck ↦ absurd (cc (rw (stuck, run) at e))
  | inr (u, q) ↦ run-Inv dials es u t (step-Inv dials s u ev v q) (rw (q, run) at e)
]

-- After any run from the start, on either side: the out queue holds at most 512 frames and each
-- connection's queue at most 256 messages; each entry of the map leads to a spawned connection of
-- that id whose writer has not ended; and what was routed to a connection is what its socket was
-- given, then what its writer holds, then what waits in its queue (once the writer stops, it
-- begins with what the socket was given).
pub run-start-Inv :
    (dials : Bool) (es : List Event) (t : Tunnel) → run dials start es ≡ some t → Inv t
run-start-Inv dials es t = run-Inv dials es start t start-Inv

Flow-prefix : (w : Writer) (k : Conn) → Flow w k → (rest : Bytes) × (k.routed ≡ k.written ++ rest)
Flow-prefix receiving k h = (payloads k.queue, h)
Flow-prefix (writing b) k h = (b ++ payloads k.queue, h)
Flow-prefix shutting k h = h
Flow-prefix removing k h = h
Flow-prefix ended k h = h

-- After any run from the start, what a connection's socket was given is a prefix of what was
-- routed to the connection.
pub written-prefix :
    (dials : Bool) (es : List Event) (t : Tunnel) (j : ℕ)
    → run dials start es ≡ some t
    → (rest : Bytes) × ((t.conn j).routed ≡ (t.conn j).written ++ rest)
written-prefix dials es t j e =
    Flow-prefix (t.conn j).writer (t.conn j) ((run-start-Inv dials es t e).conns_ok j).flow

-- After any run from the start, a connection whose writer waits at an empty queue has given its
-- socket all that was routed to it.
pub written-all :
    (dials : Bool) (es : List Event) (t : Tunnel) (j : ℕ)
    → run dials start es ≡ some t
    → (t.conn j).writer ≡ receiving
    → (t.conn j).queue ≡ []
    → (t.conn j).written ≡ (t.conn j).routed
written-all dials es t j e w q =
    let v = run-start-Inv dials es t e in
    sym ((at t j receiving v w).flow ∙ ap (λ r. (t.conn j).written ++ payloads r) q ∙ append-nil _)
