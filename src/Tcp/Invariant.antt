-- ===== src/Tcp/Invariant.antt =====
-- src/tcp.rs: the invariant of a tunnel: the queues' bounds, the entries of the map, and the bytes on
-- their way to a socket.
pub mod Loop
pub mod Conns
pub mod Steps
use ws_usb_linux.Base.{
  ℕ, ◌+◌, ◌≤◌, ◌<◌, ◌≡◌, ◌⊎◌, inl, inr, refl, sym, ap, subst, ◌∙◌, Bool, true, false, Option, none,
  some, List, [], ◌∷◌, ◌++◌, length, append-nil, append_assoc, ltb, leb, if◌then◌else◌, Bool-cases,
  ltb→lt, Option-cases, arith, Bytes, ◌==◌, length-append,
}
use ws_usb_linux.Base.Maps.{update, update-all, Holds, Holds-some, length-concat}
use ws_usb_linux.Proto.{cmd_tcp_open, cmd_tcp_data, cmd_tcp_close}
use ws_usb_linux.Tcp.{
  out_queue, conn_queue, WrMsg, bytes, shutdown, OutFrame, Writer, receiving, writing, shutting,
  removing, ended, Reader, reading, sending, closing, finished, Conn, Session, waiting, dialing,
  delivering, unmapping, refusing, Acceptor, accepting, announcing, registering, Tunnel, with_conn,
  send_peer, spawn_connection, alloc_conn_id, dispatch, start, route_data, route_close,
}
use ws_usb_linux.Tcp.Tasks.{
  is_ended, payload, push_msg, Event, incoming, continue, dialed, sent, accepts, writes, reads,
  step, run, deliver, resume, read_step, write_step, receive, accept, drain, dial_done, command,
  after_failed_send, allocated, read_done, has_sender, read_chunk,
}

-- All the bytes that a channel holds, in order.
abbrev pub payloads : List WrMsg → Bytes
payloads [] = []
payloads (m ∷ ms) = payload m ++ payloads ms

pub payloads-concat :
    (ms : List WrMsg) (m : WrMsg) → payloads (ms ++ m ∷ []) ≡ payloads ms ++ payload m
payloads-concat [] m = append-nil (payload m)
payloads-concat (x ∷ ms) m =
    rw (payloads-concat ms m) (sym (append_assoc (payload x) (payloads ms) (payload m)))

-- While the writer runs, what was put into the channel is what is written, then what is being
-- written, then what waits. Once it stops, what is written is the beginning of it.
abbrev pub Flow : Writer → Conn → Type 0
Flow receiving k = k.routed ≡ k.written ++ payloads k.queue
Flow (writing b) k = k.routed ≡ k.written ++ (b ++ payloads k.queue)
Flow _ k = (rest : Bytes) × (k.routed ≡ k.written ++ rest)

pub record ConnOk (k : Conn) : Type 0 where
  pub bounded : length k.queue ≤ conn_queue
  pub flow : Flow k.writer k

-- An entry of the map leads to a connection of that id with a receiver.
abbrev pub Mapped : ℕ → Conn → Type 0
Mapped i k = (k.conn_id ≡ i) × (is_ended k.writer ≡ false)

pub record Inv (s : Tunnel) : Type 0 where
  pub out_bounded : length s.out ≤ out_queue
  pub conns_ok : (j : ℕ) → ConnOk (s.conn j)
  pub mapped : (i j : ℕ) → s.conns i ≡ some j → (j < s.spawned) × Mapped i (s.conn j)

-- The map after a change of connection `j` alone.
pub Mapped-conn :
    (s : Tunnel) (j : ℕ) (k : Conn)
    → Inv s
    → ((i : ℕ) → s.conns i ≡ some j → Mapped i (s.conn j) → Mapped i k)
    → (i l : ℕ) → s.conns i ≡ some l
    → (l < s.spawned) × Mapped i (update s.conn j k l)
Mapped-conn s j k v keep i l e = elim (Bool-cases (j == l)) [
  | inl same ↦ rw (same, update) (ground (arith, v.mapped i l e, keep i))
  | inr other ↦ rw (other, update) (v.mapped i l e)
]

-- The map after the removal of an entry.
pub mapped_without :
    (conns : ℕ → Option ℕ) (i : ℕ) (P : ℕ → ℕ → Type 0)
    → ((a b : ℕ) → conns a ≡ some b → P a b)
    → (a b : ℕ) → update conns i none a ≡ some b
    → P a b
mapped_without conns i P h a b e = elim (Bool-cases (i == a)) [
  | inl gone ↦ absurd (ground arith)
  | inr kept ↦ h a b (ground arith)
]

-- The invariant does not speak of where the session loop and the acceptor stand.
pub Inv-elsewhere :
    (s : Tunnel) (p : Session) (a : Acceptor) (next : ℕ)
    → Inv s
    → Inv (record s { session = p; acceptor = a; next_id = next })
Inv-elsewhere s p a next v = record {
  out_bounded = v.out_bounded;
  conns_ok = v.conns_ok;
  mapped = v.mapped;
}
