-- ===== src/Tcp/Outgoing/Steps.antt =====
-- src/tcp.rs: the bytes on their way through the session loop, the acceptor and the writers.
use ws_usb_linux.Base.{
  ℕ, ◌≡◌, inl, inr, refl, sym, ap, ◌∙◌, Bool, true, false, Option, none, some, List, [], ◌∷◌, ◌++◌,
  append_assoc, length, ltb, if◌then◌else◌, Bool-cases, Option-cases, Bytes, ◌==◌,
}
use ws_usb_linux.Base.Maps.{update, Holds}
use ws_usb_linux.Proto.{cmd_tcp_open, cmd_tcp_data, cmd_tcp_close}
use ws_usb_linux.Tcp.{
  conn_queue, WrMsg, bytes, shutdown, OutFrame, Writer, receiving, writing, shutting, removing,
  ended, Session, waiting, dialing, delivering, unmapping, refusing, Acceptor, accepting,
  announcing, registering, Tunnel, with_conn, dispatch, route_data, route_close,
}
use ws_usb_linux.Tcp.Tasks.{
  is_ended, push_msg, deliver, resume, write_step, receive, accept, drain, dial_done, command,
  after_failed_send, allocated, has_sender,
}
use ws_usb_linux.Tcp.Outgoing.{data_of, Outgoing, Same, Outgoing-Same, Same-conn, send_peer-Same}
use ws_usb_linux.Tcp.Outgoing.Readers.{spawn_connection-Outgoing}

Holds-Same : (s : Tunnel) (o : Option Tunnel) → Outgoing s → Holds (Same s) o → Holds Outgoing o
Holds-Same s none v h = tt
Holds-Same s (some t) v h = Outgoing-Same s t h v

-- Nothing moves but the map, the counters and the places of the session loop and the acceptor.
aside :
    (s : Tunnel) (conns : ℕ → Option ℕ) (p : Session) (a : Acceptor) (next rx : ℕ)
    → Outgoing s
    → Outgoing
        (record s { conns = conns; session = p; acceptor = a; next_id = next; rx_bytes = rx })
aside s conns p a next rx v = record { complete = v.complete; unused = v.unused; idle = v.idle }

deliver-Outgoing :
    (s : Tunnel) (j i : ℕ) (m : WrMsg) → Outgoing s → Holds Outgoing (deliver s j i m)
unfolding deliver
deliver-Outgoing s j i m v = elim (Bool-cases (is_ended (s.conn j).writer)) [
  | inl over ↦ rw (over, deliver) (failed m)
  | inr runs ↦ elim (Bool-cases (ltb (length (s.conn j).queue) conn_queue)) [
    | inl room ↦
        rw (runs, deliver)
          (rw (room, deliver)
            (aside (with_conn s j (push_msg (s.conn j) m)) s.conns waiting s.acceptor s.next_id
              s.rx_bytes
              (Outgoing-Same s _ (Same-conn s j (push_msg (s.conn j) m) refl refl refl) v)))
    | inr full ↦ rw (runs, deliver) (rw (full, deliver) tt)
  ]
]
  where
    failed : (m : WrMsg) → Outgoing (after_failed_send s i m)
    failed (bytes b) = unfold after_failed_send in aside s _ _ _ _ _ v
    failed shutdown = unfold after_failed_send in aside s _ _ _ _ _ v

pub resume-Outgoing : (p : Session) (s : Tunnel) → Outgoing s → Holds Outgoing (resume p s)
unfolding resume
resume-Outgoing (delivering j i m) s v = deliver-Outgoing s j i m v
resume-Outgoing (unmapping i) s v = aside s _ (refusing i) s.acceptor s.next_id s.rx_bytes v
resume-Outgoing (refusing i) s v =
    Holds-Same (record s { session = waiting }) _
      (aside s s.conns waiting s.acceptor s.next_id s.rx_bytes v)
      (send_peer-Same _ cmd_tcp_close (i ∷ []) refl)
resume-Outgoing waiting s v = tt
resume-Outgoing (dialing i) s v = tt

pub dial_done-Outgoing :
    (p : Session) (ok : Bool) (s : Tunnel) → Outgoing s → Holds Outgoing (dial_done p ok s)
unfolding dial_done
dial_done-Outgoing (dialing i) true s v =
    spawn_connection-Outgoing (record s { session = waiting }) i
      (aside s s.conns waiting s.acceptor s.next_id s.rx_bytes v)
dial_done-Outgoing (dialing i) false s v =
    aside s s.conns (refusing i) s.acceptor s.next_id s.rx_bytes v
dial_done-Outgoing _ ok s v = tt

pub drain-Outgoing :
    (p : Session) (out : List OutFrame) (s : Tunnel)
    → s.out ≡ out
    → Outgoing s
    → Holds Outgoing (drain p true out s)
unfolding drain
drain-Outgoing waiting (f ∷ rest) s e v =
    Outgoing-Same s (record s { out = rest; wire = s.wire ++ f ∷ [] })
      (record {
        spawned_is = refl;
        id_is = λ l. refl;
        reader_is = λ l. refl;
        received_is = λ l. refl;
        data_is =
            λ i. ap (data_of i) (append_assoc s.wire (f ∷ []) rest ∙ ap (λ z. s.wire ++ z) (sym e));
      })
      v
drain-Outgoing _ _ s e v = tt

allocated-Outgoing : (s : Tunnel) (r : Option ℕ × ℕ) → Outgoing s → Outgoing (allocated s r)
unfolding allocated
allocated-Outgoing s (none, next) v = aside s s.conns s.session s.acceptor next s.rx_bytes v
allocated-Outgoing s (some i, next) v = aside s s.conns s.session (announcing i) next s.rx_bytes v

pub accept-Outgoing : (p : Acceptor) (s : Tunnel) → Outgoing s → Holds Outgoing (accept p s)
unfolding accept
accept-Outgoing accepting s v = allocated-Outgoing s _ v
accept-Outgoing (announcing i) s v =
    Holds-Same (record s { acceptor = registering i }) _
      (aside s s.conns s.session (registering i) s.next_id s.rx_bytes v)
      (send_peer-Same _ cmd_tcp_open (i ∷ []) refl)
accept-Outgoing (registering i) s v =
    spawn_connection-Outgoing (record s { acceptor = accepting }) i
      (aside s s.conns s.session accepting s.next_id s.rx_bytes v)

-- A writer leaves the rest of its connection as it is.
Outgoing-writer :
    (s : Tunnel) (j : ℕ) (conns : ℕ → Option ℕ) (q : List WrMsg) (w : Writer) (b : Bytes) (rx : ℕ)
    → Outgoing s
    → Outgoing (record s {
      conns = conns;
      conn = update s.conn j (record (s.conn j) { queue = q; writer = w; written = b });
      rx_bytes = rx;
    })
Outgoing-writer s j conns q w b rx v =
    aside (with_conn s j (record (s.conn j) { queue = q; writer = w; written = b })) conns s.session
      s.acceptor s.next_id rx (Outgoing-Same s _ (Same-conn s j _ refl refl refl) v)

receive-Outgoing :
    (s : Tunnel) (j : ℕ) (q : List WrMsg) → Outgoing s → Holds Outgoing (receive s j q)
unfolding receive
receive-Outgoing s j [] v = elim (Bool-cases (has_sender s j)) [
  | inl held ↦ rw (held, receive) tt
  | inr dropped ↦
      rw (dropped, receive)
        (Outgoing-writer s j s.conns (s.conn j).queue shutting (s.conn j).written s.rx_bytes v)
]
receive-Outgoing s j (bytes b ∷ rest) v =
    Outgoing-writer s j s.conns rest (writing b) (s.conn j).written _ v
receive-Outgoing s j (shutdown ∷ rest) v =
    Outgoing-writer s j s.conns rest shutting (s.conn j).written s.rx_bytes v

pub write_step-Outgoing :
    (w : Writer) (s : Tunnel) (j : ℕ) (ok : Bool)
    → Outgoing s
    → Holds Outgoing (write_step w s j ok)
unfolding write_step
write_step-Outgoing receiving s j ok v = receive-Outgoing s j (s.conn j).queue v
write_step-Outgoing (writing b) s j true v =
    Outgoing-writer s j s.conns (s.conn j).queue receiving _ s.rx_bytes v
write_step-Outgoing (writing b) s j false v =
    Outgoing-writer s j s.conns (s.conn j).queue shutting (s.conn j).written s.rx_bytes v
write_step-Outgoing shutting s j ok v =
    Outgoing-writer s j s.conns (s.conn j).queue removing (s.conn j).written s.rx_bytes v
write_step-Outgoing removing s j ok v =
    Outgoing-writer s j _ (s.conn j).queue ended (s.conn j).written s.rx_bytes v
write_step-Outgoing ended s j ok v = tt

to_session : (s : Tunnel) (p : Session) → Outgoing s → Outgoing (record s { session = p })
to_session s p v = aside s s.conns p s.acceptor s.next_id s.rx_bytes v

route_data-Outgoing :
    (s : Tunnel) (i : ℕ) (body : Bytes) → Outgoing s → Outgoing (route_data s i body)
unfolding route_data
route_data-Outgoing s i [] v = v
route_data-Outgoing s i (b ∷ body) v = elim (Option-cases (s.conns i)) [
  | inl e ↦ rw (e, route_data) v
  | inr (j, e) ↦ rw (e, route_data) (to_session s _ v)
]

route_close-Outgoing : (s : Tunnel) (i : ℕ) → Outgoing s → Outgoing (route_close s i)
unfolding route_close
route_close-Outgoing s i v = elim (Option-cases (s.conns i)) [
  | inl e ↦ rw (e, route_close) v
  | inr (j, e) ↦ rw (e, route_close) (to_session s _ v)
]

if-Outgoing : (b : Bool) (s t : Tunnel) → Outgoing s → Outgoing t → Outgoing (if b then s else t)
if-Outgoing true s t u v = u
if-Outgoing false s t u v = v

pub command-Outgoing :
    (p : Session) (dials : Bool) (cmd i : ℕ) (body : Bytes) (s : Tunnel)
    → Outgoing s
    → Holds Outgoing (command p dials cmd i body s)
unfolding command dispatch
command-Outgoing waiting dials cmd i body s v =
    if-Outgoing (cmd == cmd_tcp_open) _ _ (if-Outgoing dials _ _ (to_session s _ v) v) (
      if-Outgoing (cmd == cmd_tcp_data) _ _ (route_data-Outgoing s i body v)
        (if-Outgoing (cmd == cmd_tcp_close) _ _ (route_close-Outgoing s i v) v))
command-Outgoing _ dials cmd i body s v = tt
