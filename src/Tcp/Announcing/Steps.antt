-- ===== src/Tcp/Announcing/Steps.antt =====
-- src/tcp.rs: the order of OPEN and DATA through the session loop, the writers and the readers.
use ws_usb_linux.Base.{
  ℕ, ◌<◌, ◌≡◌, ◌≢◌, inl, inr, refl, sym, ap, ◌∙◌, Bool, true, false, Option, List, [], ◌∷◌, ◌++◌,
  append_assoc, length, ltb, leb, if◌then◌else◌, Bool-cases, Option-cases, Bytes, ◌==◌,
}
use ws_usb_linux.Base.Maps.{update, Holds}
use ws_usb_linux.Proto.{cmd_tcp_open, cmd_tcp_data, cmd_tcp_close}
use ws_usb_linux.Tcp.{
  out_queue, conn_queue, WrMsg, bytes, shutdown, OutFrame, Writer, receiving, writing, shutting,
  removing, ended, Reader, reading, sending, closing, finished, Conn, Session, waiting, dialing,
  delivering, unmapping, refusing, Tunnel, with_conn, send_peer, dispatch, route_data, route_close,
}
use ws_usb_linux.Tcp.Tasks.{
  is_ended, push_msg, deliver, resume, write_step, receive, read_step, read_done, drain, command,
  after_failed_send, has_sender, read_chunk,
}
use ws_usb_linux.Tcp.Arriving.{next_stage, NoConn}
use ws_usb_linux.Tcp.Announcing.{
  IsOpened, sent_stage, Announced, Announced-Even, Even-quiet, updated_id, stage-sent, close_stage,
  data_stage,
}

pub aside :
    (i : ℕ) (s : Tunnel) (conns : ℕ → Option ℕ) (p : Session) (rx : ℕ)
    → Announced i s
    → Announced i (record s { conns = conns; session = p; rx_bytes = rx })
aside i s conns p rx v = record { before = v.before; between = v.between; behind = v.behind }

conn-Announced :
    (i : ℕ) (s : Tunnel) (j : ℕ) (k : Conn) (tx : ℕ)
    → k.conn_id ≡ (s.conn j).conn_id
    → Announced i s
    → Announced i (record s { conn = update s.conn j k; tx_bytes = tx })
conn-Announced i s j k tx e v =
    Announced-Even i s _ (Even-quiet i s _ refl (updated_id s.conn j k e) refl refl) v

pub sends-Announced :
    (i : ℕ) (s : Tunnel) (cmd : ℕ) (body : Bytes)
    → (NoConn i s
        → next_stage i (sent_stage i s) (record { cmd = cmd; body = body }) ≡ sent_stage i s)
    → (IsOpened (sent_stage i s)
        → IsOpened (next_stage i (sent_stage i s) (record { cmd = cmd; body = body })))
    → Announced i s
    → Holds (Announced i) (send_peer s cmd body)
unfolding send_peer
sends-Announced i s cmd body unseen open_yet v = elim (Bool-cases (ltb (length s.out) out_queue)) [
  | inr full ↦ rw (full, send_peer) tt
  | inl room ↦
      let sent = stage-sent i s (record { cmd = cmd; body = body }) in
      rw (room, send_peer)
        (Announced-Even i s _
          (record {
            spawned_is = refl;
            id_is = λ l. refl;
            registering_is = refl;
            unseen = λ n. sent ∙ unseen n;
            open_yet = λ o. ((open_yet o).0, sent ∙ (open_yet o).1);
          })
          v)
]

-- CLOSE.
closes-Announced :
    (i : ℕ) (s : Tunnel) (body : Bytes)
    → Announced i s
    → Holds (Announced i) (send_peer s cmd_tcp_close body)
closes-Announced i s body v =
    let same = close_stage i (sent_stage i s) body in
    sends-Announced i s cmd_tcp_close body (λ n. same) (λ o. (o.0, same ∙ o.1)) v

deliver-Announced :
    (i : ℕ) (s : Tunnel) (j k : ℕ) (m : WrMsg)
    → Announced i s
    → Holds (Announced i) (deliver s j k m)
unfolding deliver
deliver-Announced i s j k m v = elim (Bool-cases (is_ended (s.conn j).writer)) [
  | inl over ↦ rw (over, deliver) (failed m)
  | inr runs ↦ elim (Bool-cases (ltb (length (s.conn j).queue) conn_queue)) [
    | inl room ↦
        rw (runs, deliver)
          (rw (room, deliver)
            (aside i (with_conn s j (push_msg (s.conn j) m)) s.conns waiting s.rx_bytes
              (conn-Announced i s j (push_msg (s.conn j) m) s.tx_bytes refl v)))
    | inr full ↦ rw (runs, deliver) (rw (full, deliver) tt)
  ]
]
  where
    failed : (m : WrMsg) → Announced i (after_failed_send s k m)
    failed (bytes b) = unfold after_failed_send in aside i s s.conns (unmapping k) s.rx_bytes v
    failed shutdown = unfold after_failed_send in aside i s s.conns waiting s.rx_bytes v

pub resume-Announced :
    (i : ℕ) (p : Session) (s : Tunnel) → Announced i s → Holds (Announced i) (resume p s)
unfolding resume
resume-Announced i (delivering j k m) s v = deliver-Announced i s j k m v
resume-Announced i (unmapping k) s v = aside i s _ (refusing k) s.rx_bytes v
resume-Announced i (refusing k) s v =
    closes-Announced i (record s { session = waiting }) (k ∷ [])
      (aside i s s.conns waiting s.rx_bytes v)
resume-Announced i waiting s v = tt
resume-Announced i (dialing k) s v = tt

pub drain-Announced :
    (i : ℕ) (p : Session) (out : List OutFrame) (s : Tunnel)
    → s.out ≡ out
    → Announced i s
    → Holds (Announced i) (drain p true out s)
unfolding drain
drain-Announced i waiting (f ∷ rest) s e v =
    Announced-Even i s (record s { out = rest; wire = s.wire ++ f ∷ [] })
      (Even-quiet i s (record s { out = rest; wire = s.wire ++ f ∷ [] }) refl (λ l. refl) refl
        (append_assoc s.wire (f ∷ []) rest ∙ ap (λ z. s.wire ++ z) (sym e)))
      v
drain-Announced i _ _ s e v = tt

writer-Announced :
    (i : ℕ) (s : Tunnel) (j : ℕ) (conns : ℕ → Option ℕ) (q : List WrMsg) (w : Writer) (b : Bytes)
    (rx : ℕ)
    → Announced i s
    → Announced i (record s {
      conns = conns;
      conn = update s.conn j (record (s.conn j) { queue = q; writer = w; written = b });
      rx_bytes = rx;
    })
writer-Announced i s j conns q w b rx v =
    aside i (with_conn s j (record (s.conn j) { queue = q; writer = w; written = b })) conns
      s.session rx (conn-Announced i s j _ s.tx_bytes refl v)

receive-Announced :
    (i : ℕ) (s : Tunnel) (j : ℕ) (q : List WrMsg)
    → Announced i s
    → Holds (Announced i) (receive s j q)
unfolding receive
receive-Announced i s j [] v = elim (Bool-cases (has_sender s j)) [
  | inl held ↦ rw (held, receive) tt
  | inr dropped ↦
      rw (dropped, receive)
        (writer-Announced i s j s.conns (s.conn j).queue shutting (s.conn j).written s.rx_bytes v)
]
receive-Announced i s j (bytes b ∷ rest) v =
    writer-Announced i s j s.conns rest (writing b) (s.conn j).written _ v
receive-Announced i s j (shutdown ∷ rest) v =
    writer-Announced i s j s.conns rest shutting (s.conn j).written s.rx_bytes v

pub write_step-Announced :
    (i : ℕ) (w : Writer) (s : Tunnel) (j : ℕ) (ok : Bool)
    → Announced i s
    → Holds (Announced i) (write_step w s j ok)
unfolding write_step
write_step-Announced i receiving s j ok v = receive-Announced i s j (s.conn j).queue v
write_step-Announced i (writing b) s j true v =
    writer-Announced i s j s.conns (s.conn j).queue receiving _ s.rx_bytes v
write_step-Announced i (writing b) s j false v =
    writer-Announced i s j s.conns (s.conn j).queue shutting (s.conn j).written s.rx_bytes v
write_step-Announced i shutting s j ok v =
    writer-Announced i s j s.conns (s.conn j).queue removing (s.conn j).written s.rx_bytes v
write_step-Announced i removing s j ok v =
    writer-Announced i s j _ (s.conn j).queue ended (s.conn j).written s.rx_bytes v
write_step-Announced i ended s j ok v = tt

read_done-Announced :
    (i : ℕ) (s : Tunnel) (j : ℕ) (chunk : Bytes) → Announced i s → Announced i (read_done s j chunk)
unfolding read_done
read_done-Announced i s j [] v = conn-Announced i s j _ s.tx_bytes refl v
read_done-Announced i s j (b ∷ chunk) v = conn-Announced i s j _ _ refl v

-- DATA of a connection that has been spawned.
data-Announced :
    (i : ℕ) (s : Tunnel) (k : ℕ) (chunk : Bytes)
    → (NoConn i s → k ≢ i)
    → Announced i s
    → Holds (Announced i) (send_peer s cmd_tcp_data (k ∷ chunk))
data-Announced i s k chunk known v =
    sends-Announced i s cmd_tcp_data (k ∷ chunk)
      (λ n. data_stage i k (sent_stage i s) chunk (known n))
      (λ o. (_, ap (λ z. next_stage i z (record { cmd = cmd_tcp_data; body = k ∷ chunk })) o.1)) v

pub read_step-Announced :
    (i : ℕ) (r : Reader) (s : Tunnel) (j : ℕ) (chunk : Bytes)
    → (r ≢ finished → j < s.spawned)
    → Announced i s
    → Holds (Announced i) (read_step r s j chunk)
unfolding read_step
read_step-Announced i reading s j chunk h v = elim (Bool-cases (leb (length chunk) read_chunk)) [
  | inl fits ↦ rw (fits, read_step) (read_done-Announced i s j chunk v)
  | inr long ↦ rw (long, read_step) tt
]
read_step-Announced i (sending got) s j _ h v =
    let k : Conn = record (s.conn j) { reader = reading } in
    data-Announced i (with_conn s j k) (s.conn j).conn_id got
      (λ n e. n j (h (λ q. absurd (cc q))) (updated_id s.conn j k refl j ∙ e))
      (conn-Announced i s j k s.tx_bytes refl v)
read_step-Announced i closing s j _ h v =
    let k : Conn = record (s.conn j) { reader = finished } in
    closes-Announced i (with_conn s j k) ((s.conn j).conn_id ∷ [])
      (conn-Announced i s j k s.tx_bytes refl v)
read_step-Announced i finished s j _ h v = tt

to_session :
    (i : ℕ) (s : Tunnel) (p : Session) → Announced i s → Announced i (record s { session = p })
to_session i s p v = aside i s s.conns p s.rx_bytes v

route_data-Announced :
    (i : ℕ) (s : Tunnel) (k : ℕ) (body : Bytes) → Announced i s → Announced i (route_data s k body)
unfolding route_data
route_data-Announced i s k [] v = v
route_data-Announced i s k (b ∷ body) v = elim (Option-cases (s.conns k)) [
  | inl e ↦ rw (e, route_data) v
  | inr (j, e) ↦ rw (e, route_data) (to_session i s _ v)
]

route_close-Announced : (i : ℕ) (s : Tunnel) (k : ℕ) → Announced i s → Announced i (route_close s k)
unfolding route_close
route_close-Announced i s k v = elim (Option-cases (s.conns k)) [
  | inl e ↦ rw (e, route_close) v
  | inr (j, e) ↦ rw (e, route_close) (to_session i s _ v)
]

if-Announced :
    (i : ℕ) (b : Bool) (s t : Tunnel)
    → Announced i s
    → Announced i t
    → Announced i (if b then s else t)
if-Announced i true s t u v = u
if-Announced i false s t u v = v

pub command-Announced :
    (i : ℕ) (p : Session) (cmd k : ℕ) (body : Bytes) (s : Tunnel)
    → Announced i s
    → Holds (Announced i) (command p false cmd k body s)
unfolding command dispatch
command-Announced i waiting cmd k body s v = if-Announced i (cmd == cmd_tcp_open) _ _ v (
    if-Announced i (cmd == cmd_tcp_data) _ _ (route_data-Announced i s k body v)
      (if-Announced i (cmd == cmd_tcp_close) _ _ (route_close-Announced i s k v) v))
command-Announced i _ cmd k body s v = tt
