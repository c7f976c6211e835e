-- ===== src/Tcp/Invariant/Loop.antt =====
-- src/tcp.rs: the invariant through the session loop and the acceptor.
use ws_usb_linux.Base.{
  ℕ, ◌<◌, ◌≡◌, inl, inr, refl, ap, Bool, true, false, Option, none, some, List, ◌∷◌, ◌++◌, length,
  append_assoc, ltb, Bool-cases, ltb→lt, arith, Bytes,
}
use ws_usb_linux.Base.Maps.{update-all, Holds, length-concat}
use ws_usb_linux.Tcp.{
  out_queue, conn_queue, WrMsg, bytes, shutdown, OutFrame, Writer, receiving, writing, shutting,
  removing, ended, Conn, Session, waiting, dialing, delivering, unmapping, refusing, Acceptor,
  accepting, announcing, registering, Tunnel, send_peer, spawn_connection,
}
use ws_usb_linux.Tcp.Tasks.{
  is_ended, payload, push_msg, deliver, resume, accept, drain, dial_done, after_failed_send,
  allocated,
}
use ws_usb_linux.Tcp.Invariant.{
  payloads, payloads-concat, Flow, ConnOk, Inv, Mapped-conn, mapped_without, Inv-elsewhere,
}

pub send_peer-Inv : (s : Tunnel) (cmd : ℕ) (body : Bytes) → Inv s → Holds Inv (send_peer s cmd body)
unfolding send_peer
send_peer-Inv s cmd body v = elim (Bool-cases (ltb (length s.out) out_queue)) [
  | inl room ↦
      rw (room, send_peer)
        (record {
          out_bounded = omega (
            arith,
            length-concat s.out (record { cmd = cmd; body = body }),
            ltb→lt (length s.out) out_queue room,
          );
          conns_ok = v.conns_ok;
          mapped = v.mapped;
        })
  | inr full ↦ rw (full, send_peer) tt
]

spawn_connection-Inv : (s : Tunnel) (conn_id : ℕ) → Inv s → Inv (spawn_connection s conn_id)
unfolding spawn_connection
spawn_connection-Inv s conn_id v = record {
  out_bounded = v.out_bounded;
  conns_ok =
      update-all ConnOk s.conn s.spawned _ v.conns_ok
        (record { bounded = omega arith; flow = refl });
  mapped = λ i l e. ground (arith, v.mapped i l);
}

push-Flow : (w : Writer) (k : Conn) (m : WrMsg) → Flow w k → Flow w (push_msg k m)
push-Flow receiving k m h = rw (payloads-concat, ← append_assoc, ← h) refl
push-Flow (writing b) k m h =
    rw (payloads-concat, ← append_assoc b (payloads k.queue), ← append_assoc, ← h) refl
push-Flow shutting k m h = (h.0 ++ payload m, rw h.1 (append_assoc k.written h.0 (payload m)))
push-Flow removing k m h = (h.0 ++ payload m, rw h.1 (append_assoc k.written h.0 (payload m)))
push-Flow ended k m h = (h.0 ++ payload m, rw h.1 (append_assoc k.written h.0 (payload m)))

push_msg-ConnOk :
    (k : Conn) (m : WrMsg) → ConnOk k → length k.queue < conn_queue → ConnOk (push_msg k m)
push_msg-ConnOk k m v room = record {
  bounded = omega (arith, length-concat k.queue m);
  flow = push-Flow k.writer k m v.flow;
}

after_failed_send-Inv :
    (s : Tunnel) (conn_id : ℕ) (m : WrMsg) → Inv s → Inv (after_failed_send s conn_id m)
unfolding after_failed_send
after_failed_send-Inv s conn_id (bytes b) v =
    Inv-elsewhere s (unmapping conn_id) s.acceptor s.next_id v
after_failed_send-Inv s conn_id shutdown v = Inv-elsewhere s waiting s.acceptor s.next_id v

deliver-Inv : (s : Tunnel) (j conn_id : ℕ) (m : WrMsg) → Inv s → Holds Inv (deliver s j conn_id m)
unfolding deliver
deliver-Inv s j conn_id m v = elim (Bool-cases (is_ended (s.conn j).writer)) [
  | inl over ↦ rw (over, deliver) (after_failed_send-Inv s conn_id m v)
  | inr runs ↦ elim (Bool-cases (ltb (length (s.conn j).queue) conn_queue)) [
    | inl room ↦
        rw (runs, deliver)
          (rw (room, deliver)
            (record {
              out_bounded = v.out_bounded;
              conns_ok =
                  update-all ConnOk s.conn j _ v.conns_ok
                    (push_msg-ConnOk (s.conn j) m (v.conns_ok j) (ltb→lt _ _ room));
              mapped = Mapped-conn s j (push_msg (s.conn j) m) v (λ i e k. k);
            }))
    | inr full ↦ rw (runs, deliver) (rw (full, deliver) tt)
  ]
]

pub resume-Inv : (p : Session) (s : Tunnel) → Inv s → Holds Inv (resume p s)
unfolding resume
resume-Inv (delivering j conn_id m) s v = deliver-Inv s j conn_id m v
resume-Inv (unmapping conn_id) s v = record {
  out_bounded = v.out_bounded;
  conns_ok = v.conns_ok;
  mapped = mapped_without s.conns conn_id _ v.mapped;
}
resume-Inv (refusing conn_id) s v =
    send_peer-Inv (record s { session = waiting }) _ _
      (Inv-elsewhere s waiting s.acceptor s.next_id v)
resume-Inv _ s v = tt

pub drain-Inv :
    (p : Session) (ok : Bool) (out : List OutFrame) (s : Tunnel)
    → s.out ≡ out
    → Inv s
    → Holds Inv (drain p ok out s)
unfolding drain
drain-Inv waiting true (f ∷ rest) s e v = record {
  out_bounded = omega (arith, ap length e, v.out_bounded);
  conns_ok = v.conns_ok;
  mapped = v.mapped;
}
drain-Inv waiting false (f ∷ rest) s e v = record {
  out_bounded = omega (arith, ap length e, v.out_bounded);
  conns_ok = v.conns_ok;
  mapped = v.mapped;
}
drain-Inv _ ok _ s e v = tt

pub dial_done-Inv : (p : Session) (ok : Bool) (s : Tunnel) → Inv s → Holds Inv (dial_done p ok s)
unfolding dial_done
dial_done-Inv (dialing conn_id) true s v =
    spawn_connection-Inv (record s { session = waiting }) conn_id
      (Inv-elsewhere s waiting s.acceptor s.next_id v)
dial_done-Inv (dialing conn_id) false s v =
    Inv-elsewhere s (refusing conn_id) s.acceptor s.next_id v
dial_done-Inv _ ok s v = tt

allocated-Inv : (s : Tunnel) (r : Option ℕ × ℕ) → Inv s → Inv (allocated s r)
unfolding allocated
allocated-Inv s (none, next) v = Inv-elsewhere s s.session s.acceptor next v
allocated-Inv s (some conn_id, next) v = Inv-elsewhere s s.session (announcing conn_id) next v

pub accept-Inv : (p : Acceptor) (s : Tunnel) → Inv s → Holds Inv (accept p s)
unfolding accept
accept-Inv accepting s v = allocated-Inv s _ v
accept-Inv (announcing conn_id) s v =
    send_peer-Inv (record s { acceptor = registering conn_id }) _ _
      (Inv-elsewhere s s.session (registering conn_id) s.next_id v)
accept-Inv (registering conn_id) s v =
    spawn_connection-Inv (record s { acceptor = accepting }) conn_id
      (Inv-elsewhere s s.session accepting s.next_id v)
