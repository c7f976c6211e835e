-- ===== src/Tcp/Listening.antt =====
-- src/tcp.rs: the listening side, where no dial target is set, and the ids that it allocates.
use ws_usb_linux.Tcp.Alloc.{alloc_conn_id-FirstFree, alloc_conn_id-lt}
use ws_usb_linux.Base.{
  ℕ, ◌<◌, ◌≡◌, inl, inr, refl, sym, ap, subst, ◌∙◌, Bool, true, false, Option, none, some, List, [],
  ◌∷◌, length, ltb, leb, if◌then◌else◌, Bool-cases, Option-cases, arith, Bytes, ◌==◌,
}
use ws_usb_linux.Base.Maps.{update, Holds, Holds-some}
use ws_usb_linux.Proto.{cmd_tcp_open, cmd_tcp_data, cmd_tcp_close}
use ws_usb_linux.Tcp.{
  out_queue, conn_queue, WrMsg, bytes, shutdown, OutFrame, Writer, receiving, writing, shutting,
  removing, ended, Reader, reading, sending, closing, finished, Session, waiting, dialing,
  delivering, unmapping, refusing, Acceptor, accepting, announcing, registering, Tunnel, send_peer,
  spawn_connection, dispatch, start, route_data, route_close,
}
use ws_usb_linux.Tcp.Tasks.{
  is_ended, Event, incoming, continue, dialed, sent, accepts, writes, reads, step, run, deliver,
  resume, read_step, write_step, receive, accept, drain, dial_done, command, after_failed_send,
  allocated, read_done, read_chunk, has_sender,
}

-- The id that the acceptor has allocated and not registered yet.
abbrev pub allocated_id : Acceptor → Option ℕ
allocated_id accepting = none
allocated_id (announcing i) = some i
allocated_id (registering i) = some i

abbrev pub is_dialing : Session → Bool
is_dialing (dialing i) = true
is_dialing _ = false

pub record IsListening (s : Tunnel) : Type 0 where
  pub small : s.next_id < 256
  pub no_dial : is_dialing s.session ≡ false
  pub fresh : (i : ℕ) → allocated_id s.acceptor ≡ some i → s.conns i ≡ none

-- What does not allocate keeps it, as long as it only takes entries away.
quiet :
    (s t : Tunnel)
    → IsListening s
    → t.next_id ≡ s.next_id
    → is_dialing t.session ≡ false
    → t.acceptor ≡ s.acceptor
    → ((i : ℕ) → s.conns i ≡ none → t.conns i ≡ none)
    → IsListening t
quiet s t v n p a c = record {
  small = rw n v.small;
  no_dial = p;
  fresh = λ i e. c i (v.fresh i (ap allocated_id (sym a) ∙ e));
}

without : (conns : ℕ → Option ℕ) (k i : ℕ) → conns i ≡ none → update conns k none i ≡ none
without conns k i e = ground arith

send_peer-quiet :
    (s : Tunnel) (cmd : ℕ) (body : Bytes) → IsListening s → Holds IsListening (send_peer s cmd body)
unfolding send_peer
send_peer-quiet s cmd body v = elim (Bool-cases (ltb (length s.out) out_queue)) [
  | inl room ↦ rw (room, send_peer) (quiet s _ v refl v.no_dial refl (λ i e. e))
  | inr full ↦ rw (full, send_peer) tt
]

deliver-quiet :
    (s : Tunnel) (j conn_id : ℕ) (m : WrMsg)
    → IsListening s
    → Holds IsListening (deliver s j conn_id m)
unfolding deliver
deliver-quiet s j conn_id m v = elim (Bool-cases (is_ended (s.conn j).writer)) [
  | inl over ↦ rw (over, deliver) (failed m)
  | inr runs ↦ elim (Bool-cases (ltb (length (s.conn j).queue) conn_queue)) [
    | inl room ↦ rw (runs, deliver) (rw (room, deliver) (quiet s _ v refl refl refl (λ i e. e)))
    | inr full ↦ rw (runs, deliver) (rw (full, deliver) tt)
  ]
]
  where
    failed : (m : WrMsg) → IsListening (after_failed_send s conn_id m)
    failed (bytes b) = unfold after_failed_send in quiet s _ v refl refl refl (λ i e. e)
    failed shutdown = unfold after_failed_send in quiet s _ v refl refl refl (λ i e. e)

resume-quiet : (p : Session) (s : Tunnel) → IsListening s → Holds IsListening (resume p s)
unfolding resume
resume-quiet (delivering j conn_id m) s v = deliver-quiet s j conn_id m v
resume-quiet (unmapping conn_id) s v = quiet s _ v refl refl refl (without s.conns conn_id)
resume-quiet (refusing conn_id) s v =
    send_peer-quiet (record s { session = waiting }) _ _ (quiet s _ v refl refl refl (λ i e. e))
resume-quiet _ s v = tt

dial_done-quiet :
    (p : Session) (ok : Bool) (s : Tunnel)
    → is_dialing p ≡ false
    → Holds IsListening (dial_done p ok s)
unfolding dial_done
dial_done-quiet (dialing conn_id) ok s h = absurd (cc)
dial_done-quiet _ ok s h = tt

drain-quiet :
    (p : Session) (ok : Bool) (out : List OutFrame) (s : Tunnel)
    → IsListening s
    → Holds IsListening (drain p ok out s)
unfolding drain
drain-quiet waiting true (f ∷ rest) s v = quiet s _ v refl v.no_dial refl (λ i e. e)
drain-quiet waiting false (f ∷ rest) s v = quiet s _ v refl v.no_dial refl (λ i e. e)
drain-quiet _ ok _ s v = tt

allocated-IsListening :
    (s : Tunnel) (r : Option ℕ × ℕ)
    → IsListening s
    → r.1 < 256
    → ((i : ℕ) → r.0 ≡ some i → s.conns i ≡ none)
    → IsListening (allocated s r)
unfolding allocated
allocated-IsListening s (none, next) v lt free = record {
  small = lt;
  no_dial = v.no_dial;
  fresh = v.fresh;
}
allocated-IsListening s (some conn_id, next) v lt free = record {
  small = lt;
  no_dial = v.no_dial;
  fresh = free;
}

accept-IsListening :
    (p : Acceptor) (s : Tunnel) → s.acceptor ≡ p → IsListening s → Holds IsListening (accept p s)
unfolding accept spawn_connection
accept-IsListening accepting s e v =
    allocated-IsListening s _ v (alloc_conn_id-lt s.conns s.next_id v.small)
      (λ i q. (alloc_conn_id-FirstFree s.conns s.next_id i v.small q).free)
accept-IsListening (announcing conn_id) s e v =
    send_peer-quiet (record s { acceptor = registering conn_id }) _ _
      (record {
        small = v.small;
        no_dial = v.no_dial;
        fresh = λ i q. v.fresh i (ap allocated_id e ∙ q);
      })
accept-IsListening (registering conn_id) s e v = record {
  small = v.small;
  no_dial = v.no_dial;
  fresh = λ i q. absurd (cc);
}

write_step-quiet :
    (w : Writer) (s : Tunnel) (j : ℕ) (ok : Bool)
    → IsListening s
    → Holds IsListening (write_step w s j ok)
unfolding write_step
write_step-quiet receiving s j ok v = receive-quiet (s.conn j).queue
  where
    receive-quiet : (q : List WrMsg) → Holds IsListening (receive s j q)
    receive-quiet [] = elim (Bool-cases (has_sender s j)) [
      | inl held ↦ unfold receive in rw (held, receive) tt
      | inr gone ↦ unfold receive in rw (gone, receive) (quiet s _ v refl v.no_dial refl (λ i e. e))
    ]
    receive-quiet (bytes b ∷ rest) = unfold receive in quiet s _ v refl v.no_dial refl (λ i e. e)
    receive-quiet (shutdown ∷ rest) = unfold receive in quiet s _ v refl v.no_dial refl (λ i e. e)
write_step-quiet (writing b) s j true v = quiet s _ v refl v.no_dial refl (λ i e. e)
write_step-quiet (writing b) s j false v = quiet s _ v refl v.no_dial refl (λ i e. e)
write_step-quiet shutting s j ok v = quiet s _ v refl v.no_dial refl (λ i e. e)
write_step-quiet removing s j ok v =
    quiet s _ v refl v.no_dial refl (without s.conns (s.conn j).conn_id)
write_step-quiet ended s j ok v = tt

read_done-quiet :
    (s : Tunnel) (j : ℕ) (chunk : Bytes) → IsListening s → IsListening (read_done s j chunk)
unfolding read_done
read_done-quiet s j [] v = quiet s _ v refl v.no_dial refl (λ i e. e)
read_done-quiet s j (b ∷ chunk) v = quiet s _ v refl v.no_dial refl (λ i e. e)

read_step-quiet :
    (r : Reader) (s : Tunnel) (j : ℕ) (chunk : Bytes)
    → IsListening s
    → Holds IsListening (read_step r s j chunk)
unfolding read_step
read_step-quiet reading s j chunk v = elim (Bool-cases (leb (length chunk) read_chunk)) [
  | inl fits ↦ rw (fits, read_step) (read_done-quiet s j chunk v)
  | inr long ↦ rw (long, read_step) tt
]
read_step-quiet (sending got) s j _ v =
    send_peer-quiet _ _ _ (quiet s _ v refl v.no_dial refl (λ i e. e))
read_step-quiet closing s j _ v = send_peer-quiet _ _ _ (quiet s _ v refl v.no_dial refl (λ i e. e))
read_step-quiet finished s j _ v = tt

route_data-quiet :
    (s : Tunnel) (conn_id : ℕ) (body : Bytes)
    → IsListening s
    → IsListening (route_data s conn_id body)
unfolding route_data
route_data-quiet s conn_id [] v = v
route_data-quiet s conn_id (b ∷ body) v = elim (Option-cases (s.conns conn_id)) [
  | inl e ↦ rw (e, route_data) v
  | inr (j, e) ↦ rw (e, route_data) (quiet s _ v refl refl refl (λ i q. q))
]

route_close-quiet : (s : Tunnel) (conn_id : ℕ) → IsListening s → IsListening (route_close s conn_id)
unfolding route_close
route_close-quiet s conn_id v = elim (Option-cases (s.conns conn_id)) [
  | inl e ↦ rw (e, route_close) v
  | inr (j, e) ↦ rw (e, route_close) (quiet s _ v refl refl refl (λ i q. q))
]

if-quiet :
    (b : Bool) (s t : Tunnel) → IsListening s → IsListening t → IsListening (if b then s else t)
if-quiet true s t u v = u
if-quiet false s t u v = v

command-quiet :
    (p : Session) (cmd conn_id : ℕ) (body : Bytes) (s : Tunnel)
    → IsListening s
    → Holds IsListening (command p false cmd conn_id body s)
unfolding command dispatch
command-quiet waiting cmd conn_id body s v = if-quiet (cmd == cmd_tcp_open) _ _ v (
    if-quiet (cmd == cmd_tcp_data) _ _ (route_data-quiet s conn_id body v)
      (if-quiet (cmd == cmd_tcp_close) _ _ (route_close-quiet s conn_id v) v))
command-quiet _ cmd conn_id body s v = tt

pub step-IsListening : (s : Tunnel) (e : Event) → IsListening s → Holds IsListening (step false s e)
unfolding step
step-IsListening s (incoming cmd conn_id body) v = command-quiet s.session cmd conn_id body s v
step-IsListening s continue v = resume-quiet s.session s v
step-IsListening s (dialed ok) v = dial_done-quiet s.session ok s v.no_dial
step-IsListening s (sent ok) v = drain-quiet s.session ok s.out s v
step-IsListening s accepts v = accept-IsListening s.acceptor s refl v
step-IsListening s (writes j ok) v = write_step-quiet (s.conn j).writer s j ok v
step-IsListening s (reads j chunk) v = read_step-quiet (s.conn j).reader s j chunk v

run-IsListening :
    (es : List Event) (s t : Tunnel) → IsListening s → run false s es ≡ some t → IsListening t
unfolding run
run-IsListening [] s t v e = subst IsListening {x = s} (ground arith) v
run-IsListening (ev ∷ es) s t v e = elim (Option-cases (step false s ev)) [
  | inl stuck ↦ absurd (cc (rw (stuck, run) at e))
  | inr (u, q) ↦
      run-IsListening es u t
        (Holds-some IsListening (step false s ev) u (step-IsListening s ev v) q) (rw (q, run) at e)
]

-- After any run from the start on the listening side, an id that the acceptor has allocated and
-- not yet registered is not in the map.
allocated-fresh :
    (es : List Event) (t : Tunnel) (conn_id : ℕ)
    → run false start es ≡ some t
    → allocated_id t.acceptor ≡ some conn_id
    → t.conns conn_id ≡ none
allocated-fresh es t conn_id e =
    (run-IsListening es start t
        (record { small = omega arith; no_dial = refl; fresh = λ i q. refl }) e).fresh
      conn_id

-- After any run from the start on the listening side, from the moment when the acceptor has allocated
-- an id until it has spawned the connection, so also when OPEN is already on the wire, DATA that
-- arrives for this id is dropped without an answer: the tunnel stays as it is.
pub unregistered-dropped :
    (es : List Event) (t : Tunnel) (conn_id : ℕ) (payload : Bytes)
    → run false start es ≡ some t
    → allocated_id t.acceptor ≡ some conn_id
    → t.session ≡ waiting
    → step false t (incoming cmd_tcp_data conn_id payload) ≡ some t
unfolding step command dispatch
unregistered-dropped es t conn_id payload e a w =
    ap (λ p. command p false cmd_tcp_data conn_id payload t) w ∙ ap some (unmapped payload)
  where
    unmapped : (payload : Bytes) → route_data t conn_id payload ≡ t
    unmapped [] = unfold route_data in refl
    unmapped (b ∷ rest) = rw (allocated-fresh es t conn_id e a, route_data) refl
