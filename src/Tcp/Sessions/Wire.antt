-- ===== src/Tcp/Sessions/Wire.antt =====
-- src/tcp.rs: what the websocket takes with each step of the tunnel.
use ws_usb_linux.Base.{
  ℕ, ◌≡◌, inl, inr, refl, sym, ◌∙◌, Bool, true, false, Option, none, some, List, [], ◌∷◌, ◌++◌,
  length, append-nil, ltb, leb, Option-cases, Bool-cases, Bytes, if◌then◌else◌, ◌==◌,
}
use ws_usb_linux.Base.Maps.{Holds, Holds-some}
use ws_usb_linux.Proto.{cmd_tcp_open, cmd_tcp_data, cmd_tcp_close}
use ws_usb_linux.Tcp.{
  out_queue, conn_queue, WrMsg, bytes, shutdown, OutFrame, Writer, receiving, writing, shutting,
  removing, ended, Reader, reading, sending, closing, finished, Session, waiting, dialing,
  delivering, unmapping, refusing, Acceptor, accepting, announcing, registering, Tunnel, send_peer,
  spawn_connection, dispatch, route_data, route_close,
}
use ws_usb_linux.Tcp.Tasks.{
  Event, incoming, continue, dialed, sent, accepts, writes, reads, step, drain, command, resume,
  deliver, after_failed_send, dial_done, accept, allocated, receive, write_step, read_step,
  read_done, has_sender, read_chunk, is_ended,
}
use ws_usb_linux.Tcp.Sessions.{Sent, peer_frame, taken}

abbrev pub frames : List Sent → List OutFrame
frames [] = []
frames (peer_frame f ∷ rest) = f ∷ frames rest
frames (_ ∷ rest) = frames rest

-- Nothing was taken.
abbrev Kept : Tunnel → Tunnel → Type 0
Kept s t = t.wire ≡ s.wire

if-Kept : (b : Bool) (s t u : Tunnel) → Kept s t → Kept s u → Kept s (if b then t else u)
if-Kept true s t u h k = h
if-Kept false s t u h k = k

send_peer-Kept : (s : Tunnel) (cmd : ℕ) (body : Bytes) → Holds (Kept s) (send_peer s cmd body)
unfolding send_peer
send_peer-Kept s cmd body = elim (Bool-cases (ltb (length s.out) out_queue)) [
  | inl room ↦ rw (room, send_peer) refl
  | inr full ↦ rw (full, send_peer) tt
]

after_failed_send-Kept : (s : Tunnel) (i : ℕ) (m : WrMsg) → Kept s (after_failed_send s i m)
unfolding after_failed_send
after_failed_send-Kept s i (bytes b) = refl
after_failed_send-Kept s i shutdown = refl

deliver-Kept : (s : Tunnel) (j i : ℕ) (m : WrMsg) → Holds (Kept s) (deliver s j i m)
unfolding deliver
deliver-Kept s j i m = elim (Bool-cases (is_ended (s.conn j).writer)) [
  | inl over ↦ rw (over, deliver) (after_failed_send-Kept s i m)
  | inr runs ↦ elim (Bool-cases (ltb (length (s.conn j).queue) conn_queue)) [
    | inl room ↦ rw (runs, deliver) (rw (room, deliver) refl)
    | inr full ↦ rw (runs, deliver) (rw (full, deliver) tt)
  ]
]

resume-Kept : (p : Session) (s : Tunnel) → Holds (Kept s) (resume p s)
unfolding resume
resume-Kept (delivering j i m) s = deliver-Kept s j i m
resume-Kept (unmapping i) s = refl
resume-Kept (refusing i) s = send_peer-Kept (record s { session = waiting }) _ _
resume-Kept waiting s = tt
resume-Kept (dialing i) s = tt

dial_done-Kept : (p : Session) (ok : Bool) (s : Tunnel) → Holds (Kept s) (dial_done p ok s)
unfolding dial_done spawn_connection
dial_done-Kept (dialing i) true s = refl
dial_done-Kept (dialing i) false s = refl
dial_done-Kept waiting ok s = tt
dial_done-Kept (delivering j i m) ok s = tt
dial_done-Kept (unmapping i) ok s = tt
dial_done-Kept (refusing i) ok s = tt

route_data-Kept : (s : Tunnel) (i : ℕ) (body : Bytes) → Kept s (route_data s i body)
unfolding route_data
route_data-Kept s i [] = refl
route_data-Kept s i (b ∷ body) = elim (Option-cases (s.conns i)) [
  | inl e ↦ rw (e, route_data) refl
  | inr (j, e) ↦ rw (e, route_data) refl
]

route_close-Kept : (s : Tunnel) (i : ℕ) → Kept s (route_close s i)
unfolding route_close
route_close-Kept s i = elim (Option-cases (s.conns i)) [
  | inl e ↦ rw (e, route_close) refl
  | inr (j, e) ↦ rw (e, route_close) refl
]

command-Kept :
    (p : Session) (dials : Bool) (cmd i : ℕ) (body : Bytes) (s : Tunnel)
    → Holds (Kept s) (command p dials cmd i body s)
unfolding command dispatch
command-Kept waiting dials cmd i body s =
    if-Kept (cmd == cmd_tcp_open) s _ _ (if-Kept dials s _ _ refl refl) (
      if-Kept (cmd == cmd_tcp_data) s _ _ (route_data-Kept s i body)
        (if-Kept (cmd == cmd_tcp_close) s _ _ (route_close-Kept s i) refl))
command-Kept (dialing k) dials cmd i body s = tt
command-Kept (delivering j k m) dials cmd i body s = tt
command-Kept (unmapping k) dials cmd i body s = tt
command-Kept (refusing k) dials cmd i body s = tt

allocated-Kept : (s : Tunnel) (r : Option ℕ × ℕ) → Kept s (allocated s r)
unfolding allocated
allocated-Kept s (none, next) = refl
allocated-Kept s (some i, next) = refl

accept-Kept : (p : Acceptor) (s : Tunnel) → Holds (Kept s) (accept p s)
unfolding accept spawn_connection
accept-Kept accepting s = allocated-Kept s _
accept-Kept (announcing i) s = send_peer-Kept (record s { acceptor = registering i }) _ _
accept-Kept (registering i) s = refl

receive-Kept : (s : Tunnel) (j : ℕ) (q : List WrMsg) → Holds (Kept s) (receive s j q)
unfolding receive
receive-Kept s j [] = elim (Bool-cases (has_sender s j)) [
  | inl held ↦ rw (held, receive) tt
  | inr dropped ↦ rw (dropped, receive) refl
]
receive-Kept s j (bytes b ∷ rest) = refl
receive-Kept s j (shutdown ∷ rest) = refl

write_step-Kept :
    (w : Writer) (s : Tunnel) (j : ℕ) (ok : Bool) → Holds (Kept s) (write_step w s j ok)
unfolding write_step
write_step-Kept receiving s j ok = receive-Kept s j (s.conn j).queue
write_step-Kept (writing b) s j true = refl
write_step-Kept (writing b) s j false = refl
write_step-Kept shutting s j ok = refl
write_step-Kept removing s j ok = refl
write_step-Kept ended s j ok = tt

read_done-Kept : (s : Tunnel) (j : ℕ) (chunk : Bytes) → Kept s (read_done s j chunk)
unfolding read_done
read_done-Kept s j [] = refl
read_done-Kept s j (b ∷ chunk) = refl

read_step-Kept :
    (r : Reader) (s : Tunnel) (j : ℕ) (chunk : Bytes) → Holds (Kept s) (read_step r s j chunk)
unfolding read_step
read_step-Kept reading s j chunk = elim (Bool-cases (leb (length chunk) read_chunk)) [
  | inl fits ↦ rw (fits, read_step) (read_done-Kept s j chunk)
  | inr long ↦ rw (long, read_step) tt
]
read_step-Kept (sending got) s j chunk = send_peer-Kept _ _ _
read_step-Kept closing s j chunk = send_peer-Kept _ _ _
read_step-Kept finished s j chunk = tt

abbrev Took : Event → Tunnel → Tunnel → Type 0
Took e s t = t.wire ≡ s.wire ++ frames (taken e s.out)

Took-of_Kept :
    (s : Tunnel) (o : Option Tunnel) → Holds (Kept s) o → Holds (λ t. t.wire ≡ s.wire ++ []) o
Took-of_Kept s none h = tt
Took-of_Kept s (some t) h = h ∙ sym (append-nil s.wire)

drain-Took :
    (p : Session) (ok : Bool) (out : List OutFrame) (s : Tunnel)
    → Holds (λ t. t.wire ≡ s.wire ++ frames (taken (sent ok) out)) (drain p ok out s)
unfolding drain taken
drain-Took waiting true (f ∷ rest) s = refl
drain-Took waiting false (f ∷ rest) s = sym (append-nil s.wire)
drain-Took waiting true [] s = tt
drain-Took waiting false [] s = tt
drain-Took (dialing i) ok out s = tt
drain-Took (delivering j i m) ok out s = tt
drain-Took (unmapping i) ok out s = tt
drain-Took (refusing i) ok out s = tt

step-Took : (dials : Bool) (s : Tunnel) (e : Event) → Holds (Took e s) (step dials s e)
unfolding step taken
step-Took dials s (incoming cmd i body) =
    Took-of_Kept s _ (command-Kept s.session dials cmd i body s)
step-Took dials s continue = Took-of_Kept s _ (resume-Kept s.session s)
step-Took dials s (dialed ok) = Took-of_Kept s _ (dial_done-Kept s.session ok s)
step-Took dials s (sent ok) = drain-Took s.session ok s.out s
step-Took dials s accepts = Took-of_Kept s _ (accept-Kept s.acceptor s)
step-Took dials s (writes j ok) = Took-of_Kept s _ (write_step-Kept (s.conn j).writer s j ok)
step-Took dials s (reads j chunk) = Took-of_Kept s _ (read_step-Kept (s.conn j).reader s j chunk)

pub step_wire :
    (dials : Bool) (s t : Tunnel) (e : Event)
    → step dials s e ≡ some t
    → t.wire ≡ s.wire ++ frames (taken e s.out)
step_wire dials s t e = Holds-some (Took e s) (step dials s e) t (step-Took dials s e)
