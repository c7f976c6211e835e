-- ===== src/Tcp/Arriving/Runs.antt =====
-- src/tcp.rs: what has arrived, through every run of the side that dials.
use ws_usb_linux.Base.{
  ℕ, ◌≡◌, inl, inr, refl, ap, subst, ◌∙◌, Bool, true, false, Option, some, List, [], ◌∷◌, length,
  leb, Bool-cases, Option-cases, arith, Bytes, ◌==◌,
}
use ws_usb_linux.Base.Maps.{update, update_hit, update_miss, Holds, Holds-some}
use ws_usb_linux.Tcp.{
  WrMsg, bytes, shutdown, Writer, receiving, writing, shutting, removing, ended, Reader, reading,
  sending, closing, finished, Conn, Tunnel, with_conn, start, send_peer,
}
use ws_usb_linux.Tcp.Tasks.{
  Event, incoming, continue, dialed, sent, accepts, writes, reads, step, run, write_step, receive,
  read_step, read_done, has_sender, read_chunk,
}
use ws_usb_linux.Tcp.Invariant.{Inv, mapped_without}
use ws_usb_linux.Tcp.Invariant.Steps.{step-Inv, start-Inv}
use ws_usb_linux.Tcp.Arriving.{Stage, unopened, stage, arrivals, Arrived}
use ws_usb_linux.Tcp.Arriving.Moves.{Still, Arrived-Still}
use ws_usb_linux.Tcp.Arriving.Loop.{
  Holds-Still, send_peer-Still, drain-Still, resume-Arrived, dial_done-Arrived,
}
use ws_usb_linux.Tcp.Arriving.Commands.{command-Arrived}

-- A connection's own task moves, and may take an entry off the map.
pub Still-conn :
    (s : Tunnel) (j : ℕ) (k : Conn) (conns : ℕ → Option ℕ) (tx rx : ℕ)
    → k.conn_id ≡ (s.conn j).conn_id
    → k.routed ≡ (s.conn j).routed
    → ((a b : ℕ) → conns a ≡ some b → s.conns a ≡ some b)
    → Still s (record s { conns = conns; conn = update s.conn j k; tx_bytes = tx; rx_bytes = rx })
Still-conn s j k conns tx rx a b c = record {
  spawned_is = refl;
  id_is = λ l. elim (Bool-cases (j == l)) [
    | inl same ↦
        ap (λ c. c.conn_id) (update_hit s.conn j k l same)
        ∙ a
        ∙ ap (λ z. (s.conn z).conn_id) (ground arith)
    | inr other ↦ ap (λ c. c.conn_id) (update_miss s.conn j k l other)
  ];
  routed_is = λ l. elim (Bool-cases (j == l)) [
    | inl same ↦
        ap (λ c. c.routed) (update_hit s.conn j k l same)
        ∙ b
        ∙ ap (λ z. (s.conn z).routed) (ground arith)
    | inr other ↦ ap (λ c. c.routed) (update_miss s.conn j k l other)
  ];
  shrinks = c;
  session_is = refl;
}

receive-Still : (s : Tunnel) (j : ℕ) (q : List WrMsg) → Holds (Still s) (receive s j q)
unfolding receive
receive-Still s j [] = elim (Bool-cases (has_sender s j)) [
  | inl held ↦ rw (held, receive) tt
  | inr dropped ↦
      rw (dropped, receive) (Still-conn s j _ s.conns s.tx_bytes s.rx_bytes refl refl (λ a b e. e))
]
receive-Still s j (bytes b ∷ rest) = Still-conn s j _ s.conns s.tx_bytes _ refl refl (λ a b e. e)
receive-Still s j (shutdown ∷ rest) =
    Still-conn s j _ s.conns s.tx_bytes s.rx_bytes refl refl (λ a b e. e)

pub write_step-Still :
    (w : Writer) (s : Tunnel) (j : ℕ) (ok : Bool) → Holds (Still s) (write_step w s j ok)
unfolding write_step
write_step-Still receiving s j ok = receive-Still s j (s.conn j).queue
write_step-Still (writing b) s j true =
    Still-conn s j _ s.conns s.tx_bytes s.rx_bytes refl refl (λ a b e. e)
write_step-Still (writing b) s j false =
    Still-conn s j _ s.conns s.tx_bytes s.rx_bytes refl refl (λ a b e. e)
write_step-Still shutting s j ok =
    Still-conn s j _ s.conns s.tx_bytes s.rx_bytes refl refl (λ a b e. e)
write_step-Still removing s j ok =
    Still-conn s j _ _ s.tx_bytes s.rx_bytes refl refl
      (mapped_without s.conns (s.conn j).conn_id (λ a b. s.conns a ≡ some b) (λ a b e. e))
write_step-Still ended s j ok = tt

pub read_done-Still : (s : Tunnel) (j : ℕ) (chunk : Bytes) → Still s (read_done s j chunk)
unfolding read_done
read_done-Still s j [] = Still-conn s j _ s.conns s.tx_bytes s.rx_bytes refl refl (λ a b e. e)
read_done-Still s j (b ∷ chunk) = Still-conn s j _ s.conns _ s.rx_bytes refl refl (λ a b e. e)

-- The reader goes on and sends.
sends-Arrived :
    (i : ℕ) (st : Stage) (s : Tunnel) (j : ℕ) (r : Reader) (cmd : ℕ) (body : Bytes)
    → Arrived i st s
    → Holds (Arrived i st) (send_peer (with_conn s j (record (s.conn j) { reader = r })) cmd body)
sends-Arrived i st s j r cmd body v =
    Holds-Still i st _ _
      (Arrived-Still i st s _
        (Still-conn s j (record (s.conn j) { reader = r }) s.conns s.tx_bytes s.rx_bytes refl refl
          (λ a b e. e))
        v)
      (send_peer-Still _ cmd body)

read_step-Arrived :
    (i : ℕ) (st : Stage) (r : Reader) (s : Tunnel) (j : ℕ) (chunk : Bytes)
    → Arrived i st s
    → Holds (Arrived i st) (read_step r s j chunk)
unfolding read_step
read_step-Arrived i st reading s j chunk v = elim (Bool-cases (leb (length chunk) read_chunk)) [
  | inl fits ↦ rw (fits, read_step) (Arrived-Still i st s _ (read_done-Still s j chunk) v)
  | inr long ↦ rw (long, read_step) tt
]
read_step-Arrived i st (sending got) s j _ v = sends-Arrived i st s j reading _ _ v
read_step-Arrived i st closing s j _ v = sends-Arrived i st s j finished _ _ v
read_step-Arrived i st finished s j _ v = tt

-- The side that dials has no acceptor.
abbrev pub NoAccepts : List Event → Type 0
NoAccepts [] = Unit
NoAccepts (accepts ∷ es) = ⊥
NoAccepts (_ ∷ es) = NoAccepts es

step-Arrived :
    (i : ℕ) (st : Stage) (s : Tunnel) (e : Event) (es : List Event)
    → NoAccepts (e ∷ es)
    → Inv s
    → Arrived i st s
    → Holds (Arrived i (stage i st (arrivals (e ∷ [])))) (step true s e) × NoAccepts es
unfolding step
step-Arrived i st s (incoming cmd k body) es n w v =
    (command-Arrived i s.session cmd k body st s refl w v, n)
step-Arrived i st s continue es n w v = (resume-Arrived i s.session st s refl w v, n)
step-Arrived i st s (dialed ok) es n w v = (dial_done-Arrived i s.session ok st s refl w v, n)
step-Arrived i st s (sent ok) es n w v =
    (Holds-Still i st s _ v (drain-Still s.session ok s.out s), n)
step-Arrived i st s accepts es n w v = absurd n
step-Arrived i st s (writes j ok) es n w v =
    (Holds-Still i st s _ v (write_step-Still (s.conn j).writer s j ok), n)
step-Arrived i st s (reads j chunk) es n w v =
    (read_step-Arrived i st (s.conn j).reader s j chunk v, n)

stage-arrivals :
    (i : ℕ) (st : Stage) (e : Event) (es : List Event)
    → stage i (stage i st (arrivals (e ∷ []))) (arrivals es) ≡ stage i st (arrivals (e ∷ es))
stage-arrivals i st (incoming cmd k body) es = refl
stage-arrivals i st continue es = refl
stage-arrivals i st (dialed ok) es = refl
stage-arrivals i st (sent ok) es = refl
stage-arrivals i st accepts es = refl
stage-arrivals i st (writes j ok) es = refl
stage-arrivals i st (reads j chunk) es = refl

run-Arrived :
    (i : ℕ) (st : Stage) (es : List Event) (s t : Tunnel)
    → NoAccepts es
    → Inv s
    → Arrived i st s
    → run true s es ≡ some t
    → Arrived i (stage i st (arrivals es)) t
unfolding run
run-Arrived i st [] s t n w v h = subst (Arrived i st) {x = s} (ground arith) v
run-Arrived i st (e ∷ es) s t n w v h = elim (Option-cases (step true s e)) [
  | inl stuck ↦ absurd (cc (rw (stuck, run) at h))
  | inr (u, q) ↦
      let (kept, later) = step-Arrived i st s e es n w v in
      subst (λ z. Arrived i z t) (stage-arrivals i st e es)
        (run-Arrived i (stage i st (arrivals (e ∷ []))) es u t later (step-Inv true s u e w q)
          (Holds-some (Arrived i (stage i st (arrivals (e ∷ [])))) (step true s e) u kept q)
          (rw (q, run) at h))
]

-- After any run from the start on the side that dials: when the frames that it was given have, for an
-- id, one OPEN and all DATA behind it, then what was routed to a connection of that id is a prefix of
-- those DATA; and while such a connection is mapped, it is all of them but what the session loop is
-- about to put into its channel. While there was no OPEN, there is no connection of the id.
pub run-start-Arrived :
    (i : ℕ) (es : List Event) (t : Tunnel)
    → NoAccepts es
    → run true start es ≡ some t
    → Arrived i (stage i unopened (arrivals es)) t
run-start-Arrived i es t n =
    run-Arrived i unopened es start t n start-Inv
      (record { held = tt; absent = λ l less e. absurd (omega (arith, less)); not_dialing = tt })
