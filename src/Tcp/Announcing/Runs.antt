-- ===== src/Tcp/Announcing/Runs.antt =====
-- src/tcp.rs: the order of OPEN and DATA in every run of the listening side.
use ws_usb_linux.Base.{
  ℕ, ◌<◌, ◌≡◌, ◌≢◌, inl, inr, refl, sym, ap, subst, ◌∙◌, Bool, true, false, Option, none, some,
  List, [], ◌∷◌, ◌++◌, length, if◌then◌else◌, ltb, Bool-cases, Option-cases, arith, ◌==◌,
}
use ws_usb_linux.Base.Maps.{Holds, Holds-some}
use ws_usb_linux.Proto.{cmd_tcp_open}
use ws_usb_linux.Tcp.{
  OutFrame, finished, Session, dialing, Acceptor, accepting, announcing, registering, Tunnel, start,
  send_peer, out_queue,
}
use ws_usb_linux.Tcp.Tasks.{
  Event, incoming, continue, dialed, sent, accepts, writes, reads, step, run, accept, allocated,
  dial_done,
}
use ws_usb_linux.Tcp.Listening.{IsListening, is_dialing, step-IsListening}
use ws_usb_linux.Tcp.Outgoing.{Outgoing}
use ws_usb_linux.Tcp.Outgoing.Runs.{Unfailing, step-Outgoing, start-Outgoing}
use ws_usb_linux.Tcp.Arriving.{unopened, opened, next_stage, stage}
use ws_usb_linux.Tcp.Announcing.{
  is_registering, sent_stage, Announced, Announced-Even, Even-quiet, stage-sent, open_stage,
  spawn_connection-Announced,
}
use ws_usb_linux.Tcp.Announcing.Steps.{
  resume-Announced, drain-Announced, write_step-Announced, read_step-Announced, command-Announced,
}

-- The acceptor goes on without OPEN.
acceptor-Announced :
    (i : ℕ) (s : Tunnel) (a : Acceptor) (next : ℕ)
    → is_registering a i ≡ is_registering s.acceptor i
    → Announced i s
    → Announced i (record s { acceptor = a; next_id = next })
acceptor-Announced i s a next e v =
    Announced-Even i s (record s { acceptor = a; next_id = next })
      (Even-quiet i s (record s { acceptor = a; next_id = next }) refl (λ l. refl) e refl) v

allocated-Announced :
    (i : ℕ) (s : Tunnel) (r : Option ℕ × ℕ)
    → s.acceptor ≡ accepting
    → Announced i s
    → Announced i (allocated s r)
unfolding allocated
allocated-Announced i s (none, next) e v = acceptor-Announced i s s.acceptor next refl v
allocated-Announced i s (some k, next) e v =
    acceptor-Announced i s (announcing k) next (sym (ap (λ a. is_registering a i) e)) v

-- OPEN.
opens-Announced :
    (i k : ℕ) (s : Tunnel)
    → s.acceptor ≡ announcing k
    → Announced i s
    → Holds (Announced i) (send_peer (record s { acceptor = registering k }) cmd_tcp_open (k ∷ []))
unfolding send_peer
opens-Announced i k s e v = elim (Bool-cases (ltb (length s.out) out_queue)) [
  | inr full ↦ rw (full, send_peer) tt
  | inl room ↦
      rw (room, send_peer)
        (elim (Bool-cases (k == i)) [
          | inl same ↦ record {
            before = λ n r. absurd (cc (same, r));
            between = λ n r.
                announced
                ∙ ap (λ z. next_stage i z opening) (v.before n idle_yet)
                ∙ ap (λ z. if z then opened [] else unopened) same;
            behind = λ j less q sole r. absurd (cc (same, r));
          }
          | inr other ↦
              let unchanged = open_stage i k (sent_stage i s) (ground (arith, other)) in
              Announced-Even i s _
                (record {
                  spawned_is = refl;
                  id_is = λ l. refl;
                  registering_is = other ∙ sym idle_yet;
                  unseen = λ n. announced ∙ unchanged;
                  open_yet = λ o. (o.0, announced ∙ unchanged ∙ o.1);
                })
                v
        ])
]
  where
    opening : OutFrame
    opening = record { cmd = cmd_tcp_open; body = k ∷ [] }

    announced :
        stage i unopened (s.wire ++ (s.out ++ opening ∷ [])) ≡ next_stage i (sent_stage i s) opening
    announced = stage-sent i s opening

    idle_yet : is_registering s.acceptor i ≡ false
    idle_yet = ap (λ a. is_registering a i) e

accept-Announced :
    (i : ℕ) (a : Acceptor) (s : Tunnel)
    → s.acceptor ≡ a
    → Announced i s
    → Holds (Announced i) (accept a s)
unfolding accept
accept-Announced i accepting s e v = allocated-Announced i s _ e v
accept-Announced i (announcing k) s e v = opens-Announced i k s e v
accept-Announced i (registering k) s e v = spawn_connection-Announced i k s e v

dial_done-Announced :
    (i : ℕ) (p : Session) (ok : Bool) (s : Tunnel)
    → is_dialing p ≡ false
    → Holds (Announced i) (dial_done p ok s)
unfolding dial_done
dial_done-Announced i (dialing k) ok s h = absurd (cc)
dial_done-Announced i _ ok s h = tt

present : (s : Tunnel) (j : ℕ) → Outgoing s → (s.conn j).reader ≢ finished → j < s.spawned
present s j o runs = elim (Bool-cases (ltb j s.spawned)) [
  | inl less ↦ ground arith
  | inr past ↦ absurd (runs (o.idle j (ground arith)))
]

step-Announced :
    (i : ℕ) (s : Tunnel) (e : Event) (es : List Event)
    → Unfailing (e ∷ es)
    → IsListening s
    → Outgoing s
    → Announced i s
    → Holds (Announced i) (step false s e)
unfolding step
step-Announced i s (incoming cmd k body) es u h o v = command-Announced i s.session cmd k body s v
step-Announced i s continue es u h o v = resume-Announced i s.session s v
step-Announced i s (dialed ok) es u h o v = dial_done-Announced i s.session ok s h.no_dial
step-Announced i s (sent true) es u h o v = drain-Announced i s.session s.out s refl v
step-Announced i s (sent false) es u h o v = absurd u
step-Announced i s accepts es u h o v = accept-Announced i s.acceptor s refl v
step-Announced i s (writes j ok) es u h o v = write_step-Announced i (s.conn j).writer s j ok v
step-Announced i s (reads j chunk) es u h o v =
    read_step-Announced i (s.conn j).reader s j chunk (present s j o) v

run-Announced :
    (i : ℕ) (es : List Event) (s t : Tunnel)
    → Unfailing es
    → IsListening s
    → Outgoing s
    → Announced i s
    → run false s es ≡ some t
    → Announced i t
unfolding run
run-Announced i [] s t u h o v e = subst (Announced i) {x = s} (ground arith) v
run-Announced i (ev ∷ es) s t u h o v e = elim (Option-cases (step false s ev)) [
  | inl stuck ↦ absurd (cc (rw (stuck, run) at e))
  | inr (m, q) ↦
      let (kept, later) = step-Outgoing false s ev es u o in
      run-Announced i es m t later
        (Holds-some IsListening (step false s ev) m (step-IsListening s ev h) q)
        (Holds-some Outgoing (step false s ev) m kept q)
        (Holds-some (Announced i) (step false s ev) m (step-Announced i s ev es u h o v) q)
        (rw (q, run) at e)
]

-- After any run from the start on the listening side in which every send of the websocket went well,
-- the frames for an id on the wire and behind them in the out queue are: none of OPEN and DATA, as
-- long as no connection has had the id and the acceptor has not sent OPEN for it; OPEN alone, when it
-- has and no connection has had the id; and one OPEN before all DATA, when one connection alone has
-- had the id and the acceptor does not hold it.
pub run-start-Announced :
    (i : ℕ) (es : List Event) (t : Tunnel)
    → Unfailing es
    → run false start es ≡ some t
    → Announced i t
run-start-Announced i es t u e =
    run-Announced i es start t u
      (record { small = omega arith; no_dial = refl; fresh = λ i q. refl }) start-Outgoing
      (record {
        before = λ n r. refl;
        between = λ n r. absurd (cc);
        behind = λ j less q sole r. absurd (omega (arith, less));
      })
      e
