-- ===== src/Tcp/Outgoing/Runs.antt =====
-- src/tcp.rs: the bytes on their way through every event and every run from the start.
use ws_usb_linux.Base.{
  ℕ, ◌<◌, ◌≡◌, inl, inr, refl, subst, Bool, true, false, some, List, [], ◌∷◌, ◌++◌, Option-cases,
  arith,
}
use ws_usb_linux.Base.Maps.{Holds, Holds-some}
use ws_usb_linux.Tcp.{Tunnel, start}
use ws_usb_linux.Tcp.Tasks.{
  Event, incoming, continue, dialed, sent, accepts, writes, reads, step, run,
}
use ws_usb_linux.Tcp.Outgoing.{data_of, Sole, Accounted, Outgoing}
use ws_usb_linux.Tcp.Outgoing.Steps.{
  resume-Outgoing, dial_done-Outgoing, drain-Outgoing, accept-Outgoing, write_step-Outgoing,
  command-Outgoing,
}
use ws_usb_linux.Tcp.Outgoing.Readers.{read_step-Outgoing}

-- Every send of the websocket goes well.
abbrev pub Unfailing : List Event → Type 0
Unfailing [] = Unit
Unfailing (sent false ∷ es) = ⊥
Unfailing (_ ∷ es) = Unfailing es

pub step-Outgoing :
    (dials : Bool) (s : Tunnel) (e : Event) (es : List Event)
    → Unfailing (e ∷ es)
    → Outgoing s
    → Holds Outgoing (step dials s e) × Unfailing es
unfolding step
step-Outgoing dials s (incoming cmd i body) es u v =
    (command-Outgoing s.session dials cmd i body s v, u)
step-Outgoing dials s continue es u v = (resume-Outgoing s.session s v, u)
step-Outgoing dials s (dialed ok) es u v = (dial_done-Outgoing s.session ok s v, u)
step-Outgoing dials s (sent true) es u v = (drain-Outgoing s.session s.out s refl v, u)
step-Outgoing dials s (sent false) es u v = absurd u
step-Outgoing dials s accepts es u v = (accept-Outgoing s.acceptor s v, u)
step-Outgoing dials s (writes j ok) es u v = (write_step-Outgoing (s.conn j).writer s j ok v, u)
step-Outgoing dials s (reads j chunk) es u v =
    (read_step-Outgoing (s.conn j).reader s j chunk refl v, u)

run-Outgoing :
    (dials : Bool) (es : List Event) (s t : Tunnel)
    → Unfailing es
    → Outgoing s
    → run dials s es ≡ some t
    → Outgoing t
unfolding run
run-Outgoing dials [] s t u v e = subst Outgoing {x = s} (ground arith) v
run-Outgoing dials (ev ∷ es) s t u v e = elim (Option-cases (step dials s ev)) [
  | inl stuck ↦ absurd (cc (rw (stuck, run) at e))
  | inr (m, q) ↦
      let (kept, later) = step-Outgoing dials s ev es u v in
      run-Outgoing dials es m t later (Holds-some Outgoing (step dials s ev) m kept q)
        (rw (q, run) at e)
]

pub start-Outgoing : Outgoing start
unfolding data_of
start-Outgoing = record {
  complete = λ j less sole. absurd (omega (arith, less));
  unused = λ i none_has. refl;
  idle = λ j past. refl;
}

-- After any run from the start, on either side, in which every send of the websocket went well: all
-- that the socket of a connection has given, to the last byte and in order, is in the DATA frames for
-- its id on the wire, then in those that wait in the out queue, then in its reader's hand; provided
-- that no other connection of the run has had its id.
pub run-start-Accounted :
    (dials : Bool) (es : List Event) (t : Tunnel) (j : ℕ)
    → Unfailing es
    → run dials start es ≡ some t
    → j < t.spawned
    → Sole t j
    → Accounted (t.wire ++ t.out) (t.conn j)
run-start-Accounted dials es t j u e less sole =
    (run-Outgoing dials es start t u start-Outgoing e).complete j less sole
