-- ===== src/Tcp/Sessions/Reconnection.antt =====
-- src/tcp.rs: what `session_loop` keeps from one connection to the next.
use ws_usb_linux.Base.{
  ℕ, ◌+◌, ◌*◌, ◌%◌, ◌≡◌, inl, inr, refl, sym, ap, ◌∙◌, Bool, true, false, Option, none, some, List,
  [], ◌∷◌, ◌++◌, map, ◌-◌, Option-cases, arith,
}
use ws_usb_linux.Tcp.{OutFrame, Tunnel}
use ws_usb_linux.Tcp.Tasks.{Event, step, run}
use ws_usb_linux.Tcp.Sessions.{
  Phase, live, introduce, subscribe, peer_frame, SessionLoop, LoopEvent, refused, linked,
  backed_off, lost, ping, ctrl_c, inner, open_link, allowed, loop_step, loop_run, moved, selecting,
  in_phase, permitted,
}

-- The tunnel's own events among those of the loop.
abbrev pub tunnel_events : List LoopEvent → List Event
tunnel_events [] = []
tunnel_events (inner e ∷ es) = e ∷ tunnel_events es
tunnel_events (_ ∷ es) = tunnel_events es

abbrev advance : Bool → Tunnel → LoopEvent → Option Tunnel
advance dials t (inner e) = step dials t e
advance dials t _ = some t

moved_tunnel :
    (l m : SessionLoop) (e : Event) (r : Option Tunnel) → moved l e r ≡ some m → r ≡ some m.tunnel
unfolding moved
moved_tunnel l m e none h = absurd (cc)
moved_tunnel l m e (some t) h = ground arith

permitted_tunnel :
    (b dials : Bool) (e : Event) (l m : SessionLoop)
    → permitted b dials e l ≡ some m
    → step dials l.tunnel e ≡ some m.tunnel
unfolding permitted
permitted_tunnel true dials e l m h = moved_tunnel l m e _ h
permitted_tunnel false dials e l m h = absurd (cc)

in_phase_tunnel :
    (p : Phase) (e : LoopEvent) (l m : SessionLoop) → in_phase p e l ≡ some m → m.tunnel ≡ l.tunnel
unfolding in_phase open_link selecting
in_phase_tunnel p e l m h = ground arith

-- Each step moves the tunnel by its own event, or leaves it alone.
loop_step_tunnel :
    (dials : Bool) (l m : SessionLoop) (e : LoopEvent)
    → loop_step dials l e ≡ some m
    → advance dials l.tunnel e ≡ some m.tunnel
unfolding loop_step
loop_step_tunnel dials l m (inner e) h = permitted_tunnel (allowed l.phase e) dials e l m h
loop_step_tunnel dials l m refused h = ap some (sym (in_phase_tunnel l.phase refused l m h))
loop_step_tunnel dials l m (linked a b) h =
    ap some (sym (in_phase_tunnel l.phase (linked a b) l m h))
loop_step_tunnel dials l m backed_off h = ap some (sym (in_phase_tunnel l.phase backed_off l m h))
loop_step_tunnel dials l m lost h = ap some (sym (in_phase_tunnel l.phase lost l m h))
loop_step_tunnel dials l m ping h = ap some (sym (in_phase_tunnel l.phase ping l m h))
loop_step_tunnel dials l m ctrl_c h = ap some (sym (in_phase_tunnel l.phase ctrl_c l m h))

run-advance :
    (dials : Bool) (s t : Tunnel) (e : LoopEvent) (es : List LoopEvent)
    → advance dials s e ≡ some t
    → run dials s (tunnel_events (e ∷ es)) ≡ run dials t (tunnel_events es)
unfolding run
run-advance dials s t (inner e) es h = rw (h, run) refl
run-advance dials s t refused es h = ap (λ u. run dials u (tunnel_events es)) (ground arith)
run-advance dials s t (linked a b) es h = ap (λ u. run dials u (tunnel_events es)) (ground arith)
run-advance dials s t backed_off es h = ap (λ u. run dials u (tunnel_events es)) (ground arith)
run-advance dials s t lost es h = ap (λ u. run dials u (tunnel_events es)) (ground arith)
run-advance dials s t ping es h = ap (λ u. run dials u (tunnel_events es)) (ground arith)
run-advance dials s t ctrl_c es h = ap (λ u. run dials u (tunnel_events es)) (ground arith)

-- The loop with its losses and new connections refines the tunnel: whatever happens to the
-- connection, the tunnel has made exactly its own steps, in order, and nothing else.
pub loop_run_refines :
    (dials : Bool) (es : List LoopEvent) (l m : SessionLoop)
    → loop_run dials l es ≡ some m
    → run dials l.tunnel (tunnel_events es) ≡ some m.tunnel
unfolding loop_run
loop_run_refines dials [] l m h = unfold run in ground arith
loop_run_refines dials (e ∷ es) l m h = elim (Option-cases (loop_step dials l e)) [
  | inl stopped ↦ absurd (cc (rw (stopped, loop_run) at h))
  | inr (k, q) ↦
      run-advance dials l.tunnel k.tunnel e es (loop_step_tunnel dials l k e q)
      ∙ loop_run_refines dials es k m (rw (q, loop_run) at h)
]

-- What was sent on a live connection: the two opening frames, taken or not, then peer frames, which
-- are what the tunnel has sent since.
pub record Opened (l : SessionLoop) : Type 0 where
  pub number : ℕ
  pub introduced : Bool
  pub subscribed : Bool
  pub since : List OutFrame
  pub numbered : number ≡ (1 + 2 * (l.sessions - 1)) % 65536
  pub link_is :
      l.link
      ≡ introduce number introduced
        ∷ subscribe ((number + 1) % 65536) subscribed
        ∷ map peer_frame since
  pub wire_is : l.tunnel.wire ≡ l.earlier ++ since

pub record LinkInv (l : SessionLoop) : Type 0 where
  pub seq_is : l.seq ≡ (1 + 2 * l.sessions) % 65536
  pub opened : l.phase ≡ live → Opened l
