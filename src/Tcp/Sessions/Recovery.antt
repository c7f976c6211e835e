-- ===== src/Tcp/Sessions/Recovery.antt =====
-- src/tcp.rs: the way from a lost connection to the next, and the frame in hand.
use ws_usb_linux.Base.{
  ◌+◌, ◌≡◌, ◌≢◌, inl, inr, refl, ap, subst, ◌∙◌, Bool, true, false, Option, none, some, List, [],
  ◌∷◌, ◌++◌, Option-cases, arith,
}
use ws_usb_linux.Base.Maps.{Holds, Holds-some}
use ws_usb_linux.Tcp.{OutFrame, Session, waiting, dialing, delivering, unmapping, refusing, Tunnel}
use ws_usb_linux.Tcp.Tasks.{Event, sent, step, drain}
use ws_usb_linux.Tcp.Sessions.{
  Phase, connecting, unavailable, live, leaving, over, SessionLoop, begin, LoopEvent, refused,
  linked, backed_off, lost, ping, ctrl_c, inner, open_link, taken, after, allowed, loop_step,
  loop_run, moved, selecting, in_phase, permitted,
}

-- What leads to the next live connection when the relay answers, whatever its websocket then says to
-- the two opening frames.
abbrev pub way_back : Bool → Bool → Phase → List LoopEvent
way_back a b connecting = linked a b ∷ []
way_back a b unavailable = backed_off ∷ linked a b ∷ []
way_back a b live = lost ∷ backed_off ∷ linked a b ∷ []
way_back a b leaving = backed_off ∷ linked a b ∷ []
way_back a b over = []

abbrev at_phase : SessionLoop → Phase → SessionLoop
at_phase l p = record l { phase = p }

loop_run-cons :
    (dials : Bool) (l m : SessionLoop) (e : LoopEvent) (es : List LoopEvent)
    → loop_step dials l e ≡ some m
    → loop_run dials l (e ∷ es) ≡ loop_run dials m es
unfolding loop_run
loop_run-cons dials l m e es h = rw (h, loop_run) refl

recover :
    (dials a b : Bool) (l : SessionLoop) (p : Phase)
    → p ≢ over
    → (p ≡ live → l.tunnel.session ≡ waiting)
    → loop_run dials (at_phase l p) (way_back a b p) ≡ some (open_link a b l)
unfolding loop_run loop_step open_link
recover dials a b l connecting h w = refl
recover dials a b l unavailable h w = refl
recover dials a b l leaving h w = refl
recover dials a b l over h w = absurd (h refl)
recover dials a b l live h w =
    loop_run-cons dials (at_phase l live) (at_phase l leaving) lost (backed_off ∷ linked a b ∷ [])
      (ap (λ s. selecting s (at_phase l leaving)) (w refl))

-- The user has not interrupted the program.
abbrev pub Uninterrupted : List LoopEvent → Type 0
Uninterrupted [] = Unit
Uninterrupted (ctrl_c ∷ es) = ⊥
Uninterrupted (_ ∷ es) = Uninterrupted es

abbrev GoesOn : SessionLoop → Type 0
GoesOn l = l.phase ≢ over

after-GoesOn : (e : Event) (p : Phase) → p ≢ over → after e p ≢ over
unfolding after
after-GoesOn e p h q = h (ground arith)

moved-GoesOn :
    (l : SessionLoop) (e : Event) (r : Option Tunnel) → GoesOn l → Holds GoesOn (moved l e r)
unfolding moved
moved-GoesOn l e none h = tt
moved-GoesOn l e (some t) h = after-GoesOn e l.phase h

permitted-GoesOn :
    (b dials : Bool) (e : Event) (l : SessionLoop) → GoesOn l → Holds GoesOn (permitted b dials e l)
unfolding permitted
permitted-GoesOn true dials e l h = moved-GoesOn l e (step dials l.tunnel e) h
permitted-GoesOn false dials e l h = tt

selecting-GoesOn : (s : Session) (l : SessionLoop) → GoesOn l → Holds GoesOn (selecting s l)
unfolding selecting
selecting-GoesOn waiting l h = h
selecting-GoesOn (dialing i) l h = tt
selecting-GoesOn (delivering j i m) l h = tt
selecting-GoesOn (unmapping i) l h = tt
selecting-GoesOn (refusing i) l h = tt

in_phase-GoesOn :
    (p : Phase) (e : LoopEvent) (l : SessionLoop)
    → Uninterrupted (e ∷ [])
    → GoesOn l
    → Holds GoesOn (in_phase p e l)
unfolding in_phase open_link
in_phase-GoesOn connecting (linked a b) l u h = λ q. absurd (cc q)
in_phase-GoesOn connecting refused l u h = λ q. absurd (cc q)
in_phase-GoesOn unavailable backed_off l u h = λ q. absurd (cc q)
in_phase-GoesOn unavailable ctrl_c l u h = absurd u
in_phase-GoesOn live lost l u h =
    selecting-GoesOn l.tunnel.session (at_phase l leaving) (λ q. absurd (cc q))
in_phase-GoesOn live ping l u h = selecting-GoesOn l.tunnel.session l h
in_phase-GoesOn live ctrl_c l u h = absurd u
in_phase-GoesOn leaving backed_off l u h = λ q. absurd (cc q)
in_phase-GoesOn _ e l u h = tt

loop_step-GoesOn :
    (dials : Bool) (l : SessionLoop) (e : LoopEvent) (es : List LoopEvent)
    → Uninterrupted (e ∷ es)
    → GoesOn l
    → Holds GoesOn (loop_step dials l e) × Uninterrupted es
unfolding loop_step
loop_step-GoesOn dials l (inner e) es u h = (permitted-GoesOn (allowed l.phase e) dials e l h, u)
loop_step-GoesOn dials l refused es u h = (in_phase-GoesOn l.phase refused l tt h, u)
loop_step-GoesOn dials l (linked a b) es u h = (in_phase-GoesOn l.phase (linked a b) l tt h, u)
loop_step-GoesOn dials l backed_off es u h = (in_phase-GoesOn l.phase backed_off l tt h, u)
loop_step-GoesOn dials l lost es u h = (in_phase-GoesOn l.phase lost l tt h, u)
loop_step-GoesOn dials l ping es u h = (in_phase-GoesOn l.phase ping l tt h, u)
loop_step-GoesOn dials l ctrl_c es u h = absurd u

loop_run-GoesOn :
    (dials : Bool) (es : List LoopEvent) (l m : SessionLoop)
    → Uninterrupted es
    → GoesOn l
    → loop_run dials l es ≡ some m
    → GoesOn m
unfolding loop_run
loop_run-GoesOn dials [] l m u h r = let same : l ≡ m = ground arith in subst GoesOn same h
loop_run-GoesOn dials (e ∷ es) l m u h r = elim (Option-cases (loop_step dials l e)) [
  | inl stopped ↦ absurd (cc (rw (stopped, loop_run) at r))
  | inr (k, q) ↦
      let (kept, later) = loop_step-GoesOn dials l e es u h in
      loop_run-GoesOn dials es k m later (Holds-some GoesOn (loop_step dials l e) k kept q)
        (rw (q, loop_run) at r)
]

-- After any run of the loop from its beginning without an interrupt by the user, whatever the relay,
-- the websocket and the connections have answered in it, the loop has not ended; and unless it is
-- live and inside a branch of its select, it can come, by a loss if it is live, the end of its wait
-- if it is not connecting, and a handshake that is confirmed, to a further live connection with the
-- tunnel exactly as it was, whatever the websocket then says to the two opening frames.
pub loop_run-live :
    (dials a b : Bool) (es : List LoopEvent) (l : SessionLoop)
    → Uninterrupted es
    → loop_run dials begin es ≡ some l
    → (l.phase ≡ live → l.tunnel.session ≡ waiting)
    → (l.phase ≢ over)
      × (m : SessionLoop) × (loop_run dials l (way_back a b l.phase) ≡ some m)
      × (m.phase ≡ live)
      × (m.sessions ≡ l.sessions + 1)
      × (m.tunnel ≡ l.tunnel)
unfolding open_link
loop_run-live dials a b es l u r w =
    let on = loop_run-GoesOn dials es begin l u (λ q. absurd (cc q)) r in
    (on, open_link a b l, recover dials a b l l.phase on w, refl, refl, refl)

drain_failed :
    (dials : Bool) (s : Tunnel) (f : OutFrame) (rest : List OutFrame)
    → s.session ≡ waiting
    → s.out ≡ f ∷ rest
    → step dials s (sent false) ≡ some (record s { out = rest })
unfolding step
drain_failed dials s f rest w o =
    ap (λ p. drain p false s.out s) w ∙ ap (λ q. drain waiting false q s) o

-- When a send fails on a live connection, the frame in hand is lost: with the next connection the
-- tunnel is as before but for that frame, which is neither in the out queue nor on the wire.
pub loop_run-loses :
    (dials a b : Bool) (l : SessionLoop) (f : OutFrame) (rest : List OutFrame)
    → l.phase ≡ live
    → l.tunnel.session ≡ waiting
    → l.tunnel.out ≡ f ∷ rest
    → (m : SessionLoop) × (loop_run dials l (inner (sent false) ∷ backed_off ∷ linked a b ∷ [])
        ≡ some m)
      × (m.phase ≡ live)
      × (m.tunnel ≡ record l.tunnel { out = rest })
unfolding open_link loop_step allowed taken after
loop_run-loses dials a b l f rest p w o = (
  open_link a b failed,
  loop_run-cons dials l failed (inner (sent false)) (backed_off ∷ linked a b ∷ []) left
      ∙ recover dials a b failed leaving (cc) (λ q. absurd (cc)),
  refl,
  refl,
)
  where
    failed : SessionLoop
    failed = record l {
      tunnel = record l.tunnel { out = rest };
      phase = leaving;
      link = l.link ++ [];
    }

    left : loop_step dials l (inner (sent false)) ≡ some failed
    left =
        ap (λ q. permitted (allowed q (sent false)) dials (sent false) l) p
        ∙ ap (moved l (sent false)) (drain_failed dials l.tunnel f rest w o)
