-- ===== src/Tcp/Waits.antt =====
-- src/tcp.rs: the session loop when it waits for a connection's channel.
use ws_usb_linux.Base.{
  ℕ, ◌≤◌, ◌≡◌, ◌⊎◌, inl, inr, refl, ap, ◌∙◌, Bool, true, false, some, List, [], ◌∷◌, ◌++◌, length,
  map, ltb, Bool-cases, arith,
}
use ws_usb_linux.Base.Maps.{update, update_self}
use ws_usb_linux.Tcp.{
  conn_queue, WrMsg, bytes, shutdown, Writer, receiving, writing, shutting, removing, ended,
  waiting, delivering, unmapping, Tunnel, with_conn, start,
}
use ws_usb_linux.Tcp.Tasks.{
  Event, continue, writes, step, run, write_step, receive, deliver, resume, after_failed_send,
  is_ended, push_msg,
}
use ws_usb_linux.Tcp.Runs.{step-writes, run-cons}
use ws_usb_linux.Tcp.Invariant.Steps.{run-start-Inv}

-- The loop gets past its send after some first of these answers to the writer's operations: to its
-- select, or, where the channel has no receiver any more, to the removal of the entry.
abbrev pub Frees : Bool → Tunnel → ℕ → ℕ → List Bool → Type 0
Frees dials s j i oks =
    (done : List Bool) × (later : List Bool) × (t : Tunnel) × (oks ≡ done ++ later)
    × (run dials s (map (writes j) done ++ continue ∷ []) ≡ some t)
    × ((t.session ≡ waiting) ⊎ ((t.session ≡ unmapping i) × (is_ended (t.conn j).writer ≡ true)))

after_failed_send-session :
    (s : Tunnel) (j i : ℕ) (m : WrMsg)
    → is_ended (s.conn j).writer ≡ true
    → let t = after_failed_send s i m in
      (t.session ≡ waiting) ⊎ ((t.session ≡ unmapping i) × (is_ended (t.conn j).writer ≡ true))
unfolding after_failed_send
after_failed_send-session s j i (bytes b) over = inr (refl, over)
after_failed_send-session s j i shutdown over = inl refl

module _ (dials : Bool) (j i : ℕ) (m : WrMsg) where
  step-continue :
      (s : Tunnel) → s.session ≡ delivering j i m → step dials s continue ≡ deliver s j i m
  unfolding step
  step-continue s e = ap (λ p. resume p s) e

  ended-Frees :
      (s : Tunnel) (oks : List Bool)
      → s.session ≡ delivering j i m
      → is_ended (s.conn j).writer ≡ true
      → Frees dials s j i oks
  unfolding run deliver
  ended-Frees s oks e over = (
    [],
    oks,
    after_failed_send s i m,
    refl,
    run-cons dials s (after_failed_send s i m) continue [] _
        (step-continue s e ∙ rw (over, deliver) refl) refl,
    after_failed_send-session s j i m over,
  )

  ready-Frees :
      (s : Tunnel) (oks : List Bool)
      → s.session ≡ delivering j i m
      → ltb (length (s.conn j).queue) conn_queue ≡ true
      → Frees dials s j i oks
  unfolding run deliver
  ready-Frees s oks e room = elim (Bool-cases (is_ended (s.conn j).writer)) [
    | inl over ↦ ended-Frees s oks e over
    | inr runs ↦ (
      [],
      oks,
      record s { conn = update s.conn j (push_msg (s.conn j) m); session = waiting },
      refl,
      run-cons dials s _ continue [] _
          (step-continue s e ∙ rw (runs, deliver) (rw (room, deliver) refl)) refl,
      inl refl,
    )
  ]

  step-Frees :
      (s u : Tunnel) (ok : Bool) (oks : List Bool)
      → step dials s (writes j ok) ≡ some u
      → Frees dials u j i oks
      → Frees dials s j i (ok ∷ oks)
  unfolding run
  step-Frees s u ok oks h (done, later, t, e, steps, free) =
      (ok ∷ done, later, t, ap (λ z. ok ∷ z) e, run-cons dials s u (writes j ok) _ _ h steps, free)

  -- A writer that is about to end.
  removing-Frees :
      (s : Tunnel) (ok : Bool) (oks : List Bool)
      → s.session ≡ delivering j i m
      → (s.conn j).writer ≡ removing
      → Frees dials s j i (ok ∷ oks)
  unfolding write_step
  removing-Frees s ok oks e w =
      step-Frees s _ ok oks (step-writes dials s j ok removing w)
        (ended-Frees _ oks e (ap (λ k. is_ended k.writer) (update_self s.conn j _)))

  shutting-Frees :
      (s : Tunnel) (ok ok' : Bool) (oks : List Bool)
      → s.session ≡ delivering j i m
      → (s.conn j).writer ≡ shutting
      → Frees dials s j i (ok ∷ ok' ∷ oks)
  unfolding write_step
  shutting-Frees s ok ok' oks e w =
      step-Frees s _ ok (ok' ∷ oks) (step-writes dials s j ok shutting w)
        (removing-Frees _ ok' oks e (ap (λ k. k.writer) (update_self s.conn j _)))

  -- A writer that takes a message off a full channel makes room.
  receive-Frees :
      (s : Tunnel) (q : List WrMsg) (ok : Bool) (oks : List Bool)
      → s.session ≡ delivering j i m
      → (s.conn j).writer ≡ receiving
      → (s.conn j).queue ≡ q
      → length q ≤ conn_queue
      → ltb (length q) conn_queue ≡ false
      → Frees dials s j i (ok ∷ oks)
  unfolding write_step receive
  receive-Frees s [] ok oks e w q bound full = absurd (cc)
  receive-Frees s (bytes b ∷ rest) ok oks e w q bound full =
      step-Frees s _ ok oks (step-writes dials s j ok receiving w ∙ ap (receive s j) q) (
        ready-Frees _ oks e (
          ap (λ k. ltb (length k.queue) conn_queue) (update_self s.conn j _)
          ∙ ground (arith, bound)))
  receive-Frees s (shutdown ∷ rest) ok oks e w q bound full =
      step-Frees s _ ok oks (step-writes dials s j ok receiving w ∙ ap (receive s j) q) (
        ready-Frees _ oks e (
          ap (λ k. ltb (length k.queue) conn_queue) (update_self s.conn j _)
          ∙ ground (arith, bound)))

  full-Frees :
      (w : Writer) (s : Tunnel) (x y z : Bool)
      → s.session ≡ delivering j i m
      → (s.conn j).writer ≡ w
      → length (s.conn j).queue ≤ conn_queue
      → ltb (length (s.conn j).queue) conn_queue ≡ false
      → Frees dials s j i (x ∷ y ∷ z ∷ [])
  unfolding write_step
  full-Frees receiving s x y z e w bound full =
      receive-Frees s (s.conn j).queue x _ e w refl bound full
  full-Frees (writing b) s true y z e w bound full =
      let u =
        with_conn s j
          (record (s.conn j) { writer = receiving; written = (s.conn j).written ++ b }) in
      let at_u : u.conn j
          ≡ record (s.conn j) { writer = receiving; written = (s.conn j).written ++ b } =
        update_self s.conn j _ in
      step-Frees s u true _ (step-writes dials s j true (writing b) w) (
        receive-Frees u (s.conn j).queue y _ e (ap (λ k. k.writer) at_u) (ap (λ k. k.queue) at_u)
          bound full)
  full-Frees (writing b) s false y z e w bound full =
      step-Frees s _ false _ (step-writes dials s j false (writing b) w)
        (shutting-Frees _ y z [] e (ap (λ k. k.writer) (update_self s.conn j _)))
  full-Frees shutting s x y z e w bound full = shutting-Frees s x y _ e w
  full-Frees removing s x y z e w bound full = removing-Frees s x _ e w
  full-Frees ended s x y z e w bound full = ended-Frees s _ e (ap is_ended w)

-- In every reachable state in which the session loop waits to put a message into a connection's
-- channel, whatever the next three operations of that connection's writer answer, after none or some
-- first of them the loop's next step is possible: it ends the wait, with the loop at its select, or
-- at the removal of the connection's entry when the writer has ended.
pub delivering-Frees :
    (dials : Bool) (es : List Event) (s : Tunnel) (j i : ℕ) (m : WrMsg) (x y z : Bool)
    → run dials start es ≡ some s
    → s.session ≡ delivering j i m
    → Frees dials s j i (x ∷ y ∷ z ∷ [])
delivering-Frees dials es s j i m x y z r e =
    elim (Bool-cases (ltb (length (s.conn j).queue) conn_queue)) [
      | inl room ↦ ready-Frees dials j i m s _ e room
      | inr full ↦
          full-Frees dials j i m (s.conn j).writer s x y z e refl
            ((run-start-Inv dials es s r).conns_ok j).bounded full
    ]
