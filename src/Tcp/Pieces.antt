-- ===== src/Tcp/Pieces.antt =====
-- src/tcp.rs: the bytes that arrived for an id on either side, against what was routed to each
-- connection of that id: one piece of them, without a gap.
pub mod Commands
pub mod Runs
pub mod Relayed
use ws_usb_linux.Base.{
  ℕ, ◌+◌, ◌≤◌, ◌<◌, ◌≡◌, ◌≢◌, inl, inr, refl, sym, ap, subst, ◌∙◌, Bool, true, false, Option, none,
  some, List, [], ◌∷◌, ◌++◌, append-nil, append_assoc, length, ltb, if◌then◌else◌, Bool-cases,
  Option-cases, arith, Bytes, ◌==◌,
}
use ws_usb_linux.Base.Maps.{update, update_hit, update_miss, Holds}
use ws_usb_linux.Tcp.{
  conn_queue, WrMsg, bytes, shutdown, Session, waiting, dialing, delivering, unmapping, refusing,
  Tunnel, spawn_connection, new_conn,
}
use ws_usb_linux.Tcp.Tasks.{
  is_ended, payload, push_msg, deliver, resume, dial_done, after_failed_send,
}
use ws_usb_linux.Tcp.Invariant.{Inv, mapped_without}
use ws_usb_linux.Tcp.Arriving.{pending, Held}
use ws_usb_linux.Tcp.Arriving.Moves.{Still, Held-Still, is_rest, rest-Held, rest-pending}
use ws_usb_linux.Tcp.Arriving.Loop.{send_peer-Still, pushed_id, failed-pending}

abbrev pub EndsIn : Bytes → Bytes → Type 0
EndsIn d b = (before : Bytes) × (d ≡ before ++ b)

abbrev pub InHand : Session → ℕ → Bytes → Tunnel → Type 0
InHand (delivering j k m) i d s = k ≡ i → EndsIn d ((s.conn j).routed ++ payload m)
InHand _ i d s = Unit

pub record Piece (i : ℕ) (d : Bytes) (s : Tunnel) : Type 0 where
  pub held : Held s.session s
  pub within :
      (j : ℕ)
      → j < s.spawned
      → (s.conn j).conn_id ≡ i
      → (rest : Bytes) × EndsIn d ((s.conn j).routed ++ rest)
  pub mapped : (j : ℕ) → s.conns i ≡ some j → EndsIn d ((s.conn j).routed ++ pending s.session j)
  pub in_hand : InHand s.session i d s

pub EndsIn-eq : (d b b' : Bytes) → b ≡ b' → EndsIn d b → EndsIn d b'
EndsIn-eq d b b' e (before, h) = (before, h ∙ ap (λ z. before ++ z) e)

InHand-Still :
    (p : Session) (i : ℕ) (d : Bytes) (s t : Tunnel) → Still s t → InHand p i d s → InHand p i d t
InHand-Still (delivering j k m) i d s t h v =
    λ e. EndsIn-eq d _ _ (ap (λ z. z ++ payload m) (sym (h.routed_is j))) (v e)
InHand-Still (dialing k) i d s t h v = tt
InHand-Still waiting i d s t h v = tt
InHand-Still (unmapping k) i d s t h v = tt
InHand-Still (refusing k) i d s t h v = tt

pub Piece-Still : (i : ℕ) (d : Bytes) (s t : Tunnel) → Still s t → Piece i d s → Piece i d t
Piece-Still i d s t h v = record {
  held = subst (λ p. Held p t) (sym h.session_is) (Held-Still s.session s t h v.held);
  within = λ j less e.
      let (rest, (before, q)) =
        v.within j (omega (arith, less, h.spawned_is)) (sym (h.id_is j) ∙ e) in
      (rest, (before, q ∙ ap (λ z. before ++ (z ++ rest)) (sym (h.routed_is j))));
  mapped = λ j e.
      EndsIn-eq d _ _
        (ap (λ z. z ++ pending s.session j) (sym (h.routed_is j))
          ∙ ap (λ p. (t.conn j).routed ++ pending p j) (sym h.session_is))
        (v.mapped j (h.shrinks i j e));
  in_hand =
      subst (λ p. InHand p i d t) (sym h.session_is) (InHand-Still s.session i d s t h v.in_hand);
}

pub Holds-Piece :
    (i : ℕ) (d : Bytes) (s : Tunnel) (o : Option Tunnel)
    → Piece i d s
    → Holds (Still s) o
    → Holds (Piece i d) o
Holds-Piece i d s none v h = tt
Holds-Piece i d s (some t) v h = Piece-Still i d s t h v

rest-InHand : (p : Session) (i : ℕ) (d : Bytes) (s : Tunnel) → is_rest p ≡ true → InHand p i d s
rest-InHand waiting i d s h = tt
rest-InHand (unmapping k) i d s h = tt
rest-InHand (refusing k) i d s h = tt
rest-InHand (dialing k) i d s h = tt
rest-InHand (delivering j k m) i d s h = absurd (cc)

-- The session loop goes where it has nothing in hand, and had nothing for a mapped connection.
pub Piece-rest :
    (i : ℕ) (d : Bytes) (s : Tunnel) (p : Session)
    → is_rest p ≡ true
    → ((j : ℕ) → s.conns i ≡ some j → pending s.session j ≡ [])
    → Piece i d s
    → Piece i d (record s { session = p })
Piece-rest i d s p r none_left v = record {
  held = rest-Held p _ r;
  within = v.within;
  mapped = λ j e.
      EndsIn-eq d _ _ (ap (λ z. (s.conn j).routed ++ z) (none_left j e ∙ sym (rest-pending p j r)))
        (v.mapped j e);
  in_hand = rest-InHand p i d _ r;
}

-- Nothing is in hand for a connection that is not spawned yet.
pending_new : (p : Session) (s : Tunnel) → Held p s → pending p s.spawned ≡ []
pending_new (delivering j k m) s h = ap (λ z. if z then payload m else []) apart
  where
    apart : (j == s.spawned) ≡ false
    apart = ground (arith, h.0)
pending_new (dialing k) s h = refl
pending_new waiting s h = refl
pending_new (unmapping k) s h = refl
pending_new (refusing k) s h = refl

pub spawn_connection-Piece :
    (i k : ℕ) (d : Bytes) (s : Tunnel) → Inv s → Piece i d s → Piece i d (spawn_connection s k)
unfolding spawn_connection
spawn_connection-Piece i k d s w v = record {
  held = held s.session v.held;
  within = λ l less q. elim (Bool-cases (s.spawned == l)) [
    | inl same ↦ (
      [],
      (
        d,
        sym (append-nil d)
            ∙ sym
                (ap (λ c. d ++ (c.routed ++ [])) (update_hit s.conn s.spawned (new_conn k) l same)),
      ),
    )
    | inr other ↦
        let miss = update_miss s.conn s.spawned (new_conn k) l other in
        let (rest, (before, p)) =
          v.within l (ground (arith, less)) (sym (ap (λ c. c.conn_id) miss) ∙ q) in
        (rest, (before, p ∙ sym (ap (λ c. before ++ (c.routed ++ rest)) miss)))
  ];
  mapped = λ l q. elim (Bool-cases (k == i)) [
    | inl same ↦
        let here : s.spawned ≡ l = ground (arith, q, same) in
        (
          d,
          sym (append-nil d)
              ∙ ap (λ z. d ++ z) (sym (pending_new s.session s v.held))
              ∙ ap (λ z. d ++ ([] ++ pending s.session z)) here
              ∙ sym (
                  ap (λ c. d ++ (c.routed ++ pending s.session l))
                    (update_hit s.conn s.spawned (new_conn k) l (ground (arith, here)))),
        )
    | inr other ↦
        let before : s.conns i ≡ some l =
          sym (update_miss s.conns k (some s.spawned) i other) ∙ q in
        EndsIn-eq d _ _
          (sym (ap (λ c. c.routed ++ pending s.session l) (old l (w.mapped i l before).0)))
          (v.mapped l before)
  ];
  in_hand = in_hand s.session v.held v.in_hand;
}
  where
    old : (l : ℕ) → l < s.spawned → update s.conn s.spawned (new_conn k) l ≡ s.conn l
    old l h = update_miss s.conn s.spawned (new_conn k) l (ground (arith, h))

    held : (p : Session) → Held p s → Held p (spawn_connection s k)
    held (delivering j k' m) h = (omega (arith, h.0), ap (λ c. c.conn_id) (old j h.0) ∙ h.1)
    held (dialing k') h = tt
    held waiting h = tt
    held (unmapping k') h = tt
    held (refusing k') h = tt

    in_hand : (p : Session) → Held p s → InHand p i d s → InHand p i d (spawn_connection s k)
    in_hand (delivering j k' m) h v =
        λ e. EndsIn-eq d _ _ (sym (ap (λ c. c.routed ++ payload m) (old j h.0))) (v e)
    in_hand (dialing k') h v = tt
    in_hand waiting h v = tt
    in_hand (unmapping k') h v = tt
    in_hand (refusing k') h v = tt

-- A message goes into the channel.
pushed-Piece :
    (i j k : ℕ) (m : WrMsg) (d : Bytes) (s : Tunnel)
    → s.session ≡ delivering j k m
    → Inv s
    → Piece i d s
    → Piece i d (record s { conn = update s.conn j (push_msg (s.conn j) m); session = waiting })
pushed-Piece i j k m d s e w v = record {
  held = tt;
  within = λ l less q. elim (Bool-cases (j == l)) [
    | inl same ↦
        let here : j ≡ l = ground arith in
        ([], pushed l same (ap (λ z. (s.conn z).conn_id) here ∙ sym (pushed_id s j m l) ∙ q))
    | inr other ↦
        let miss = update_miss s.conn j (push_msg (s.conn j) m) l other in
        let (rest, (before, p)) = v.within l less (sym (ap (λ c. c.conn_id) miss) ∙ q) in
        (rest, (before, p ∙ sym (ap (λ c. before ++ (c.routed ++ rest)) miss)))
  ];
  mapped = λ l q. elim (Bool-cases (j == l)) [
    | inl same ↦
        let here : j ≡ l = ground arith in
        pushed l same (ap (λ z. (s.conn z).conn_id) here ∙ (w.mapped i l q).1.0)
    | inr other ↦
        EndsIn-eq d _ _
          (ap (λ p. (s.conn l).routed ++ pending p l) e
            ∙ ap (λ z. (s.conn l).routed ++ (if z then payload m else [])) other
            ∙ sym (ap (λ c. c.routed ++ []) (update_miss s.conn j (push_msg (s.conn j) m) l other)))
          (v.mapped l q)
  ];
  in_hand = tt;
}
  where
    pushed :
        (l : ℕ)
        → (j == l) ≡ true
        → (s.conn j).conn_id ≡ i
        → EndsIn d ((update s.conn j (push_msg (s.conn j) m) l).routed ++ [])
    pushed l same h =
        EndsIn-eq d _ _
          (sym (
            append-nil _ ∙ ap (λ c. c.routed) (update_hit s.conn j (push_msg (s.conn j) m) l same)))
          (subst (λ p. InHand p i d s) e v.in_hand (sym (subst (λ p. Held p s) e v.held).1 ∙ h))

deliver-Piece :
    (i j k : ℕ) (m : WrMsg) (d : Bytes) (s : Tunnel)
    → s.session ≡ delivering j k m
    → Inv s
    → Piece i d s
    → Holds (Piece i d) (deliver s j k m)
unfolding deliver
deliver-Piece i j k m d s e w v = elim (Bool-cases (is_ended (s.conn j).writer)) [
  | inl over ↦ rw (over, deliver) (failed m (failed-pending s i j k _ e over w))
  | inr runs ↦ elim (Bool-cases (ltb (length (s.conn j).queue) conn_queue)) [
    | inl room ↦ rw (runs, deliver) (rw (room, deliver) (pushed-Piece i j k m d s e w v))
    | inr full ↦ rw (runs, deliver) (rw (full, deliver) tt)
  ]
]
  where
    failed :
        (m : WrMsg)
        → ((l : ℕ) → s.conns i ≡ some l → pending s.session l ≡ [])
        → Piece i d (after_failed_send s k m)
    failed (bytes b) h = unfold after_failed_send in Piece-rest i d s (unmapping k) refl h v
    failed shutdown h = unfold after_failed_send in Piece-rest i d s waiting refl h v

pub resume-Piece :
    (i : ℕ) (p : Session) (d : Bytes) (s : Tunnel)
    → s.session ≡ p
    → Inv s
    → Piece i d s
    → Holds (Piece i d) (resume p s)
unfolding resume
resume-Piece i (delivering j k m) d s e w v = deliver-Piece i j k m d s e w v
resume-Piece i (unmapping k) d s e w v =
    Piece-Still i d (record s { session = refusing k }) _
      (record {
        spawned_is = refl;
        id_is = λ l. refl;
        routed_is = λ l. refl;
        shrinks = λ a b q. mapped_without s.conns k (λ a b. s.conns a ≡ some b) (λ a b h. h) a b q;
        session_is = refl;
      })
      (Piece-rest i d s (refusing k) refl (λ j q. ap (λ p. pending p j) e) v)
resume-Piece i (refusing k) d s e w v =
    Holds-Piece i d (record s { session = waiting }) _
      (Piece-rest i d s waiting refl (λ j q. ap (λ p. pending p j) e) v) (send_peer-Still _ _ _)
resume-Piece i waiting d s e w v = tt
resume-Piece i (dialing k) d s e w v = tt

pub dial_done-Piece :
    (i : ℕ) (p : Session) (ok : Bool) (d : Bytes) (s : Tunnel)
    → s.session ≡ p
    → Inv (record s { session = waiting })
    → Piece i d s
    → Holds (Piece i d) (dial_done p ok s)
unfolding dial_done
dial_done-Piece i (dialing k) true d s e w v =
    spawn_connection-Piece i k d (record s { session = waiting }) w
      (Piece-rest i d s waiting refl (λ j q. ap (λ p. pending p j) e) v)
dial_done-Piece i (dialing k) false d s e w v =
    Piece-rest i d s (refusing k) refl (λ j q. ap (λ p. pending p j) e) v
dial_done-Piece i _ ok d s e w v = tt
