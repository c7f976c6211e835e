-- ===== src/Tcp/Arriving/Loop.antt =====
-- src/tcp.rs: what has arrived, through the session loop.
use ws_usb_linux.Base.{
  ℕ, ◌≡◌, inl, inr, refl, sym, ap, subst, ◌∙◌, Bool, true, false, Option, none, some, List, [], ◌∷◌,
  ◌++◌, append-nil, length, ltb, if◌then◌else◌, Bool-cases, arith, Bytes, ◌==◌,
}
use ws_usb_linux.Base.Maps.{update, update_hit, update_miss, Holds}
use ws_usb_linux.Tcp.{
  out_queue, conn_queue, WrMsg, bytes, shutdown, OutFrame, Session, waiting, dialing, delivering,
  unmapping, refusing, Tunnel, send_peer, spawn_connection, new_conn,
}
use ws_usb_linux.Tcp.Tasks.{
  is_ended, payload, push_msg, deliver, resume, drain, dial_done, after_failed_send,
}
use ws_usb_linux.Tcp.Invariant.{Inv, mapped_without}
use ws_usb_linux.Tcp.Arriving.{
  Stage, unopened, opened, disordered, pending, NoConn, Held, Behind, NotDialing, Arrived,
}
use ws_usb_linux.Tcp.Arriving.Moves.{Still, Arrived-Still, Arrived-rest}

pub Holds-Still :
    (i : ℕ) (st : Stage) (s : Tunnel) (o : Option Tunnel)
    → Arrived i st s
    → Holds (Still s) o
    → Holds (Arrived i st) o
Holds-Still i st s none v h = tt
Holds-Still i st s (some t) v h = Arrived-Still i st s t h v

pub send_peer-Still : (s : Tunnel) (cmd : ℕ) (body : Bytes) → Holds (Still s) (send_peer s cmd body)
unfolding send_peer
send_peer-Still s cmd body = elim (Bool-cases (ltb (length s.out) out_queue)) [
  | inr full ↦ rw (full, send_peer) tt
  | inl room ↦
      rw (room, send_peer)
        (record {
          spawned_is = refl;
          id_is = λ l. refl;
          routed_is = λ l. refl;
          shrinks = λ k j e. e;
          session_is = refl;
        })
]

pub drain-Still :
    (p : Session) (ok : Bool) (out : List OutFrame) (s : Tunnel)
    → Holds (Still s) (drain p ok out s)
unfolding drain
drain-Still waiting true (f ∷ rest) s = record {
  spawned_is = refl;
  id_is = λ l. refl;
  routed_is = λ l. refl;
  shrinks = λ k j e. e;
  session_is = refl;
}
drain-Still waiting false (f ∷ rest) s = record {
  spawned_is = refl;
  id_is = λ l. refl;
  routed_is = λ l. refl;
  shrinks = λ k j e. e;
  session_is = refl;
}
drain-Still _ ok _ s = tt

-- A dial ends well.
spawned-Arrived :
    (i k : ℕ) (st : Stage) (s : Tunnel)
    → s.session ≡ dialing k
    → Inv s
    → Arrived i st s
    → Arrived i st (spawn_connection (record s { session = waiting }) k)
unfolding spawn_connection
spawned-Arrived i k unopened s e w v = record {
  held = tt;
  absent = λ l less q. elim (Bool-cases (s.spawned == l)) [
    | inl same ↦
        subst (λ p. NotDialing p i) e v.not_dialing
          (sym (ap (λ c. c.conn_id) (update_hit s.conn s.spawned (new_conn k) l same)) ∙ q)
    | inr other ↦
        v.absent l (ground (arith, less))
          (sym (ap (λ c. c.conn_id) (update_miss s.conn s.spawned (new_conn k) l other)) ∙ q)
  ];
  not_dialing = tt;
}
spawned-Arrived i k (opened b) s e w v = record {
  held = tt;
  prefix = λ l less q. elim (Bool-cases (s.spawned == l)) [
    | inl same ↦
        (b, sym (ap (λ c. c.routed ++ b) (update_hit s.conn s.spawned (new_conn k) l same)))
    | inr other ↦
        let miss = update_miss s.conn s.spawned (new_conn k) l other in
        let (rest, p) = v.prefix l (ground (arith, less)) (sym (ap (λ c. c.conn_id) miss) ∙ q) in
        (rest, p ∙ sym (ap (λ c. c.routed ++ rest) miss))
  ];
  mapped = λ l q. elim (Bool-cases (k == i)) [
    | inl same ↦
        let here : l ≡ s.spawned = ground (arith, q, same) in
        let at = update_hit s.conn s.spawned (new_conn k) l (ground (arith, here)) in
        (dialed_behind (ground (arith, same))).1 ∙ sym (append-nil _ ∙ ap (λ c. c.routed) at)
    | inr other ↦
        let before : s.conns i ≡ some l =
          sym (update_miss s.conns k (some s.spawned) i other) ∙ q in
        let miss =
          update_miss s.conn s.spawned (new_conn k) l (ground (arith, (w.mapped i l before).0)) in
        v.mapped l before
        ∙ ap (λ p. (s.conn l).routed ++ pending p l) e
        ∙ sym (ap (λ c. c.routed ++ []) miss)
  ];
  behind = tt;
}
  where
    dialed_behind : k ≡ i → NoConn i s × (b ≡ [])
    dialed_behind = subst (λ p. Behind p i b s) e v.behind
spawned-Arrived i k disordered s e w v = tt

-- What a message in a channel leaves alone.
pub pushed_id :
    (s : Tunnel) (j : ℕ) (m : WrMsg) (l : ℕ)
    → (update s.conn j (push_msg (s.conn j) m) l).conn_id ≡ (s.conn l).conn_id
pushed_id s j m l = elim (Bool-cases (j == l)) [
  | inl same ↦
      ap (λ c. c.conn_id) (update_hit s.conn j (push_msg (s.conn j) m) l same)
      ∙ ap (λ z. (s.conn z).conn_id) (ground arith)
  | inr other ↦ ap (λ c. c.conn_id) (update_miss s.conn j (push_msg (s.conn j) m) l other)
]

-- The session loop has nothing in hand for a mapped connection when its channel is closed.
pub failed-pending :
    (s : Tunnel) (i j k : ℕ) (m : WrMsg)
    → s.session ≡ delivering j k m
    → is_ended (s.conn j).writer ≡ true
    → Inv s
    → (l : ℕ) → s.conns i ≡ some l
    → pending s.session l ≡ []
failed-pending s i j k m e over w l q = ap (λ p. pending p l) e ∙ elim (Bool-cases (j == l)) [
  | inl same ↦ let here : j ≡ l = ground arith in absurd (cc (over, (w.mapped i l q).1.1, here))
  | inr other ↦ rw other refl
]

-- A message goes into the channel.
pushed-Arrived :
    (i j k : ℕ) (m : WrMsg) (st : Stage) (s : Tunnel)
    → s.session ≡ delivering j k m
    → Inv s
    → Arrived i st s
    → Arrived i st (record s { conn = update s.conn j (push_msg (s.conn j) m); session = waiting })
pushed-Arrived i j k m unopened s e w v = record {
  held = tt;
  absent = λ l less q. v.absent l less (sym (pushed_id s j m l) ∙ q);
  not_dialing = tt;
}
pushed-Arrived i j k m (opened b) s e w v = record {
  held = tt;
  prefix = λ l less q. elim (Bool-cases (j == l)) [
    | inl same ↦
        let here : j ≡ l = ground arith in
        (
          [],
          complete (ap (λ z. (s.conn z).conn_id) here ∙ sym (pushed_id s j m l) ∙ q)
              ∙ sym (
                  append-nil _
                  ∙ ap (λ c. c.routed) (update_hit s.conn j (push_msg (s.conn j) m) l same)),
        )
    | inr other ↦
        let miss = update_miss s.conn j (push_msg (s.conn j) m) l other in
        let (rest, p) = v.prefix l less (sym (ap (λ c. c.conn_id) miss) ∙ q) in
        (rest, p ∙ sym (ap (λ c. c.routed ++ rest) miss))
  ];
  mapped = λ l q. elim (Bool-cases (j == l)) [
    | inl same ↦
        let here : j ≡ l = ground arith in
        complete (ap (λ z. (s.conn z).conn_id) here ∙ (w.mapped i l q).1.0)
        ∙ sym
            (append-nil _ ∙ ap (λ c. c.routed) (update_hit s.conn j (push_msg (s.conn j) m) l same))
    | inr other ↦
        v.mapped l q
        ∙ ap (λ p. (s.conn l).routed ++ pending p l) e
        ∙ ap (λ z. (s.conn l).routed ++ (if z then payload m else [])) other
        ∙ sym (ap (λ c. c.routed ++ []) (update_miss s.conn j (push_msg (s.conn j) m) l other))
  ];
  behind = tt;
}
  where
    complete : (s.conn j).conn_id ≡ i → b ≡ (s.conn j).routed ++ payload m
    complete h = subst (λ p. Behind p i b s) e v.behind (sym (subst (λ p. Held p s) e v.held).1 ∙ h)
pushed-Arrived i j k m disordered s e w v = tt

deliver-Arrived :
    (i j k : ℕ) (m : WrMsg) (st : Stage) (s : Tunnel)
    → s.session ≡ delivering j k m
    → Inv s
    → Arrived i st s
    → Holds (Arrived i st) (deliver s j k m)
unfolding deliver
deliver-Arrived i j k m st s e w v = elim (Bool-cases (is_ended (s.conn j).writer)) [
  | inl over ↦ rw (over, deliver) (failed m (failed-pending s i j k _ e over w))
  | inr runs ↦ elim (Bool-cases (ltb (length (s.conn j).queue) conn_queue)) [
    | inl room ↦ rw (runs, deliver) (rw (room, deliver) (pushed-Arrived i j k m st s e w v))
    | inr full ↦ rw (runs, deliver) (rw (full, deliver) tt)
  ]
]
  where
    failed :
        (m : WrMsg)
        → ((l : ℕ) → s.conns i ≡ some l → pending s.session l ≡ [])
        → Arrived i st (after_failed_send s k m)
    failed (bytes b) h = unfold after_failed_send in Arrived-rest i st s (unmapping k) refl h v
    failed shutdown h = unfold after_failed_send in Arrived-rest i st s waiting refl h v

pub resume-Arrived :
    (i : ℕ) (p : Session) (st : Stage) (s : Tunnel)
    → s.session ≡ p
    → Inv s
    → Arrived i st s
    → Holds (Arrived i st) (resume p s)
unfolding resume
resume-Arrived i (delivering j k m) st s e w v = deliver-Arrived i j k m st s e w v
resume-Arrived i (unmapping k) st s e w v =
    Arrived-Still i st (record s { session = refusing k }) _
      (record {
        spawned_is = refl;
        id_is = λ l. refl;
        routed_is = λ l. refl;
        shrinks = λ a b q. mapped_without s.conns k (λ a b. s.conns a ≡ some b) (λ a b h. h) a b q;
        session_is = refl;
      })
      (Arrived-rest i st s (refusing k) refl (λ j q. ap (λ p. pending p j) e) v)
resume-Arrived i (refusing k) st s e w v =
    Holds-Still i st (record s { session = waiting }) _
      (Arrived-rest i st s waiting refl (λ j q. ap (λ p. pending p j) e) v) (send_peer-Still _ _ _)
resume-Arrived i waiting st s e w v = tt
resume-Arrived i (dialing k) st s e w v = tt

pub dial_done-Arrived :
    (i : ℕ) (p : Session) (ok : Bool) (st : Stage) (s : Tunnel)
    → s.session ≡ p
    → Inv s
    → Arrived i st s
    → Holds (Arrived i st) (dial_done p ok s)
unfolding dial_done
dial_done-Arrived i (dialing k) true st s e w v = spawned-Arrived i k st s e w v
dial_done-Arrived i (dialing k) false st s e w v =
    Arrived-rest i st s (refusing k) refl (λ j q. ap (λ p. pending p j) e) v
dial_done-Arrived i _ ok st s e w v = tt
