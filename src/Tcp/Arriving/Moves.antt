-- ===== src/Tcp/Arriving/Moves.antt =====
-- src/tcp.rs: what has arrived, through the steps that do not add to it.
use ws_usb_linux.Base.{
  ℕ, ◌≡◌, refl, sym, ap, subst, ◌∙◌, Bool, true, false, some, [], ◌++◌, arith, Bytes,
}
use ws_usb_linux.Tcp.{Session, waiting, dialing, delivering, unmapping, refusing, Tunnel}
use ws_usb_linux.Tcp.Tasks.{payload}
use ws_usb_linux.Tcp.Arriving.{
  Stage, unopened, opened, disordered, pending, NoConn, Held, Behind, NotDialing, Arrived,
}

-- Neither the session loop nor a channel moves; entries of the map may go.
pub record Still (s t : Tunnel) : Type 0 where
  pub spawned_is : t.spawned ≡ s.spawned
  pub id_is : (l : ℕ) → (t.conn l).conn_id ≡ (s.conn l).conn_id
  pub routed_is : (l : ℕ) → (t.conn l).routed ≡ (s.conn l).routed
  pub shrinks : (k j : ℕ) → t.conns k ≡ some j → s.conns k ≡ some j
  pub session_is : t.session ≡ s.session

pub Held-Still : (p : Session) (s t : Tunnel) → Still s t → Held p s → Held p t
Held-Still (delivering j k m) s t h v = (omega (arith, v.0, h.spawned_is), h.id_is j ∙ v.1)
Held-Still waiting s t h v = tt
Held-Still (dialing k) s t h v = tt
Held-Still (unmapping k) s t h v = tt
Held-Still (refusing k) s t h v = tt

NoConn-Still : (i : ℕ) (s t : Tunnel) → Still s t → NoConn i s → NoConn i t
NoConn-Still i s t h v l less e = v l (omega (arith, less, h.spawned_is)) (sym (h.id_is l) ∙ e)

Behind-Still :
    (p : Session) (i : ℕ) (b : Bytes) (s t : Tunnel) → Still s t → Behind p i b s → Behind p i b t
Behind-Still (delivering j k m) i b s t h v =
    λ e. v e ∙ ap (λ z. z ++ payload m) (sym (h.routed_is j))
Behind-Still (dialing k) i b s t h v = λ e. (NoConn-Still i s t h (v e).0, (v e).1)
Behind-Still waiting i b s t h v = tt
Behind-Still (unmapping k) i b s t h v = tt
Behind-Still (refusing k) i b s t h v = tt

pub Arrived-Still :
    (i : ℕ) (st : Stage) (s t : Tunnel) → Still s t → Arrived i st s → Arrived i st t
Arrived-Still i unopened s t h v = record {
  held = subst (λ p. Held p t) (sym h.session_is) (Held-Still s.session s t h v.held);
  absent = NoConn-Still i s t h v.absent;
  not_dialing = subst (λ p. NotDialing p i) (sym h.session_is) v.not_dialing;
}
Arrived-Still i (opened b) s t h v = record {
  held = subst (λ p. Held p t) (sym h.session_is) (Held-Still s.session s t h v.held);
  prefix = λ j less e.
      let (rest, q) = v.prefix j (omega (arith, less, h.spawned_is)) (sym (h.id_is j) ∙ e) in
      (rest, q ∙ ap (λ z. z ++ rest) (sym (h.routed_is j)));
  mapped = λ j e.
      v.mapped j (h.shrinks i j e)
      ∙ ap (λ z. z ++ pending s.session j) (sym (h.routed_is j))
      ∙ ap (λ p. (t.conn j).routed ++ pending p j) (sym h.session_is);
  behind =
      subst (λ p. Behind p i b t) (sym h.session_is) (Behind-Still s.session i b s t h v.behind);
}
Arrived-Still i disordered s t h v = tt

-- The places of the session loop at which it has no bytes in hand and dials nothing.
abbrev pub is_rest : Session → Bool
is_rest (dialing k) = false
is_rest (delivering j k m) = false
is_rest _ = true

pub rest-Held : (p : Session) (s : Tunnel) → is_rest p ≡ true → Held p s
rest-Held waiting s h = tt
rest-Held (unmapping k) s h = tt
rest-Held (refusing k) s h = tt
rest-Held (dialing k) s h = tt
rest-Held (delivering j k m) s h = absurd (cc)

rest-Behind : (p : Session) (i : ℕ) (b : Bytes) (s : Tunnel) → is_rest p ≡ true → Behind p i b s
rest-Behind waiting i b s h = tt
rest-Behind (unmapping k) i b s h = tt
rest-Behind (refusing k) i b s h = tt
rest-Behind (dialing k) i b s h = absurd (cc)
rest-Behind (delivering j k m) i b s h = absurd (cc)

rest-NotDialing : (p : Session) (i : ℕ) → is_rest p ≡ true → NotDialing p i
rest-NotDialing waiting i h = tt
rest-NotDialing (unmapping k) i h = tt
rest-NotDialing (refusing k) i h = tt
rest-NotDialing (dialing k) i h = absurd (cc)
rest-NotDialing (delivering j k m) i h = tt

pub rest-pending : (p : Session) (l : ℕ) → is_rest p ≡ true → pending p l ≡ []
rest-pending waiting l h = refl
rest-pending (unmapping k) l h = refl
rest-pending (refusing k) l h = refl
rest-pending (dialing k) l h = refl
rest-pending (delivering j k m) l h = absurd (cc)

-- The session loop goes to such a place, and has nothing in hand for a mapped connection.
pub Arrived-rest :
    (i : ℕ) (st : Stage) (s : Tunnel) (p : Session)
    → is_rest p ≡ true
    → ((j : ℕ) → s.conns i ≡ some j → pending s.session j ≡ [])
    → Arrived i st s
    → Arrived i st (record s { session = p })
Arrived-rest i unopened s p r none_left v = record {
  held = rest-Held p _ r;
  absent = v.absent;
  not_dialing = rest-NotDialing p i r;
}
Arrived-rest i (opened b) s p r none_left v = record {
  held = rest-Held p _ r;
  prefix = v.prefix;
  mapped = λ j e.
      v.mapped j e ∙ ap (λ z. (s.conn j).routed ++ z) (none_left j e ∙ sym (rest-pending p j r));
  behind = rest-Behind p i b _ r;
}
Arrived-rest i disordered s p r none_left v = tt
