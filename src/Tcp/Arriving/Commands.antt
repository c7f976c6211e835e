-- ===== src/Tcp/Arriving/Commands.antt =====
-- src/tcp.rs: what has arrived, through the commands that the session loop is given.
use ws_usb_linux.Base.{
  ℕ, ◌≡◌, ◌≢◌, inl, inr, refl, sym, ap, subst, ◌∙◌, Bool, true, false, some, [], ◌∷◌, ◌++◌,
  append-nil, append_assoc, if◌then◌else◌, Bool-cases, Option-cases, arith, Bytes, ◌==◌,
}
use ws_usb_linux.Base.Maps.{Holds}
use ws_usb_linux.Proto.{cmd_tcp_open, cmd_tcp_data, cmd_tcp_close}
use ws_usb_linux.Tcp.{
  WrMsg, bytes, shutdown, Session, waiting, dialing, delivering, Tunnel, dispatch, route_data,
  route_close,
}
use ws_usb_linux.Tcp.Tasks.{payload, command}
use ws_usb_linux.Tcp.Invariant.{Inv}
use ws_usb_linux.Tcp.Arriving.{
  Stage, unopened, opened, disordered, next_stage, pending, NoConn, Behind, Unopened, Opened,
  Arrived,
}

-- No connection of the id is mapped.
unmapped : (i j : ℕ) (s : Tunnel) → Inv s → NoConn i s → s.conns i ≢ some j
unmapped i j s w h e = let (less, (id, _)) = w.mapped i j e in h j less id

-- OPEN.
open-Arrived :
    (i k : ℕ) (body : Bytes) (st : Stage) (s : Tunnel)
    → s.session ≡ waiting
    → Inv s
    → Arrived i st s
    → Arrived i
        (next_stage i st (record { cmd = cmd_tcp_open; body = k ∷ body }))
        (record s { session = dialing k })
open-Arrived i k body unopened s p w v = elim (Bool-cases (k == i)) [
  | inl same ↦ rw same (record {
    held = tt;
    prefix = λ j less e. absurd (v.absent j less e);
    mapped = λ j e. absurd (unmapped i j s w v.absent e);
    behind = λ e. (v.absent, refl);
  })
  | inr other ↦ rw other (record { held = tt; absent = v.absent; not_dialing = ground arith })
]
open-Arrived i k body (opened b) s p w v = elim (Bool-cases (k == i)) [
  | inl same ↦ rw same tt
  | inr other ↦ rw other (record {
    held = tt;
    prefix = v.prefix;
    mapped = λ j e. v.mapped j e ∙ ap (λ z. (s.conn j).routed ++ pending z j) p;
    behind = λ e. absurd (ground arith);
  })
]
open-Arrived i k body disordered s p w v = tt

-- A message for the id is in hand for the connection that is mapped.
delivering-Opened :
    (i k j : ℕ) (m : WrMsg) (b : Bytes) (s : Tunnel)
    → s.session ≡ waiting
    → s.conns k ≡ some j
    → Inv s
    → Opened i b s
    → Opened i (b ++ (if k == i then payload m else [])) (record s { session = delivering j k m })
delivering-Opened i k j m b s p q w v = record {
  held = ((w.mapped k j q).0, (w.mapped k j q).1.0);
  prefix = λ l less e.
      let (rest, h) = v.prefix l less e in
      (
        rest ++ (if k == i then payload m else []),
        ap (λ z. z ++ (if k == i then payload m else [])) h
            ∙ append_assoc (s.conn l).routed rest (if k == i then payload m else []),
      );
  mapped = mapped;
  behind = λ e. here e ∙ ap (λ z. (s.conn j).routed ++ (if z then payload m else [])) (is_i e);
}
  where
    is_i : k ≡ i → (k == i) ≡ true
    is_i e = ground (arith, e)

    before : (l : ℕ) → s.conns i ≡ some l → b ≡ (s.conn l).routed
    before l e = v.mapped l e ∙ ap (λ z. (s.conn l).routed ++ pending z l) p ∙ append-nil _

    here :
        k ≡ i
        → b ++ (if k == i then payload m else [])
          ≡ (s.conn j).routed ++ (if k == i then payload m else [])
    here e = ap (λ z. z ++ (if k == i then payload m else [])) (before j (ap s.conns (sym e) ∙ q))

    hit : (l : ℕ) → s.conns i ≡ some l → k ≡ i → (j == l) ≡ true
    hit l e same =
        let found : some l ≡ some j = sym e ∙ ap s.conns (sym same) ∙ q in ground (arith, found)

    miss : (l : ℕ) → s.conns i ≡ some l → k ≢ i → (j == l) ≡ false
    miss l e other = elim (Bool-cases (j == l)) [
      | inr apart ↦ apart
      | inl at ↦
          let one : j ≡ l = ground (arith, at) in
          absurd (
            other
              (sym (w.mapped k j q).1.0 ∙ ap (λ z. (s.conn z).conn_id) one ∙ (w.mapped i l e).1.0))
    ]

    agree :
        (l : ℕ)
        → s.conns i ≡ some l
        → (if k == i then payload m else []) ≡ (if j == l then payload m else [])
        → b ++ (if k == i then payload m else [])
          ≡ (s.conn l).routed ++ (if j == l then payload m else [])
    agree l e h =
        ap (λ z. z ++ (if k == i then payload m else [])) (before l e)
        ∙ ap (λ z. (s.conn l).routed ++ z) h

    mapped :
        (l : ℕ)
        → s.conns i ≡ some l
        → b ++ (if k == i then payload m else [])
          ≡ (s.conn l).routed ++ (if j == l then payload m else [])
    mapped l e = elim (Bool-cases (k == i)) [
      | inl same ↦ agree l e (rw (same, hit l e (ground (arith, same))) refl)
      | inr other ↦ agree l e (rw (other, miss l e (ground (arith, other))) refl)
    ]

-- Bytes for an id that is not mapped.
Opened-grown :
    (i : ℕ) (more b : Bytes) (s : Tunnel)
    → s.session ≡ waiting
    → ((j : ℕ) → s.conns i ≢ some j)
    → Opened i b s
    → Opened i (b ++ more) s
Opened-grown i more b s p h v = record {
  held = v.held;
  prefix = λ l less e.
      let (rest, q) = v.prefix l less e in
      (rest ++ more, ap (λ z. z ++ more) q ∙ append_assoc (s.conn l).routed rest more);
  mapped = λ j e. absurd (h j e);
  behind = subst (λ z. Behind z i (b ++ more) s) (sym p) tt;
}

delivering-Unopened :
    (i k j : ℕ) (m : WrMsg) (s : Tunnel)
    → s.conns k ≡ some j
    → Inv s
    → Unopened i s
    → Unopened i (record s { session = delivering j k m })
delivering-Unopened i k j m s q w v = record {
  held = ((w.mapped k j q).0, (w.mapped k j q).1.0);
  absent = v.absent;
  not_dialing = tt;
}

nothing_added : (z : Bool) (b : Bytes) → b ++ (if z then [] else []) ≡ b
nothing_added true b = append-nil b
nothing_added false b = append-nil b

-- DATA.
data-Unopened :
    (i k : ℕ) (body : Bytes) (s : Tunnel) → Inv s → Unopened i s → Unopened i (route_data s k body)
unfolding route_data
data-Unopened i k [] s w v = v
data-Unopened i k (x ∷ body) s w v = elim (Option-cases (s.conns k)) [
  | inl e ↦ rw (e, route_data) v
  | inr (j, e) ↦ rw (e, route_data) (delivering-Unopened i k j _ s e w v)
]

data-Opened :
    (i k : ℕ) (body b : Bytes) (s : Tunnel)
    → s.session ≡ waiting
    → Inv s
    → Opened i b s
    → Opened i (b ++ (if k == i then body else [])) (route_data s k body)
unfolding route_data
data-Opened i k [] b s p w v = subst (λ z. Opened i z s) (sym (nothing_added (k == i) b)) v
data-Opened i k (x ∷ body) b s p w v = elim (Option-cases (s.conns k)) [
  | inr (j, e) ↦ rw (e, route_data) (delivering-Opened i k j (bytes (x ∷ body)) b s p e w v)
  | inl e ↦
      rw (e, route_data)
        (elim (Bool-cases (k == i)) [
          | inl same ↦ Opened-grown i _ b s p (λ j q. ground (arith, same, e, q)) v
          | inr other ↦
              subst (λ z. Opened i z s)
                (sym (ap (λ z. b ++ (if z then x ∷ body else [])) other ∙ append-nil b)) v
        ])
]

data-Arrived :
    (i k : ℕ) (body : Bytes) (st : Stage) (s : Tunnel)
    → s.session ≡ waiting
    → Inv s
    → Arrived i st s
    → Arrived i
        (next_stage i st (record { cmd = cmd_tcp_data; body = k ∷ body }))
        (route_data s k body)
data-Arrived i k body unopened s p w v = elim (Bool-cases (k == i)) [
  | inl same ↦ rw same tt
  | inr other ↦ rw other (data-Unopened i k body s w v)
]
data-Arrived i k body (opened b) s p w v = data-Opened i k body b s p w v
data-Arrived i k body disordered s p w v = tt

-- CLOSE.
close-Arrived :
    (i k : ℕ) (st : Stage) (s : Tunnel)
    → s.session ≡ waiting
    → Inv s
    → Arrived i st s
    → Arrived i st (route_close s k)
unfolding route_close
close-Arrived i k unopened s p w v = elim (Option-cases (s.conns k)) [
  | inl e ↦ rw (e, route_close) v
  | inr (j, e) ↦ rw (e, route_close) (delivering-Unopened i k j _ s e w v)
]
close-Arrived i k (opened b) s p w v = elim (Option-cases (s.conns k)) [
  | inl e ↦ rw (e, route_close) v
  | inr (j, e) ↦
      rw (e, route_close)
        (subst (λ z. Opened i z (record s { session = delivering j k shutdown }))
          (nothing_added (k == i) b) (delivering-Opened i k j shutdown b s p e w v))
]
close-Arrived i k disordered s p w v = tt

-- A command of another kind says nothing of any id.
other_stage :
    (i : ℕ) (st : Stage) (cmd : ℕ) (body : Bytes)
    → (cmd == cmd_tcp_open) ≡ false
    → (cmd == cmd_tcp_data) ≡ false
    → next_stage i st (record { cmd = cmd; body = body }) ≡ st
other_stage i unopened cmd body h g = rw (h, g) refl
other_stage i (opened b) cmd body h g = rw (h, g) refl
other_stage i disordered cmd body h g = refl

dispatch-Arrived :
    (i cmd k : ℕ) (body : Bytes) (st : Stage) (s : Tunnel)
    → s.session ≡ waiting
    → Inv s
    → Arrived i st s
    → Arrived i
        (next_stage i st (record { cmd = cmd; body = k ∷ body }))
        (dispatch true s cmd k body)
unfolding dispatch
dispatch-Arrived i cmd k body st s p w v = elim (Bool-cases (cmd == cmd_tcp_open)) [
  | inl is_open ↦
      let e : cmd_tcp_open ≡ cmd = ground arith in
      subst
        (λ c.
          Arrived i (next_stage i st (record { cmd = c; body = k ∷ body }))
            (dispatch true s c k body))
        e (open-Arrived i k body st s p w v)
  | inr h ↦ elim (Bool-cases (cmd == cmd_tcp_data)) [
    | inl is_data ↦
        let e : cmd_tcp_data ≡ cmd = ground arith in
        subst
          (λ c.
            Arrived i (next_stage i st (record { cmd = c; body = k ∷ body }))
              (dispatch true s c k body))
          e (data-Arrived i k body st s p w v)
    | inr g ↦
        subst (λ z. Arrived i z (dispatch true s cmd k body))
          (sym (other_stage i st cmd (k ∷ body) h g))
          (rw (h, g, dispatch) (close_or_not (cmd == cmd_tcp_close)))
  ]
]
  where
    close_or_not : (z : Bool) → Arrived i st (if z then route_close s k else s)
    close_or_not true = close-Arrived i k st s p w v
    close_or_not false = v

pub command-Arrived :
    (i : ℕ) (p : Session) (cmd k : ℕ) (body : Bytes) (st : Stage) (s : Tunnel)
    → s.session ≡ p
    → Inv s
    → Arrived i st s
    → Holds
        (Arrived i (next_stage i st (record { cmd = cmd; body = k ∷ body })))
        (command p true cmd k body s)
unfolding command
command-Arrived i waiting cmd k body st s e w v = dispatch-Arrived i cmd k body st s e w v
command-Arrived i _ cmd k body st s e w v = tt
