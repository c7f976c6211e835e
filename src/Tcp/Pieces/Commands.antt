-- ===== src/Tcp/Pieces/Commands.antt =====
-- src/tcp.rs: the piece of a connection, through the commands that the session loop is given.
use ws_usb_linux.Base.{
  ℕ, ◌≡◌, ◌≢◌, inl, inr, refl, sym, ap, subst, ◌∙◌, Bool, true, false, some, [], ◌∷◌, ◌++◌,
  append-nil, append_assoc, if◌then◌else◌, Bool-cases, Option-cases, arith, Bytes, ◌==◌,
}
use ws_usb_linux.Base.Maps.{Holds}
use ws_usb_linux.Proto.{cmd_tcp_open, cmd_tcp_data, cmd_tcp_close}
use ws_usb_linux.Tcp.{
  WrMsg, bytes, shutdown, Session, waiting, dialing, delivering, Tunnel, dispatch, route_data,
  route_close,
}
use ws_usb_linux.Tcp.Tasks.{payload, command}
use ws_usb_linux.Tcp.Invariant.{Inv}
use ws_usb_linux.Tcp.Outgoing.{behind_id, data_in}
use ws_usb_linux.Tcp.Arriving.{pending}
use ws_usb_linux.Tcp.Pieces.{EndsIn, EndsIn-eq, InHand, Piece}

more_behind : (d b x : Bytes) → EndsIn d b → EndsIn (d ++ x) (b ++ x)
more_behind d b x (before, h) = (before, ap (λ z. z ++ x) h ∙ append_assoc before b x)

module _ (i k j : ℕ) (m : WrMsg) (d : Bytes) (s : Tunnel) (p : s.session ≡ waiting)
    (q : s.conns k ≡ some j) (w : Inv s) (v : Piece i d s) where
  abbrev added : Bytes
  added = if k == i then payload m else []

  before_it : (l : ℕ) → s.conns i ≡ some l → EndsIn d (s.conn l).routed
  before_it l e =
      EndsIn-eq d _ _ (ap (λ z. (s.conn l).routed ++ pending z l) p ∙ append-nil _) (v.mapped l e)

  is_i : k ≡ i → (k == i) ≡ true
  is_i e = ground (arith, e)

  hit : (l : ℕ) → s.conns i ≡ some l → k ≡ i → (j == l) ≡ true
  hit l e same =
      let found : some l ≡ some j = sym e ∙ ap s.conns (sym same) ∙ q in ground (arith, found)

  miss : (l : ℕ) → s.conns i ≡ some l → k ≢ i → (j == l) ≡ false
  miss l e other = elim (Bool-cases (j == l)) [
    | inr apart ↦ apart
    | inl at ↦
        let one : j ≡ l = ground (arith, at) in
        absurd (
          other
            (sym (w.mapped k j q).1.0 ∙ ap (λ z. (s.conn z).conn_id) one ∙ (w.mapped i l e).1.0))
  ]

  in_place : (l : ℕ) → s.conns i ≡ some l → added ≡ (if j == l then payload m else [])
  in_place l e = elim (Bool-cases (k == i)) [
    | inl same ↦ rw (same, hit l e (ground (arith, same))) refl
    | inr other ↦ rw (other, miss l e (ground (arith, other))) refl
  ]

  -- A message for the id is in hand for the connection that is mapped.
  delivering-Piece : Piece i (d ++ added) (record s { session = delivering j k m })
  delivering-Piece = record {
    held = ((w.mapped k j q).0, (w.mapped k j q).1.0);
    within = λ l less e.
        let (rest, (before, h)) = v.within l less e in
        (
          rest ++ added,
          EndsIn-eq (d ++ added) _ _ (append_assoc (s.conn l).routed rest added)
              (more_behind d ((s.conn l).routed ++ rest) added (before, h)),
        );
    mapped = λ l e.
        EndsIn-eq (d ++ added) _ _ (ap (λ z. (s.conn l).routed ++ z) (in_place l e))
          (more_behind d (s.conn l).routed added (before_it l e));
    in_hand = λ e.
        EndsIn-eq (d ++ added) _ _
          (ap (λ z. (s.conn j).routed ++ (if z then payload m else [])) (is_i e))
          (more_behind d (s.conn j).routed added (before_it j (ap s.conns (sym e) ∙ q)));
  }

-- Bytes for an id that is not mapped.
grown-Piece :
    (i : ℕ) (d more : Bytes) (s : Tunnel)
    → s.session ≡ waiting
    → ((l : ℕ) → s.conns i ≢ some l)
    → Piece i d s
    → Piece i (d ++ more) s
grown-Piece i d more s p h v = record {
  held = v.held;
  within = λ l less e.
      let (rest, b) = v.within l less e in
      (
        rest ++ more,
        EndsIn-eq (d ++ more) _ _ (append_assoc (s.conn l).routed rest more)
            (more_behind d ((s.conn l).routed ++ rest) more b),
      );
  mapped = λ l e. absurd (h l e);
  in_hand = subst (λ z. InHand z i (d ++ more) s) (sym p) tt;
}

pub nothing-Piece : (i : ℕ) (d : Bytes) (s : Tunnel) → Piece i d s → Piece i (d ++ []) s
nothing-Piece i d s v = subst (λ z. Piece i z s) (sym (append-nil d)) v

abbrev no_bytes : Bytes
no_bytes = []

if_nil : (z : Bool) → (if z then no_bytes else []) ≡ no_bytes
if_nil true = refl
if_nil false = refl

data-Piece :
    (i k : ℕ) (body d : Bytes) (s : Tunnel)
    → s.session ≡ waiting
    → Inv s
    → Piece i d s
    → Piece i (d ++ behind_id i (k ∷ body)) (route_data s k body)
unfolding route_data
data-Piece i k [] d s p w v =
    subst (λ z. Piece i (d ++ z) s) (sym (if_nil (k == i))) (nothing-Piece i d s v)
data-Piece i k (x ∷ body) d s p w v = elim (Option-cases (s.conns k)) [
  | inr (j, e) ↦ rw (e, route_data) (delivering-Piece i k j (bytes (x ∷ body)) d s p e w v)
  | inl e ↦
      rw (e, route_data)
        (elim (Bool-cases (k == i)) [
          | inl same ↦ grown-Piece i d _ s p (λ l q. ground (arith, same, e, q)) v
          | inr other ↦
              subst (λ z. Piece i (d ++ z) s) (sym (ap (λ z. if z then x ∷ body else []) other))
                (nothing-Piece i d s v)
        ])
]

close-Piece :
    (i k : ℕ) (d : Bytes) (s : Tunnel)
    → s.session ≡ waiting
    → Inv s
    → Piece i d s
    → Piece i (d ++ []) (route_close s k)
unfolding route_close
close-Piece i k d s p w v = elim (Option-cases (s.conns k)) [
  | inl e ↦ rw (e, route_close) (nothing-Piece i d s v)
  | inr (j, e) ↦
      rw (e, route_close)
        (subst (λ z. Piece i (d ++ z) (record s { session = delivering j k shutdown }))
          (if_nil (k == i)) (delivering-Piece i k j shutdown d s p e w v))
]

open-Piece :
    (i k : ℕ) (d : Bytes) (dials : Bool) (s : Tunnel)
    → s.session ≡ waiting
    → Piece i d s
    → Piece i (d ++ []) (if dials then record s { session = dialing k } else s)
open-Piece i k d true s p v = nothing-Piece i d _ (record {
  held = tt;
  within = v.within;
  mapped = λ l e. EndsIn-eq d _ _ (ap (λ z. (s.conn l).routed ++ pending z l) p) (v.mapped l e);
  in_hand = tt;
})
open-Piece i k d false s p v = nothing-Piece i d s v

dispatch-Piece :
    (i cmd k : ℕ) (body d : Bytes) (dials : Bool) (s : Tunnel)
    → s.session ≡ waiting
    → Inv s
    → Piece i d s
    → Piece i (d ++ data_in i (record { cmd = cmd; body = k ∷ body })) (dispatch dials s cmd k body)
unfolding dispatch
dispatch-Piece i cmd k body d dials s p w v = elim (Bool-cases (cmd == cmd_tcp_open)) [
  | inl is_open ↦
      let no_data : (cmd == cmd_tcp_data) ≡ false = ground (arith, is_open) in
      rw (is_open, no_data, dispatch) (open-Piece i k d dials s p v)
  | inr h ↦ elim (Bool-cases (cmd == cmd_tcp_data)) [
    | inl is_data ↦ rw (h, is_data, dispatch) (data-Piece i k body d s p w v)
    | inr g ↦ rw (h, g, dispatch) (close_or_not (cmd == cmd_tcp_close))
  ]
]
  where
    close_or_not : (z : Bool) → Piece i (d ++ []) (if z then route_close s k else s)
    close_or_not true = close-Piece i k d s p w v
    close_or_not false = nothing-Piece i d s v

pub command-Piece :
    (i : ℕ) (p : Session) (cmd k : ℕ) (body d : Bytes) (dials : Bool) (s : Tunnel)
    → s.session ≡ p
    → Inv s
    → Piece i d s
    → Holds
        (Piece i (d ++ data_in i (record { cmd = cmd; body = k ∷ body })))
        (command p dials cmd k body s)
unfolding command
command-Piece i waiting cmd k body d dials s e w v = dispatch-Piece i cmd k body d dials s e w v
command-Piece i _ cmd k body d dials s e w v = tt
