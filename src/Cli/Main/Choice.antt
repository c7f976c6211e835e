-- ===== src/Cli/Main/Choice.antt =====
-- src/main.rs: every choice of `main` is sound.
use ws_usb_linux.Base.{
  ℕ, ◌^◌, ◌≡◌, ◌≢◌, ◌⊎◌, inl, inr, refl, sym, ap, subst, Bool, true, false, Option, none, some,
  List, ◌∷◌, list_eq, list_eq_iff, if◌then◌else◌, Bool-cases,
}
use ws_usb_linux.Base.Maps.{is_some}
use ws_usb_linux.Base.Text.{Text, codes}
use ws_usb_linux.Base.Result.{Result, ok, err, Error}
use ws_usb_linux.Crypto.{Crypto}
use ws_usb_linux.Proto.{Peer}
use ws_usb_linux.Idfile.{Env}
use ws_usb_linux.Relay.{env_or}
use ws_usb_linux.Cli.{Cli, parse, flag, or_first, positional_at, resolve_peer}
use ws_usb_linux.Cli.Main.Sound.{
  ComesFrom, Unresolved, unknown, no_device, no_port, no_target, no_invite, Failing, at_share,
  at_attach, at_listen, at_connect, IsSound,
}
use ws_usb_linux.Cli.Main.{
  Command, tcp_listen, tcp_connect, tcp_connect_accept, authorize, Subcommand, keygen_arm,
  share_arm, attach_arm, listen_arm, connect_arm, authorized_arm, authorize_arm, other, subcommand,
  arm, main, with_peer, or_usage, parsed_at,
}
use ws_usb_linux.Cli.Main.Resolving.{
  resolve_peer-ComesFrom, resolve_peer-Unresolved, parsed_at-IsBaud, parsed_at-IsPort,
  parsed_at-none,
}

-- A rung of the `match` on the subcommand.
rung : (s name : Text) → (s ≡ name) ⊎ ((list_eq s name ≡ false) × (s ≢ name))
rung s name = elim (Bool-cases (list_eq s name)) [
  | inl same ↦ inl ((list_eq_iff s name).0 same)
  | inr differs ↦ inr (differs, λ e. absurd (cc (differs, (list_eq_iff s name).1 e)))
]

-- The words of the subcommands.
abbrev Names : Text → Subcommand → Type 0
Names s keygen_arm = s ≡ codes "keygen"
Names s share_arm = s ≡ codes "share"
Names s attach_arm = s ≡ codes "attach"
Names s listen_arm = s ≡ codes "tcp-listen"
Names s connect_arm = s ≡ codes "tcp-connect"
Names s authorized_arm = s ≡ codes "authorized"
Names s authorize_arm = s ≡ codes "authorize"
Names s other =
    (s ≢ codes "keygen")
    × (s ≢ codes "share")
    × (s ≢ codes "attach")
    × (s ≢ codes "tcp-listen")
    × (s ≢ codes "tcp-connect")
    × (s ≢ codes "authorized")
    × (s ≢ codes "authorize")

subcommand-Names : (s : Text) → Names s (subcommand s)
unfolding subcommand
subcommand-Names s = elim (rung s (codes "keygen")) [
  | inl e ↦ subst (λ z. Names z (subcommand z)) (sym e) refl
  | inr (f1, n1) ↦ elim (rung s (codes "share")) [
    | inl e ↦ subst (λ z. Names z (subcommand z)) (sym e) refl
    | inr (f2, n2) ↦ elim (rung s (codes "attach")) [
      | inl e ↦ subst (λ z. Names z (subcommand z)) (sym e) refl
      | inr (f3, n3) ↦ elim (rung s (codes "tcp-listen")) [
        | inl e ↦ subst (λ z. Names z (subcommand z)) (sym e) refl
        | inr (f4, n4) ↦ elim (rung s (codes "tcp-connect")) [
          | inl e ↦ subst (λ z. Names z (subcommand z)) (sym e) refl
          | inr (f5, n5) ↦ elim (rung s (codes "authorized")) [
            | inl e ↦ subst (λ z. Names z (subcommand z)) (sym e) refl
            | inr (f6, n6) ↦ elim (rung s (codes "authorize")) [
              | inl e ↦ subst (λ z. Names z (subcommand z)) (sym e) refl
              | inr (f7, n7) ↦
                  rw (subcommand, f1, f2, f3, f4, f5, f6, f7) (n1, n2, n3, n4, n5, n6, n7)
            ]
          ]
        ]
      ]
    ]
  ]
]

module _ (c : Crypto) (env : Env) (serial : Bool) (nick : Text) (cli : Cli) (cmd : Text) where
  abbrev Sound : Command → Type 0
  Sound = IsSound c env serial nick cli cmd

  with_peer-IsSound :
      (index : Option ℕ) (r : Result Peer) (mode : Peer → Command)
      → resolve_peer c env cli index ≡ r
      → ((p : Peer) → ComesFrom c env cli index p → Sound (mode p))
      → ((e : Error) → Unresolved c env cli index e → Failing c env serial nick cli cmd e)
      → Sound (with_peer r mode)
  unfolding with_peer
  with_peer-IsSound index (err e) mode q h k = k e (resolve_peer-Unresolved c env cli index e q)
  with_peer-IsSound index (ok p) mode q h k = h p (resolve_peer-ComesFrom c env cli index p q)

  or_usage-IsSound {ℓ} :
      {A : Type ℓ} (o : Option A) (mode : A → Command)
      → ((a : A) → o ≡ some a → Sound (mode a))
      → (o ≡ none → Sound (or_usage {A = A} none mode))
      → Sound (or_usage o mode)
  unfolding or_usage
  or_usage-IsSound none mode h k = k refl
  or_usage-IsSound (some a) mode h k = h a refl

  accept-IsSound :
      (target : Text) (o : Option Text)
      → cmd ≡ codes "tcp-connect"
      → positional_at cli.positionals 0 ≡ some target
      → flag cli (codes "accept") ≡ o
      → Sound (
          if is_some o
          then tcp_connect_accept target nick
          else with_peer (resolve_peer c env cli none) (λ p. tcp_connect target p nick))
  accept-IsSound target (some a) w t e = (w, refl, t, ap is_some e)
  accept-IsSound target none w t e =
      with_peer-IsSound none _ (λ p. tcp_connect target p nick) refl (λ p h. (w, refl, t, e, h))
        (λ x u. at_connect w e u)

  share-IsSound :
      (b : Bool) → serial ≡ b → cmd ≡ codes "share" → Sound (arm c env b nick cli share_arm)
  unfolding arm or_usage
  share-IsSound false s w = (s, inl w)
  share-IsSound true s w =
      or_usage-IsSound (positional_at cli.positionals 0) _
        (λ dev e.
          with_peer-IsSound none _ _ refl
            (λ p h. (w, s, refl, e, parsed_at-IsBaud (flag cli (codes "baud")), h))
            (λ x u. at_share w s u))
        (λ e. no_device w s e)

  attach-IsSound :
      (b : Bool) → serial ≡ b → cmd ≡ codes "attach" → Sound (arm c env b nick cli attach_arm)
  unfolding arm
  attach-IsSound false s w = (s, inr w)
  attach-IsSound true s w =
      with_peer-IsSound (some 0) _ _ refl (λ p h. (w, s, refl, refl, h)) (λ x u. at_attach w s u)

  listen-IsSound : cmd ≡ codes "tcp-listen" → Sound (arm c env serial nick cli listen_arm)
  unfolding arm or_usage
  listen-IsSound w =
      or_usage-IsSound (parsed_at (2 ^ 16) (positional_at cli.positionals 0)) _
        (λ port e.
          with_peer-IsSound none _ (λ p. tcp_listen port p nick) refl
            (λ p h. (w, refl, parsed_at-IsPort (positional_at cli.positionals 0) port e, h))
            (λ x u. at_listen w u))
        (λ e. no_port w (λ port. parsed_at-none (positional_at cli.positionals 0) port e))

  connect-IsSound : cmd ≡ codes "tcp-connect" → Sound (arm c env serial nick cli connect_arm)
  unfolding arm or_usage
  connect-IsSound w =
      or_usage-IsSound (positional_at cli.positionals 0) _
        (λ target e. accept-IsSound target _ w e refl) (λ e. no_target w e)

  or_first-IsSound :
      (f pos : Option Text)
      → cmd ≡ codes "authorize"
      → flag cli (codes "peer") ≡ f
      → positional_at cli.positionals 0 ≡ pos
      → Sound (or_usage (or_first f pos) authorize)
  unfolding or_first or_usage
  or_first-IsSound (some a) pos w f p = (w, inl f)
  or_first-IsSound none (some a) w f p = (w, inr (f, p))
  or_first-IsSound none none w f p = no_invite w f p

  arm-IsSound : (s : Subcommand) → Names cmd s → Sound (arm c env serial nick cli s)
  unfolding arm
  arm-IsSound keygen_arm w = (w, refl)
  arm-IsSound share_arm w = share-IsSound serial refl w
  arm-IsSound attach_arm w = attach-IsSound serial refl w
  arm-IsSound listen_arm w = listen-IsSound w
  arm-IsSound connect_arm w = connect-IsSound w
  arm-IsSound authorized_arm w = w
  arm-IsSound authorize_arm w = or_first-IsSound _ _ w refl refl
  arm-IsSound other (n1, n2, n3, n4, n5, n6, n7) = unknown n1 n2 n3 n4 n5 n6 n7

-- Whatever the subcommand, its arguments and the environment, the mode that is called is the
-- subcommand's, with the nick of USBWS_NICK or else "usbws": share and attach only in a build with
-- the serial modes; `share` and `tcp-connect` with the first positional argument for the device and
-- the target, `share` with the rate that --baud spells in decimal digits below 2^32 or else with
-- 115200, `tcp-listen` with the port that the first positional argument spells below 2^16, `attach`
-- with the value of --link; the peer is what an invite is decoded to, which is the value of --peer,
-- without it, by `attach` alone, the first positional argument, and without these USBWS_PEER; and
-- tcp-connect waits for any authorized initiator if --accept is given and has a peer otherwise. An
-- invite for `authorize` is the value of --peer or else the first positional argument. A mode fails
-- before only when no invite is there or it is not decoded, and the usage is printed only for an
-- unknown subcommand or when the device, the port, the target or the invite of `authorize` is missing
-- or the port is not such a number.
pub main-IsSound :
    (c : Crypto) (env : Env) (serial : Bool) (cmd : Text) (args : List Text)
    → IsSound c env serial
        (env_or env (codes "USBWS_NICK") (codes "usbws"))
        (parse args)
        cmd
        (main c env serial (cmd ∷ args))
unfolding main
main-IsSound c env serial cmd args =
    arm-IsSound c env serial _ (parse args) cmd (subcommand cmd) (subcommand-Names cmd)
