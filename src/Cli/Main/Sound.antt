-- ===== src/Cli/Main/Sound.antt =====
-- src/main.rs: what each mode that `main` chooses may be called with, and when `main` may end before.
use ws_usb_linux.Base.{ℕ, ◌^◌, ◌<◌, ◌≡◌, ◌≢◌, ◌⊎◌, Bool, true, false, Option, none, some, [], All}
use ws_usb_linux.Base.Maps.{is_some}
use ws_usb_linux.Base.Text.{Text, codes}
use ws_usb_linux.Base.Numerals.{IsDigit, value, unsigned}
use ws_usb_linux.Base.Result.{ok, err, Error, peer_required}
use ws_usb_linux.Crypto.{Crypto}
use ws_usb_linux.Proto.{Peer}
use ws_usb_linux.Proto.Invite.{decode_qr}
use ws_usb_linux.Idfile.{Env}
use ws_usb_linux.Cli.{Cli, flag, positional_at}
use ws_usb_linux.Cli.Main.{
  Command, keygen, share, attach, tcp_listen, tcp_connect, tcp_connect_accept, authorized,
  authorize, usage, no_serial, failed, default_baud,
}

-- Where an invite is taken from: the flag; without it the positional argument that the mode names for
-- it, if it names one; without both the variable.
pub data Given (env : Env) (cli : Cli) (index : Option ℕ) (invite : Text) : Type 0 where
  by_flag : flag cli (codes "peer") ≡ some invite → Given env cli index invite
  by_position :
      (i : ℕ)
      → flag cli (codes "peer") ≡ none
      → index ≡ some i
      → positional_at cli.positionals i ≡ some invite
      → Given env cli index invite
  by_variable :
      flag cli (codes "peer") ≡ none
      → ((i : ℕ) → index ≡ some i → positional_at cli.positionals i ≡ none)
      → env (codes "USBWS_PEER") ≡ some invite
      → Given env cli index invite

abbrev pub ComesFrom : Crypto → Env → Cli → Option ℕ → Peer → Type 0
ComesFrom c env cli index p =
    (invite : Text) × Given env cli index invite × (decode_qr c invite ≡ ok p)

-- An invite is missing, or is not one.
abbrev pub Unresolved : Crypto → Env → Cli → Option ℕ → Error → Type 0
Unresolved c env cli index e =
    ((invite : Text) × Given env cli index invite × (decode_qr c invite ≡ err e))
    ⊎ (((invite : Text) → ¬ Given env cli index invite) × (e ≡ peer_required))

-- Decimal digits behind at most one plus sign, of that value, which is below the bound.
abbrev pub Spells : ℕ → Text → ℕ → Type 0
Spells bound s n =
    (unsigned s ≢ []) × All IsDigit (unsigned s) × (n ≡ value 0 (unsigned s)) × (n < bound)

abbrev pub IsPort : Option Text → ℕ → Type 0
IsPort o port = (s : Text) × (o ≡ some s) × Spells (2 ^ 16) s port

-- What the flag spells, or without a number there the default.
abbrev pub IsBaud : Option Text → ℕ → Type 0
IsBaud o baud =
    ((s : Text) × (o ≡ some s) × Spells (2 ^ 32) s baud)
    ⊎ (((s : Text) (n : ℕ) → o ≡ some s → ¬ Spells (2 ^ 32) s n) × (baud ≡ default_baud))

module _ (c : Crypto) (env : Env) (serial : Bool) (nick : Text) (cli : Cli) (cmd : Text) where
  -- Why the usage is printed.
  pub data Unusable : Type 0 where
    unknown :
        cmd ≢ codes "keygen"
        → cmd ≢ codes "share"
        → cmd ≢ codes "attach"
        → cmd ≢ codes "tcp-listen"
        → cmd ≢ codes "tcp-connect"
        → cmd ≢ codes "authorized"
        → cmd ≢ codes "authorize"
        → Unusable
    no_device :
        cmd ≡ codes "share" → serial ≡ true → positional_at cli.positionals 0 ≡ none → Unusable
    no_port :
        cmd ≡ codes "tcp-listen"
        → ((port : ℕ) → ¬ IsPort (positional_at cli.positionals 0) port)
        → Unusable
    no_target : cmd ≡ codes "tcp-connect" → positional_at cli.positionals 0 ≡ none → Unusable
    no_invite :
        cmd ≡ codes "authorize"
        → flag cli (codes "peer") ≡ none
        → positional_at cli.positionals 0 ≡ none
        → Unusable

  -- Which modes fail for their peer.
  pub data Failing (e : Error) : Type 0 where
    at_share : cmd ≡ codes "share" → serial ≡ true → Unresolved c env cli none e → Failing e
    at_attach : cmd ≡ codes "attach" → serial ≡ true → Unresolved c env cli (some 0) e → Failing e
    at_listen : cmd ≡ codes "tcp-listen" → Unresolved c env cli none e → Failing e
    at_connect :
        cmd ≡ codes "tcp-connect"
        → flag cli (codes "accept") ≡ none
        → Unresolved c env cli none e
        → Failing e

  -- What has to hold of each choice.
  abbrev pub IsSound : Command → Type 0
  IsSound (keygen n) = (cmd ≡ codes "keygen") × (n ≡ nick)
  IsSound (share dev baud p n) =
      (cmd ≡ codes "share")
      × (serial ≡ true)
      × (n ≡ nick)
      × (positional_at cli.positionals 0 ≡ some dev)
      × IsBaud (flag cli (codes "baud")) baud
      × ComesFrom c env cli none p
  IsSound (attach p link n) =
      (cmd ≡ codes "attach")
      × (serial ≡ true)
      × (n ≡ nick)
      × (link ≡ flag cli (codes "link"))
      × ComesFrom c env cli (some 0) p
  IsSound (tcp_listen port p n) =
      (cmd ≡ codes "tcp-listen")
      × (n ≡ nick)
      × IsPort (positional_at cli.positionals 0) port
      × ComesFrom c env cli none p
  IsSound (tcp_connect target p n) =
      (cmd ≡ codes "tcp-connect")
      × (n ≡ nick)
      × (positional_at cli.positionals 0 ≡ some target)
      × (flag cli (codes "accept") ≡ none)
      × ComesFrom c env cli none p
  IsSound (tcp_connect_accept target n) =
      (cmd ≡ codes "tcp-connect")
      × (n ≡ nick)
      × (positional_at cli.positionals 0 ≡ some target)
      × (is_some (flag cli (codes "accept")) ≡ true)
  IsSound authorized = cmd ≡ codes "authorized"
  IsSound (authorize invite) =
      (cmd ≡ codes "authorize")
      × ((flag cli (codes "peer") ≡ some invite)
          ⊎ ((flag cli (codes "peer") ≡ none) × (positional_at cli.positionals 0 ≡ some invite)))
  IsSound usage = Unusable
  IsSound no_serial = (serial ≡ false) × ((cmd ≡ codes "share") ⊎ (cmd ≡ codes "attach"))
  IsSound (failed e) = Failing e
