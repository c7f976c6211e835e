-- ===== src/Cli/Main.antt =====
-- src/main.rs: `main` up to the call of the mode that it chooses.
pub mod Sound
pub mod Resolving
pub mod Choice
use ws_usb_linux.Base.{
  ℕ, zero, suc, ◌+◌, ◌-◌, ◌*◌, ◌^◌, Bool, true, false, ◌&&◌, ◌||◌, Option, none, some, List, [],
  ◌∷◌, ◌++◌, ltb, leb, ◌==◌, list_eq, if◌then◌else◌, Bytes,
}
use ws_usb_linux.Base.Maps.{is_some}
use ws_usb_linux.Base.Text.{Text, codes}
use ws_usb_linux.Base.Numerals.{parse_unsigned}
use ws_usb_linux.Base.Result.{Result, ok, err, Error}
use ws_usb_linux.Crypto.{Crypto}
use ws_usb_linux.Proto.{Peer}
use ws_usb_linux.Idfile.{Env, or_else}
use ws_usb_linux.Relay.{env_or}
use ws_usb_linux.Cli.{Cli, parse, flag, or_first, positional_at, resolve_peer}

abbrev pub default_baud : ℕ
default_baud = 115200

-- The modes, with what they are called with, and the ways in which `main` ends before.
pub data Command : Type 0 where
  keygen : Text → Command
  share : Text → ℕ → Peer → Text → Command
  attach : Peer → Option Text → Text → Command
  tcp_listen : ℕ → Peer → Text → Command
  tcp_connect : Text → Peer → Text → Command
  tcp_connect_accept : Text → Text → Command
  authorized : Command
  authorize : Text → Command
  usage no_serial : Command
  failed : Error → Command

-- The arms of `match cmd`.
pub data Subcommand : Type 0 where
  keygen_arm share_arm attach_arm listen_arm connect_arm authorized_arm authorize_arm other :
      Subcommand

unfoldable pub subcommand : Text → Subcommand
subcommand s =
    if list_eq s (codes "keygen")
    then keygen_arm
    else if list_eq s (codes "share")
    then share_arm
    else if list_eq s (codes "attach")
    then attach_arm
    else if list_eq s (codes "tcp-listen")
    then listen_arm
    else if list_eq s (codes "tcp-connect")
    then connect_arm
    else if list_eq s (codes "authorized")
    then authorized_arm
    else if list_eq s (codes "authorize")
    then authorize_arm
    else other

-- `opt.and_then(|s| s.parse().ok())`
unfoldable pub parsed_at : ℕ → Option Text → Option ℕ
parsed_at bound none = none
parsed_at bound (some s) = parse_unsigned bound s

-- `resolve_peer(…)?` before a mode that needs the peer.
unfoldable pub with_peer : Result Peer → (Peer → Command) → Command
with_peer (err e) mode = failed e
with_peer (ok p) mode = mode p

-- `unwrap_or_else(|| usage())`
unfoldable pub or_usage {ℓ} : {A : Type ℓ} → Option A → (A → Command) → Command
or_usage none mode = usage
or_usage (some a) mode = mode a

unfoldable pub arm : Crypto → Env → Bool → Text → Cli → Subcommand → Command
unfolding with_peer or_usage parsed_at
arm c env serial nick cli keygen_arm = keygen nick
arm c env serial nick cli share_arm =
    if serial
    then or_usage (positional_at cli.positionals 0) (λ dev.
      with_peer (resolve_peer c env cli none) (λ p.
        share dev (or_else (parsed_at (2 ^ 32) (flag cli (codes "baud"))) default_baud) p nick))
    else no_serial
arm c env serial nick cli attach_arm =
    if serial
    then with_peer (resolve_peer c env cli (some 0)) (λ p. attach p (flag cli (codes "link")) nick)
    else no_serial
arm c env serial nick cli listen_arm =
    or_usage (parsed_at (2 ^ 16) (positional_at cli.positionals 0))
      (λ port. with_peer (resolve_peer c env cli none) (λ p. tcp_listen port p nick))
arm c env serial nick cli connect_arm = or_usage (positional_at cli.positionals 0) (λ target.
    if is_some (flag cli (codes "accept"))
    then tcp_connect_accept target nick
    else with_peer (resolve_peer c env cli none) (λ p. tcp_connect target p nick))
arm c env serial nick cli authorized_arm = authorized
arm c env serial nick cli authorize_arm =
    or_usage (or_first (flag cli (codes "peer")) (positional_at cli.positionals 0)) authorize
arm c env serial nick cli other = usage

-- The arguments behind the program's name. The flag says whether the build has the serial modes.
unfoldable pub main : Crypto → Env → Bool → List Text → Command
main c env serial [] = usage
main c env serial (cmd ∷ args) =
    arm c env serial (env_or env (codes "USBWS_NICK") (codes "usbws")) (parse args) (subcommand cmd)
