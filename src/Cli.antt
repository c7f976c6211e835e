-- ===== src/Cli.antt =====
-- src/main.rs: the command line, the choice of the peer, and the subcommand `authorize`.
pub mod Flags
pub mod Main
pub mod Authorize
use ws_usb_linux.Base.{
  ℕ, zero, suc, Bool, true, false, ◌&&◌, not, Option, none, some, List, [], ◌∷◌, ◌++◌, ◌==◌,
  list_eq, if◌then◌else◌, Bytes,
}
use ws_usb_linux.Base.Maps.{is_some}
use ws_usb_linux.Base.Text.{Text, codes, strip_prefix, split_once}
use ws_usb_linux.Base.Result.{Result, ok, err, and_then, peer_required}
use ws_usb_linux.Crypto.{Crypto}
use ws_usb_linux.Proto.{Peer}
use ws_usb_linux.Proto.Invite.{decode_qr}
use ws_usb_linux.Authorized.{File, add}
use ws_usb_linux.Idfile.{Env}

-- The newest value of a flag stands first.
pub record Cli : Type 0 where
  pub positionals : List Text
  pub flags : List (Text × Text)

abbrev pub empty_cli : Cli
empty_cli = record { positionals = []; flags = [] }

abbrev pub insert : Cli → Text → Text → Cli
insert cli name value = record cli { flags = (name, value) ∷ cli.flags }

abbrev pub push : Cli → Text → Cli
push cli a = record cli { positionals = cli.positionals ++ a ∷ [] }

-- What an argument is: a positional, `--k=v`, or `--name` alone.
pub data Argument : Type 0 where
  positional : Argument
  assigned : Text → Text → Argument
  named : Text → Argument

assigned_or : Text → Option (Text × Text) → Argument
assigned_or name none = named name
assigned_or name (some (k, v)) = assigned k v

of_name : Option Text → Argument
of_name none = positional
of_name (some name) = assigned_or name (split_once (λ c. c == b'=') name)

unfoldable pub argument : Text → Argument
unfolding assigned_or of_name
argument a = of_name (strip_prefix (codes "--") a)

-- `starts_with("--")`
abbrev pub is_flag : Text → Bool
is_flag a = is_some (strip_prefix (codes "--") a)

-- One round of the loop for an argument with those behind it: what it leaves, and whether it has
-- taken the next argument for its value.
unfoldable pub parse_argument : Cli → Text → Argument → Option Text → Cli × Bool
parse_argument cli a positional next = (push cli a, false)
parse_argument cli a (assigned k v) next = (insert cli k v, false)
parse_argument cli a (named name) none = (insert cli name [], false)
parse_argument cli a (named name) (some b) =
    if is_flag b then (insert cli name [], false) else (insert cli name b, true)

-- `Cli::parse` from a state that it has reached.
unfoldable pub parse_from : Cli → List Text → Cli
parse_from cli [] = cli
parse_from cli (a ∷ []) = (parse_argument cli a (argument a) none).0
parse_from cli (a ∷ b ∷ rest) =
    let (next, taken) = parse_argument cli a (argument a) (some b) in
    elim taken [ true ↦ parse_from next rest | false ↦ parse_from next (b ∷ rest) ]

abbrev pub parse : List Text → Cli
parse args = parse_from empty_cli args

find : List (Text × Text) → Text → Option Text
find [] name = none
find ((k, v) ∷ rest) name = if list_eq k name then some v else find rest name

unfoldable pub flag : Cli → Text → Option Text
unfolding find
flag cli name = find cli.flags name

unfoldable pub or_first : Option Text → Option Text → Option Text
or_first (some a) other = some a
or_first none other = other

unfoldable pub positional_at : List Text → ℕ → Option Text
positional_at [] i = none
positional_at (a ∷ rest) zero = some a
positional_at (a ∷ rest) (suc i) = positional_at rest i

unfoldable positional_slot : Cli → Option ℕ → Option Text
positional_slot cli none = none
positional_slot cli (some i) = positional_at cli.positionals i

unfoldable required : Option Text → Result Text
required none = err peer_required
required (some invite) = ok invite

unfoldable pub resolve_peer : Crypto → Env → Cli → Option ℕ → Result Peer
unfolding positional_slot required
resolve_peer c env cli index =
    and_then
      (required (
        or_first (flag cli (codes "peer"))
          (or_first (positional_slot cli index) (env (codes "USBWS_PEER")))))
      (decode_qr c)

added : File × Result (Unit {0}) → Peer → Result Peer × File
added (file, r) p = (and_then r (λ _. ok p), file)

authorize_peer : Crypto → Bool → File → Result Peer → Result Peer × File
authorize_peer c can_write file (err e) = (err e, file)
authorize_peer c can_write file (ok p) = added (add c can_write file p.x_pub p.nick) p

-- The subcommand `authorize`: the peer that is reported, and the file afterwards. Without an invite
-- the program prints its usage and ends.
unfoldable pub authorize_invite : Crypto → Bool → File → Option Text → Option (Result Peer × File)
unfolding authorize_peer added
authorize_invite c can_write file none = none
authorize_invite c can_write file (some invite) =
    some (authorize_peer c can_write file (decode_qr c invite))

unfoldable pub authorize : Crypto → Bool → File → List Text → Option (Result Peer × File)
authorize c can_write file args =
    let cli = parse args in
    authorize_invite c can_write file
      (or_first (flag cli (codes "peer")) (positional_at cli.positionals 0))
