-- ===== src/Authorized.antt =====
-- src/authorized.rs and `authorize_initiator` of src/tcp.rs: the table of authorized initiators.
-- The table file is a value; what the file system refuses is an argument.
pub mod Table
pub mod Policy
pub mod Injection
use ws_usb_linux.Base.{
  ℕ, ◌≡◌, Bool, true, false, not, ◌&&◌, ◌||◌, Option, none, some, List, [], ◌∷◌, ◌++◌, length,
  list_eq, ◌==◌, if◌then◌else◌, Bytes,
}
use ws_usb_linux.Base.Text.{Text, codes, is_whitespace, trim, split_once, lines}
use ws_usb_linux.Base.Result.{Result, ok, err, io_error}
use ws_usb_linux.Crypto.{Crypto}
use ws_usb_linux.Proto.{Peer}

pub record Entry : Type 0 where
  pub x_pub : Bytes
  pub nick : Text

-- No file, a file that `read_to_string` refuses, or a text.
pub data File : Type 0 where
  missing unreadable : File
  text : Text → File

unfoldable pub split_line : Text → Text × Text
split_line line = elim (split_once is_whitespace line) [
  | none ↦ (line, [])
  | some (h, rest) ↦ (h, trim rest)
]

-- `<[u8; 32]>::try_from(v).ok()`
unfoldable pub sized_32 : Option Bytes → Option Bytes
sized_32 none = none
sized_32 (some v) = if length v == 32 then some v else none

unfoldable pub entry_of : Option Bytes → Text → Option Entry
entry_of none nick = none
entry_of (some x_pub) nick = some (record { x_pub = x_pub; nick = nick })

unfoldable pub is_comment : Text → Bool
is_comment [] = true
is_comment (c ∷ line) = c == b'#'

-- One line of the file; blank lines, comments and malformed lines give no entry.
unfoldable pub parse_line : Crypto → Text → Option Entry
unfolding split_line sized_32 entry_of is_comment
parse_line c raw =
    let line = trim raw in
    let (hexpart, nick) = split_line line in
    if is_comment line then none else entry_of (sized_32 (c.hex_decode hexpart)) nick

unfoldable pub onto : Option Entry → List Entry → List Entry
onto none es = es
onto (some e) es = e ∷ es

unfoldable pub parse_lines : Crypto → List Text → List Entry
unfolding onto
parse_lines c [] = []
parse_lines c (l ∷ ls) = onto (parse_line c l) (parse_lines c ls)

unfoldable pub load : Crypto → File → Result (List Entry)
load c missing = ok []
load c unreadable = err io_error
load c (text raw) = ok (parse_lines c (lines raw))

unfoldable pub contains : List Entry → Bytes → Bool
contains [] x_pub = false
contains (e ∷ es) x_pub = list_eq e.x_pub x_pub || contains es x_pub

unfoldable pub format_line : Crypto → Bytes → Text → Text
format_line c x_pub [] = c.hex_encode x_pub ++ b'\n' ∷ []
format_line c x_pub (n ∷ nick) = c.hex_encode x_pub ++ (b' ' ∷ ((n ∷ nick) ++ b'\n' ∷ []))

-- What an append leaves; the file is created if need be.
unfoldable pub append_to : File → Text → File
append_to missing line = text line
append_to unreadable line = unreadable
append_to (text raw) line = text (raw ++ line)

-- The flag says whether the directory and the file can be written. The file afterwards comes with
-- the result.
unfoldable pub add_to :
    Crypto → Bool → File → Bytes → Text → Result (List Entry) → File × Result (Unit {0})
unfolding append_to
add_to c can_write file x_pub nick (err e) = (file, err e)
add_to c can_write file x_pub nick (ok existing) =
    if contains existing x_pub
    then (file, ok tt)
    else if can_write
    then (append_to file (format_line c x_pub nick), ok tt)
    else (file, err io_error)

unfoldable pub add : Crypto → Bool → File → Bytes → Text → File × Result (Unit {0})
unfolding add_to
add c can_write file x_pub nick = add_to c can_write file x_pub nick (load c file)

-- `authorize_initiator`: the peer, if it is taken, and the file afterwards.
unfoldable pub decide_table : Crypto → Bool → File → Peer → Result (List Entry) → Option Peer × File
decide_table c can_write file peer (err e) = (none, file)
decide_table c can_write file peer (ok []) =
    (some peer, (add c can_write file peer.x_pub peer.nick).0)
decide_table c can_write file peer (ok (e ∷ es)) =
    (if contains (e ∷ es) peer.x_pub then some peer else none, file)

unfoldable pub authorize_initiator : Crypto → Bool → Bool → File → Peer → Option Peer × File
unfolding decide_table
authorize_initiator c no_pinning can_write file peer =
    if no_pinning then (some peer, file) else decide_table c can_write file peer (load c file)

-- The lines that `print_table` writes to standard output.
unfoldable pub print_entries : Crypto → List Entry → Text
print_entries c [] = []
print_entries c (e ∷ es) = format_line c e.x_pub e.nick ++ print_entries c es
