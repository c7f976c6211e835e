-- ===== src/Idfile.antt =====
-- src/idfile.rs: the identity file. Environment variables are a function, the fresh seeds of a first
-- run and what the file system refuses are arguments, and the file is a value.
pub mod Persistence
use ws_usb_linux.Base.{
  ℕ, Bool, true, false, Option, none, some, List, [], ◌∷◌, ◌++◌, length, ◌==◌, if◌then◌else◌, Bytes,
}
use ws_usb_linux.Base.Text.{Text, codes, trim, strip_prefix, lines}
use ws_usb_linux.Base.Result.{Result, ok, err, io_error, malformed_identity}
use ws_usb_linux.Crypto.{Crypto}
use ws_usb_linux.Proto.{Identity, from_seeds}
use ws_usb_linux.Authorized.{File, missing, unreadable, text, sized_32}

-- `std::env::var(name).ok()`
abbrev pub Env : Type 0
Env = Text → Option Text

abbrev is_absolute : Text → Bool
is_absolute [] = false
is_absolute (c ∷ p) = c == b'/'

abbrev ends_with_slash : Text → Bool
ends_with_slash [] = true
ends_with_slash (c ∷ []) = c == b'/'
ends_with_slash (c ∷ d ∷ p) = ends_with_slash (d ∷ p)

-- `PathBuf::join`
unfoldable pub join : Text → Text → Text
join p q = if is_absolute q then q else if ends_with_slash p then p ++ q else p ++ b'/' ∷ q

abbrev pub or_else {ℓ} : {A : Type ℓ} → Option A → A → A
or_else none d = d
or_else (some a) d = a

unfoldable pub identity_path : Env → Text
unfolding join
identity_path env =
    let home = or_else (env (codes "HOME")) (codes ".") in
    let base = or_else (env (codes "XDG_CONFIG_HOME")) (join home (codes ".config")) in
    or_else (env (codes "USBWS_IDENTITY")) (join (join base (codes "usbws")) (codes "identity"))

unfoldable pub decode_hex32 : Crypto → Text → Option Bytes
decode_hex32 c s = sized_32 (c.hex_decode s)

-- The three variables of the loop in `parse_identity`.
pub record Seeds : Type 0 where
  pub x_seed : Option Bytes
  pub ed_seed : Option Bytes
  pub bare : List Bytes

push_bare : Seeds → Option Bytes → Seeds
push_bare s none = s
push_bare s (some b) = record s { bare = s.bare ++ b ∷ [] }

-- The chain of prefixes, with what the two `strip_prefix` give.
field : Crypto → Seeds → Text → Option Text → Option Text → Seeds
field c s line (some v) _ = record s { x_seed = decode_hex32 c (trim v) }
field c s line none (some v) = record s { ed_seed = decode_hex32 c (trim v) }
field c s line none none = push_bare s (decode_hex32 c line)

unfoldable pub seed_line : Crypto → Seeds → Text → Seeds
unfolding push_bare field
seed_line c s [] = s
seed_line c s (k ∷ line) =
    if k == b'#'
    then s
    else field c s (k ∷ line) (strip_prefix (codes "x_seed=") (k ∷ line))
        (strip_prefix (codes "ed_seed=") (k ∷ line))

unfoldable pub seed_lines : Crypto → Seeds → List Text → Seeds
seed_lines c s [] = s
seed_lines c s (l ∷ ls) = seed_lines c (seed_line c s (trim l)) ls

-- The final `match`: both fields, or else the first two bare lines.
two_bare : List Bytes → Option (Bytes × Bytes)
two_bare (x ∷ e ∷ _) = some (x, e)
two_bare _ = none

unfoldable pub chosen_seeds : Option Bytes → Option Bytes → List Bytes → Option (Bytes × Bytes)
unfolding two_bare
chosen_seeds (some x) (some e) bare = some (x, e)
chosen_seeds _ _ bare = two_bare bare

abbrev pub no_seeds : Seeds
no_seeds = record { x_seed = none; ed_seed = none; bare = [] }

unfoldable pub parse_identity : Crypto → Text → Option (Bytes × Bytes)
parse_identity c raw =
    let s = seed_lines c no_seeds (lines raw) in chosen_seeds s.x_seed s.ed_seed s.bare

unfoldable pub identity_body : Crypto → Bytes → Bytes → Text
identity_body c x_seed ed_seed =
    codes "# usbws machine identity (keep secret)\n"
    ++ ((codes "x_seed=" ++ (c.hex_encode x_seed ++ codes "\n"))
        ++ (codes "ed_seed=" ++ (c.hex_encode ed_seed ++ codes "\n")))

parsed : Crypto → File → Option (Bytes × Bytes) → Result (Identity × Bool) × File
parsed c file none = (err malformed_identity, file)
parsed c file (some (x_seed, ed_seed)) = (ok (from_seeds c x_seed ed_seed, false), file)

-- The identity, whether it was created, and the file afterwards.
unfoldable pub load_or_create :
    Crypto → Bool → Bytes → Bytes → File → Result (Identity × Bool) × File
unfolding parsed
load_or_create c can_write x_seed ed_seed missing =
    if can_write
    then (ok (from_seeds c x_seed ed_seed, true), text (identity_body c x_seed ed_seed))
    else (err io_error, missing)
load_or_create c can_write x_seed ed_seed unreadable = (err io_error, unreadable)
load_or_create c can_write x_seed ed_seed (text raw) = parsed c (text raw) (parse_identity c raw)
