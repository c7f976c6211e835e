-- ===== src/Cli/Flags.antt =====
-- src/main.rs: two ways to write a flag.
use ws_usb_linux.Base.{◌≡◌, refl, sym, ◌∙◌, false, List, [], ◌∷◌, ◌++◌, ◌==◌, All}
use ws_usb_linux.Base.Text.{Text, codes, strip_prefix}
use ws_usb_linux.Base.Lines.{split_once-append, split_once-none}
use ws_usb_linux.Cli.{Cli, insert, assigned, named, argument, is_flag, parse_argument, parse_from}

-- A name without an equals sign.
abbrev pub IsName : Text → Type 0
IsName = All (λ c. (c == b'=') ≡ false)

argument-assigned :
    (name value : Text)
    → IsName name
    → argument (codes "--" ++ (name ++ b'=' ∷ value)) ≡ assigned name value
unfolding argument strip_prefix
argument-assigned name value n = rw (split_once-append (λ c. c == b'=') name value b'=' n refl) refl

argument-named : (name : Text) → IsName name → argument (codes "--" ++ name) ≡ named name
unfolding argument strip_prefix
argument-named name n = rw (split_once-none (λ c. c == b'=') name n) refl

assigned_flag :
    (cli : Cli) (name value : Text) (rest : List Text)
    → IsName name
    → parse_from cli ((codes "--" ++ (name ++ b'=' ∷ value)) ∷ rest)
      ≡ parse_from (insert cli name value) rest
unfolding parse_from parse_argument
assigned_flag cli name value [] n = rw (argument-assigned name value n, parse_from) refl
assigned_flag cli name value (b ∷ rest) n =
    rw (argument-assigned name value n, parse_from) (rw (argument-assigned name value n) refl)

separate_flag :
    (cli : Cli) (name value : Text) (rest : List Text)
    → IsName name
    → is_flag value ≡ false
    → parse_from cli ((codes "--" ++ name) ∷ value ∷ rest) ≡ parse_from (insert cli name value) rest
unfolding parse_from parse_argument
separate_flag cli name value rest n v =
    rw (argument-named name n, parse_from)
      (rw (v, parse_argument) (rw (argument-named name n) (rw v refl)))

-- A flag whose name has no equals sign and whose value does not begin with two dashes can be written
-- as one argument or as two: whatever was read before and whatever follows, the result is the same.
pub parse_from-assigned :
    (cli : Cli) (name value : Text) (rest : List Text)
    → IsName name
    → is_flag value ≡ false
    → parse_from cli ((codes "--" ++ (name ++ b'=' ∷ value)) ∷ rest)
      ≡ parse_from cli ((codes "--" ++ name) ∷ value ∷ rest)
parse_from-assigned cli name value rest n v =
    assigned_flag cli name value rest n ∙ sym (separate_flag cli name value rest n v)
