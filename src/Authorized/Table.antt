-- ===== src/Authorized/Table.antt =====
-- src/authorized.rs: the table file as a list of entries, through `load`, `add` and `print_table`.
use mathlib.Core.Path.{ap₂}
use ws_usb_linux.Base.{
  ℕ, ◌≡◌, inl, inr, refl, sym, ap, subst, ◌∙◌, true, false, ◌<◌, some, List, [], ◌∷◌, ◌++◌, length,
  ◌==◌, if◌then◌else◌, Bytes, IsBytes, All, All-map, All-append, arith, append_assoc, Bool-cases,
  Option-cases,
}
use ws_usb_linux.Base.Text.{Text, is_whitespace, trim, lines}
use ws_usb_linux.Base.Trim.{IsInk, trim-ink, trim-ends}
use ws_usb_linux.Base.Lines.{
  Ended, Ended-newline, Ended-append, IsInline, lines-append, lines_line, split_once-append,
  split_once-none,
}
use ws_usb_linux.Base.Result.{ok}
use ws_usb_linux.Crypto.{Crypto, CryptoLaws, IsHex}
use ws_usb_linux.Authorized.{
  Entry, File, missing, unreadable, text, split_line, sized_32, is_comment, onto, append_to,
  parse_line, parse_lines, load, contains, add_to, format_line, add, print_entries,
}

-- A nick that a line can hold: empty, or inked at both ends, with no line ending inside.
pub data IsNick : Text → Type 0 where
  no_nick : IsNick []
  inked :
      {c : ℕ} {p : Text} (d : ℕ) (q : Text)
      → c ∷ p ≡ q ++ d ∷ []
      → IsInk c
      → IsInk d
      → All IsInline (c ∷ p)
      → IsNick (c ∷ p)

-- An entry that the file can hold.
pub record IsEntry (e : Entry) : Type 0 where
  pub sized : length e.x_pub ≡ 32
  pub small : IsBytes e.x_pub
  pub nick_ok : IsNick e.nick

-- A line without its ending.
abbrev body : Text → Text → Text
body h [] = h
body h (n ∷ nick) = h ++ b' ' ∷ n ∷ nick

trim-nick : (nick : Text) → IsNick nick → trim nick ≡ nick
trim-nick _ no_nick = trim-ink [] tt
trim-nick _ (inked {c} {p} d q e hc hd _) = trim-ends c d p q e hc hd

body-IsInline : (h nick : Text) → All IsInline h → IsNick nick → All IsInline (body h nick)
body-IsInline h _ a no_nick = a
body-IsInline h _ a (inked {c} {p} d q e hc hd l) =
    All-append IsInline h (b' ' ∷ c ∷ p) a ((refl, refl), l)

split_line-body : (h nick : Text) → All IsInk h → IsNick nick → split_line (body h nick) ≡ (h, nick)
unfolding split_line is_whitespace
split_line-body h _ a no_nick = rw (split_once-none is_whitespace h a, split_line) refl
split_line-body h _ a (inked {c} {p} d q e hc hd l) =
    rw (split_once-append is_whitespace h (c ∷ p) b' ' a refl, split_line)
      (rw (trim-ends c d p q e hc hd) refl)

trim-body :
    (k : ℕ) (h nick : Text)
    → All IsInk (k ∷ h)
    → IsNick nick
    → trim (body (k ∷ h) nick) ≡ body (k ∷ h) nick
trim-body k h _ a no_nick = trim-ink (k ∷ h) a
trim-body k h _ a (inked {c} {p} d q e hc hd l) =
    trim-ends k d (h ++ b' ' ∷ c ∷ p) (k ∷ (h ++ b' ' ∷ q))
      (ap (λ x. k ∷ (h ++ b' ' ∷ x)) e ∙ ap (◌∷◌ k) (sym (append_assoc h (b' ' ∷ q) (d ∷ [])))) a.0
      hd

format_line-body :
    (c : Crypto) (x nick : Text) → format_line c x nick ≡ body (c.hex_encode x) nick ++ b'\n' ∷ []
unfolding format_line
format_line-body c x [] = refl
format_line-body c x (n ∷ nick) = sym (append_assoc (c.hex_encode x) (b' ' ∷ n ∷ nick) (b'\n' ∷ []))

is_comment-body :
    (k : ℕ) (h nick : Text) → (k == b'#') ≡ false → is_comment (body (k ∷ h) nick) ≡ false
unfolding is_comment
is_comment-body k h [] e = e
is_comment-body k h (n ∷ nick) e = e

module _ {c : Crypto} (laws : CryptoLaws c) where
  hex-IsInk : (h : Text) → IsHex h → All IsInk h
  unfolding is_whitespace
  hex-IsInk h a = All-map h (λ x e. ground arith) a

  hex-IsInline : (h : Text) → IsHex h → All IsInline h
  hex-IsInline h a = All-map h (λ x e. ground arith) a

  -- A line that begins with the hex digits of a key.
  parse_line-hex :
      (h nick : Text) (x : Bytes)
      → IsHex h
      → 0 < length h
      → c.hex_decode h ≡ some x
      → length x ≡ 32
      → IsNick nick
      → parse_line c (body h nick) ≡ some (record { x_pub = x; nick = nick })
  unfolding parse_line
  parse_line-hex [] nick x a pos e n k = absurd (omega arith)
  parse_line-hex (d ∷ h) nick x a pos e n k = rw (trim-body d h nick (hex-IsInk (d ∷ h) a) k) (
      rw (split_line-body (d ∷ h) nick (hex-IsInk (d ∷ h) a) k)
        (rw (is_comment-body d h nick (ground arith)) (rw (e, sized_32) (rw n refl))))

  module _ (e : Entry) (v : IsEntry e) where
    parse_line-entry : parse_line c (body (c.hex_encode e.x_pub) e.nick) ≡ some e
    parse_line-entry =
        parse_line-hex (c.hex_encode e.x_pub) e.nick e.x_pub (laws.hex_encode-IsHex e.x_pub)
          (omega (arith, laws.length-hex_encode e.x_pub, v.sized))
          (laws.hex_decode-encode e.x_pub v.small) v.sized v.nick_ok

    lines-format_line :
        lines (format_line c e.x_pub e.nick) ≡ body (c.hex_encode e.x_pub) e.nick ∷ []
    lines-format_line =
        ap lines (format_line-body c e.x_pub e.nick)
        ∙ lines_line _ (
            body-IsInline (c.hex_encode e.x_pub) e.nick
              (hex-IsInline (c.hex_encode e.x_pub) (laws.hex_encode-IsHex e.x_pub)) v.nick_ok)

    Ended-format_line : Ended (format_line c e.x_pub e.nick)
    Ended-format_line =
        subst Ended {x = body (c.hex_encode e.x_pub) e.nick ++ b'\n' ∷ []}
          (sym (format_line-body c e.x_pub e.nick))
          (Ended-newline (body (c.hex_encode e.x_pub) e.nick))

parse_lines-append :
    (c : Crypto) (ls ms : List Text)
    → parse_lines c (ls ++ ms) ≡ parse_lines c ls ++ parse_lines c ms
unfolding parse_lines
parse_lines-append c [] ms = refl
parse_lines-append c (l ∷ ls) ms = elim (Option-cases (parse_line c l)) [
  | inl e ↦ rw (e, onto) (parse_lines-append c ls ms)
  | inr (x, e) ↦ rw (e, onto) (ap (◌∷◌ x) (parse_lines-append c ls ms))
]

-- A table that more lines can be appended to.
abbrev pub IsTable : File → Type 0
IsTable missing = Unit
IsTable unreadable = ⊥
IsTable (text raw) = Ended raw

-- The entries of a table that can be read.
abbrev pub entries : Crypto → File → List Entry
entries c missing = []
entries c unreadable = []
entries c (text raw) = parse_lines c (lines raw)

pub load-entries : (c : Crypto) (file : File) → IsTable file → load c file ≡ ok (entries c file)
unfolding load
load-entries c missing t = refl
load-entries c unreadable t = absurd t
load-entries c (text raw) t = refl

module _ {c : Crypto} (laws : CryptoLaws c) where
  parse_lines-format_line :
      (e : Entry) → IsEntry e → parse_lines c (lines (format_line c e.x_pub e.nick)) ≡ e ∷ []
  unfolding parse_lines
  parse_lines-format_line e v =
      rw (lines-format_line laws e v) (rw (parse_line-entry laws e v, onto) refl)

  pub append_to-entries :
      (file : File) (e : Entry)
      → IsTable file
      → IsEntry e
      → let file' = append_to file (format_line c e.x_pub e.nick) in
        IsTable file' × (entries c file' ≡ entries c file ++ e ∷ [])
  unfolding append_to
  append_to-entries missing e t v = (Ended-format_line laws e v, parse_lines-format_line e v)
  append_to-entries unreadable e t v = absurd t
  append_to-entries (text raw) e t v = (
    Ended-append raw _ t (Ended-format_line laws e v),
    ap (parse_lines c) (lines-append raw _ t)
        ∙ parse_lines-append c (lines raw) _
        ∙ ap (◌++◌ (parse_lines c (lines raw))) (parse_lines-format_line e v),
  )

  -- Under the laws of the hex codec, for a writable table whose last line is ended and an entry
  -- with a key of 32 bytes and a nick of one trimmed line: adding succeeds, the last line of the
  -- file is ended again, and its entries are those before, with the new one behind them unless its
  -- key was listed.
  pub add_lem :
      (file : File) (e : Entry)
      → IsTable file
      → IsEntry e
      → let (file', result) = add c true file e.x_pub e.nick in
        (result ≡ ok tt)
        × IsTable file'
        × (entries c file' ≡ (
            if contains (entries c file) e.x_pub then entries c file else entries c file ++ e ∷ []))
  unfolding add
  add_lem file e t v = elim (Bool-cases (contains (entries c file) e.x_pub)) [
    | inl listed ↦ rw (load-entries c file t, add_to) (rw listed (refl, t, refl))
    | inr new ↦
        let (t', grown) = append_to-entries file e t v in
        rw (load-entries c file t, add_to) (rw new (refl, t', grown))
  ]

  parse_lines-print_entries :
      (es : List Entry) → All IsEntry es → parse_lines c (lines (print_entries c es)) ≡ es
  unfolding print_entries
  parse_lines-print_entries [] h = unfold lines parse_lines in refl
  parse_lines-print_entries (e ∷ es) h =
      ap (parse_lines c) (
        lines-append (format_line c e.x_pub e.nick) (print_entries c es)
          (Ended-format_line laws e h.0))
      ∙ parse_lines-append c (lines (format_line c e.x_pub e.nick)) (lines (print_entries c es))
      ∙ ap₂ ◌++◌ (parse_lines-format_line e h.0) (parse_lines-print_entries es h.1)

  -- Under the laws of the hex codec, what print_table writes for entries with keys of 32 bytes and
  -- nicks of one trimmed line is read back as the same entries.
  pub load-print_entries :
      (es : List Entry) → All IsEntry es → load c (text (print_entries c es)) ≡ ok es
  unfolding load
  load-print_entries es h = ap ok (parse_lines-print_entries es h)
