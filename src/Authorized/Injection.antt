-- ===== src/Authorized/Injection.antt =====
-- src/authorized.rs and src/tcp.rs: what a nick with a line ending in it does to the table.
use ws_usb_linux.Base.{
  ℕ, ◌≡◌, refl, sym, ap, ◌∙◌, true, false, some, [], ◌∷◌, ◌++◌, Bytes, arith, append_assoc,
  list_eq_refl,
}
use ws_usb_linux.Base.Text.{Text}
use ws_usb_linux.Base.Result.{ok}
use ws_usb_linux.Crypto.{Crypto, CryptoLaws}
use ws_usb_linux.Proto.{Peer}
use ws_usb_linux.Authorized.{
  Entry, File, missing, unreadable, text, load, contains, format_line, add, add_to,
  authorize_initiator, decide_table, append_to,
}
use ws_usb_linux.Authorized.Table.{IsTable, IsEntry, entries, load-entries, append_to-entries}

-- A nick that closes its line and goes on with another key.
abbrev pub injected : Crypto → ℕ → Text → Bytes → Text
injected c a n y = (a ∷ n) ++ b'\n' ∷ c.hex_encode y

format_line-injected :
    (c : Crypto) (x y : Bytes) (a : ℕ) (n : Text)
    → format_line c x (injected c a n y) ≡ format_line c x (a ∷ n) ++ format_line c y []
unfolding format_line
format_line-injected c x y a n =
    ap (λ s. c.hex_encode x ++ b' ' ∷ a ∷ s)
      (append_assoc n (b'\n' ∷ c.hex_encode y) (b'\n' ∷ [])
        ∙ sym (append_assoc n (b'\n' ∷ []) (c.hex_encode y ++ b'\n' ∷ [])))
    ∙ sym (append_assoc (c.hex_encode x) (b' ' ∷ ((a ∷ n) ++ b'\n' ∷ [])) _)

append_to-append :
    (file : File) (s t : Text)
    → IsTable file
    → append_to file (s ++ t) ≡ append_to (append_to file s) t
unfolding append_to
append_to-append missing s t h = refl
append_to-append unreadable s t h = refl
append_to-append (text raw) s t h = ap text (sym (append_assoc raw s t))

add_new :
    (c : Crypto) (file : File) (x nick : Bytes)
    → load c file ≡ ok []
    → (add c true file x nick).0 ≡ append_to file (format_line c x nick)
unfolding add
add_new c file x nick e = rw (e, add_to) (unfold contains in refl)

contains_second : (a e : Entry) (x : Bytes) → x ≡ e.x_pub → contains (a ∷ e ∷ []) x ≡ true
unfolding contains
contains_second a e x h = rw h (ground (arith, list_eq_refl e.x_pub))

module _ {c : Crypto} (laws : CryptoLaws c) where
  -- Under the laws of the hex codec, with pinning on and a writable table without entries whose
  -- last line is ended: after an initiator whose nick is one trimmed line, a newline and the hex
  -- digits of a key of 32 bytes, an initiator with that key is taken.
  pub injected-authorized :
      (file : File) (p q : Peer) (a : ℕ) (n : Text) (y : Bytes)
      → IsTable file
      → entries c file ≡ []
      → IsEntry (record { x_pub = p.x_pub; nick = a ∷ n })
      → IsEntry (record { x_pub = y; nick = [] })
      → p.nick ≡ injected c a n y
      → q.x_pub ≡ y
      → (authorize_initiator c false true (authorize_initiator c false true file p).1 q).0 ≡ some q
  unfolding authorize_initiator
  injected-authorized file p q a n y t none_yet v w k s =
      rw (empty, decide_table)
        (rw written (rw (loaded, decide_table) (rw (contains_second first second q.x_pub s) refl)))
    where
      first : Entry
      first = record { x_pub = p.x_pub; nick = a ∷ n }

      second : Entry
      second = record { x_pub = y; nick = [] }

      file1 : File
      file1 = append_to file (format_line c p.x_pub (a ∷ n))

      file2 : File
      file2 = append_to file1 (format_line c y [])

      empty : load c file ≡ ok []
      empty = load-entries c file t ∙ ap ok none_yet

      once : IsTable file1 × (entries c file1 ≡ entries c file ++ first ∷ [])
      once = append_to-entries laws file first t v

      twice : IsTable file2 × (entries c file2 ≡ entries c file1 ++ second ∷ [])
      twice = append_to-entries laws file1 second once.0 w

      loaded : load c file2 ≡ ok (first ∷ second ∷ [])
      loaded =
          load-entries c file2 twice.0
          ∙ ap ok (
              twice.1
              ∙ ap (λ es. es ++ second ∷ []) (once.1 ∙ ap (λ es. es ++ first ∷ []) none_yet))

      written : (add c true file p.x_pub p.nick).0 ≡ file2
      written =
          add_new c file p.x_pub p.nick empty
          ∙ ap (λ m. append_to file (format_line c p.x_pub m)) k
          ∙ ap (append_to file) (format_line-injected c p.x_pub y a n)
          ∙ append_to-append file _ (format_line c y []) t
