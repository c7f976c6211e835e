-- ===== src/Authorized/Policy.antt =====
-- src/tcp.rs: the policy of `authorize_initiator` over the table.
use ws_usb_linux.Base.{
  ◌≡◌, ◌⊎◌, ◌↔◌, inl, inr, refl, sym, ap, ◌∙◌, Bool, true, false, none, some, List, [], ◌∷◌, ◌++◌,
  list_eq, if◌then◌else◌, Bytes, All, arith,
}
use ws_usb_linux.Base.Text.{Text, lines}
use ws_usb_linux.Base.Result.{Result, ok, err}
use ws_usb_linux.Crypto.{Crypto, CryptoLaws}
use ws_usb_linux.Proto.{Peer}
use ws_usb_linux.Authorized.{
  Entry, File, text, parse_line, parse_lines, load, contains, add, authorize_initiator,
  decide_table, onto,
}
use ws_usb_linux.Authorized.Table.{IsTable, IsEntry, entries, load-entries, add_lem}

abbrev pub entry_for : Peer → Entry
entry_for p = record { x_pub = p.x_pub; nick = p.nick }

-- The three ways in: pinning switched off, a readable table without entries, a listed key.
pub data MayEnter (c : Crypto) (no_pinning : Bool) (file : File) (p : Peer) : Type 0 where
  unpinned : no_pinning ≡ true → MayEnter c no_pinning file p
  first_use : load c file ≡ ok [] → MayEnter c no_pinning file p
  listed :
      (es : List Entry)
      → load c file ≡ ok es
      → contains es p.x_pub ≡ true
      → MayEnter c no_pinning file p

-- With pinning on, a way in through a table that was read as `r`.
MayEnter-read :
    {c : Crypto} {file : File} {p : Peer} (r : Result (List Entry))
    → load c file ≡ r
    → MayEnter c false file p
    → (r ≡ ok []) ⊎ ((es : List Entry) × (r ≡ ok es) × (contains es p.x_pub ≡ true))
MayEnter-read r e (unpinned q) = absurd (cc)
MayEnter-read r e (first_use q) = inl (sym e ∙ q)
MayEnter-read r e (listed es q m) = inr (es, sym e ∙ q, m)

module _ (c : Crypto) (can_write : Bool) (file : File) (p : Peer) where
  decide_table_iff :
      (r : Result (List Entry))
      → load c file ≡ r
      → let (taken, after) = decide_table c can_write file p r in
        ((taken ≡ some p) ↔ MayEnter c false file p) × ((after ≡ file) ⊎ (load c file ≡ ok []))
  unfolding decide_table
  decide_table_iff (err x) e =
      ((λ q. absurd (cc), λ m. absurd (ground (arith, MayEnter-read (err x) e m))), inl refl)
  decide_table_iff (ok []) e = ((λ _. first_use e, λ _. refl), inr e)
  decide_table_iff (ok (x ∷ es)) e = (
    (λ q. listed (x ∷ es) e (ground arith), λ m. ground (arith, MayEnter-read (ok (x ∷ es)) e m)),
    inl refl,
  )

  -- An initiator is taken exactly when pinning is switched off, the table is readable and has no
  -- entry, or its key is listed in the table; and the file is as before, unless pinning is on and
  -- the table has no entry.
  pub authorize_initiator_iff :
      (no_pinning : Bool)
      → let (taken, after) = authorize_initiator c no_pinning can_write file p in
        ((taken ≡ some p) ↔ MayEnter c no_pinning file p)
        × ((after ≡ file) ⊎ ((no_pinning ≡ false) × (load c file ≡ ok [])))
  unfolding authorize_initiator
  authorize_initiator_iff true = ((λ _. unpinned refl, λ _. refl), inl refl)
  authorize_initiator_iff false =
      let (who, kept) = decide_table_iff (load c file) refl in
      (who, elim kept [ inl k ↦ inl k | inr k ↦ inr (refl, k) ])

pub contains_one :
    (x y : Bytes) (nick : Text) → contains (record { x_pub = x; nick = nick } ∷ []) y ≡ list_eq x y
unfolding contains
contains_one x y nick = ground arith

module _ {c : Crypto} (laws : CryptoLaws c) where
  -- Under the laws of the hex codec, with pinning on, for a writable table without entries whose
  -- last line is ended and a first initiator with a key of 32 bytes and a nick of one trimmed
  -- line: it is taken and added, the table then has it as its only entry, and a second initiator
  -- is taken exactly when it has the same key, without a change of the file.
  pub first_use_pins :
      (file : File) (p q : Peer)
      → IsTable file
      → entries c file ≡ []
      → IsEntry (entry_for p)
      → let file' = (add c true file p.x_pub p.nick).0 in
        (authorize_initiator c false true file p ≡ (some p, file'))
        × (load c file' ≡ ok (entry_for p ∷ []))
        × (authorize_initiator c false true file' q
            ≡ (if list_eq p.x_pub q.x_pub then some q else none, file'))
  unfolding authorize_initiator
  first_use_pins file p q t none_yet v = (
    rw (empty, decide_table) refl,
    loaded,
    rw (loaded, decide_table) (rw (contains_one p.x_pub q.x_pub p.nick) refl),
  )
    where
      file' : File
      file' = (add c true file p.x_pub p.nick).0

      empty : load c file ≡ ok []
      empty = load-entries c file t ∙ ap ok none_yet

      added :
          ((add c true file p.x_pub p.nick).1 ≡ ok tt)
          × IsTable file'
          × (entries c file' ≡ (
              if contains (entries c file) p.x_pub
              then entries c file
              else entries c file ++ entry_for p ∷ []))
      added = add_lem laws file (entry_for p) t v

      grown : entries c file' ≡ entry_for p ∷ []
      grown = added.2 ∙ rw none_yet (unfold contains in refl)

      loaded : load c file' ≡ ok (entry_for p ∷ [])
      loaded = load-entries c file' added.1 ∙ ap ok grown

unread :
    (c : Crypto) (ls : List Text)
    → All (λ line. parse_line c line ≡ none) ls
    → parse_lines c ls ≡ []
unfolding parse_lines
unread c [] k = refl
unread c (l ∷ ls) k = rw (k.0, onto) (unread c ls k.1)

-- With pinning on, a file of which no line can be read as an entry lets any initiator in.
pub malformed_first_use :
    (c : Crypto) (can_write : Bool) (raw : Text) (p : Peer)
    → All (λ line. parse_line c line ≡ none) (lines raw)
    → (authorize_initiator c false can_write (text raw) p).0 ≡ some p
unfolding authorize_initiator load
malformed_first_use c can_write raw p h = rw (unread c (lines raw) h, decide_table) refl
