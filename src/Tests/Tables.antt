-- ===== src/Tests/Tables.antt =====
-- src/authorized.rs and src/idfile.rs at concrete files.
use ws_usb_linux.Base.{
  ℕ, ◌≡◌, ◌⊎◌, refl, ◌↔◌, true, false, none, some, [], ◌∷◌, ◌++◌, list_eq, replicate, if◌then◌else◌,
  arith, Bytes, All,
}
use ws_usb_linux.Base.Text.{Text, codes, lines, is_whitespace, trim, trim_start, split_once}
use ws_usb_linux.Base.Result.{ok}
use ws_usb_linux.Proto.{Peer, from_seeds}
use ws_usb_linux.Authorized.{
  Entry, File, missing, text, parse_line, parse_lines, load, contains, add, authorize_initiator,
  print_entries,
}
use ws_usb_linux.Authorized.Table.{
  IsNick, inked, no_nick, IsEntry, IsTable, entries, add_lem, load-print_entries,
}
use ws_usb_linux.Authorized.Policy.{
  entry_for, MayEnter, authorize_initiator_iff, first_use_pins, malformed_first_use,
}
use ws_usb_linux.Authorized.Injection.{injected, injected-authorized}
use ws_usb_linux.Idfile.{load_or_create, identity_body}
use ws_usb_linux.Idfile.Persistence.{load_or_create_again}
use ws_usb_linux.Tests.Toy.{toy, toy_laws, replicate-IsBytes}

abbrev key : ℕ → Bytes
key x = replicate 32 x

abbrev peer_of : ℕ → Text → Peer
peer_of x nick = record { x_pub = key x; ed_pub = key x; id = replicate 8 x; nick = nick }

abbrev al : Text
al = codes "al"

al-IsNick : IsNick al
unfolding is_whitespace
al-IsNick = inked (b'l') (codes "a") refl refl refl ((refl, refl), ((refl, refl), tt))

abbrev al_entry : Entry
al_entry = entry_for (peer_of 1 al)

al_entry-IsEntry : IsEntry al_entry
al_entry-IsEntry = record {
  sized = refl;
  small = replicate-IsBytes 32 1 (omega arith);
  nick_ok = al-IsNick;
}

-- A table with a comment in it and no entry.
abbrev table : File
table = text (codes "# mine\n")

table_empty : entries toy table ≡ []
unfolding lines parse_line parse_lines trim trim_start is_whitespace
table_empty = refl

add_lem_example :
    let (file', result) = add toy true table (key 1) al in
    (result ≡ ok tt)
    × IsTable file'
    × (entries toy file' ≡ (
        if contains (entries toy table) (key 1)
        then entries toy table
        else entries toy table ++ al_entry ∷ []))
add_lem_example = add_lem toy_laws table al_entry refl al_entry-IsEntry

load-print_entries_example :
    load toy (text (print_entries toy (al_entry ∷ al_entry ∷ []))) ≡ ok (al_entry ∷ al_entry ∷ [])
load-print_entries_example =
    load-print_entries toy_laws (al_entry ∷ al_entry ∷ [])
      (al_entry-IsEntry, (al_entry-IsEntry, tt))

authorize_initiator_iff_example :
    let (taken, after) = authorize_initiator toy false true table (peer_of 1 al) in
    ((taken ≡ some (peer_of 1 al)) ↔ MayEnter toy false table (peer_of 1 al))
    × ((after ≡ table) ⊎ ((false ≡ false) × (load toy table ≡ ok [])))
authorize_initiator_iff_example = authorize_initiator_iff toy true table (peer_of 1 al) false

first_use_pins_example :
    let file' = (add toy true table (key 1) al).0 in
    (authorize_initiator toy false true table (peer_of 1 al) ≡ (some (peer_of 1 al), file'))
    × (load toy file' ≡ ok (al_entry ∷ []))
    × (authorize_initiator toy false true file' (peer_of 2 [])
        ≡ (if list_eq (key 1) (key 2) then some (peer_of 2 []) else none, file'))
first_use_pins_example =
    first_use_pins toy_laws table (peer_of 1 al) (peer_of 2 []) refl table_empty al_entry-IsEntry

spoiled : All (λ line. parse_line toy line ≡ none) (lines (codes "01g2 al\n"))
unfolding lines parse_line trim trim_start split_once is_whitespace
spoiled = (refl, tt)

malformed_first_use_example :
    (authorize_initiator toy false true (text (codes "01g2 al\n")) (peer_of 2 [])).0
    ≡ some (peer_of 2 [])
malformed_first_use_example =
    malformed_first_use toy true (codes "01g2 al\n") (peer_of 2 []) spoiled

abbrev intruder : Peer
intruder = peer_of 1 (injected toy (b'a') (codes "l") (key 2))

injected-authorized_example :
    (authorize_initiator toy false true
      (authorize_initiator toy false true table intruder).1
      (peer_of 2 [])).0
    ≡ some (peer_of 2 [])
injected-authorized_example =
    injected-authorized toy_laws table intruder (peer_of 2 []) (b'a') (codes "l") (key 2) refl
      table_empty al_entry-IsEntry
      (record { sized = refl; small = replicate-IsBytes 32 2 (omega arith); nick_ok = no_nick })
      refl refl

load_or_create_again_example :
    (load_or_create toy true (key 1) (key 2) missing
      ≡ (ok (from_seeds toy (key 1) (key 2), true), text (identity_body toy (key 1) (key 2))))
    × (load_or_create toy false (key 3) (key 4) (load_or_create toy true (key 1) (key 2) missing).1
        ≡ (ok (from_seeds toy (key 1) (key 2), false), text (identity_body toy (key 1) (key 2))))
load_or_create_again_example =
    load_or_create_again toy_laws (key 1) (key 2) (refl, replicate-IsBytes 32 1 (omega arith))
      (refl, replicate-IsBytes 32 2 (omega arith)) false (key 3) (key 4)
