-- ===== src/Proto/Clamp.antt =====
-- src/proto.rs: the scalar that `Identity::from_seeds` makes of a seed.
use Prim.Native.Nat.{bit_and, bit_or}
use ws_usb_linux.Base.{
  ℕ, zero, suc, ◌+◌, inl, inr, false, Bool-cases, if◌then◌else◌, ◌/◌, ◌%◌, ◌≤◌, ◌<◌, ◌≡◌, ◌≢◌, refl,
  sym, ap, ◌∙◌, Bool, true, ◌&&◌, length, get_or, set, length-set, get_or-set_self, get_or-set_ne,
  get_or-All, leb, ltb, ◌==◌, arith, Bytes, IsBytes,
}
use ws_usb_linux.Proto.{clamp}

-- A test of every number in a range, by evaluation.
test_range : ℕ → ℕ → (ℕ → Bool) → Bool
test_range zero first test = true
test_range (suc count) first test =
    let rest = test_range count (first + 1) test in if test first then rest else false

test_range-apply :
    (count first x : ℕ) (test : ℕ → Bool)
    → test_range count first test ≡ true
    → first ≤ x
    → x < first + count
    → test x ≡ true
unfolding test_range
test_range-apply zero first x test h lower upper = absurd (omega arith)
test_range-apply (suc count) first x test h lower upper = elim (Bool-cases (first == x)) [
  | inl same ↦ ground arith
  | inr other ↦
      test_range-apply count (first + 1) x test (ground arith) (ground arith) (omega arith)
]

low_table : test_range 256 0 (λ x. bit_and x 248 % 8 == 0 && bit_and x 248 / 8 == x / 8) ≡ true
unfolding test_range
low_table = refl

abbrev top_byte : ℕ → ℕ
top_byte x = bit_or (bit_and x 127) 64

high_table :
    test_range 256 0 (λ x. leb 64 (top_byte x) && ltb (top_byte x) 128 && top_byte x % 64 == x % 64)
    ≡ true
unfolding test_range
high_table = refl

-- What X25519 asks of a scalar, and that nothing but the five fixed bits changes.
pub record IsClamped (seed key : Bytes) : Type 0 where
  pub size : length key ≡ length seed
  pub cofactor : get_or key 0 0 % 8 ≡ 0
  pub low_kept : get_or key 0 0 / 8 ≡ get_or seed 0 0 / 8
  pub top : (64 ≤ get_or key 31 0) × (get_or key 31 0 < 128)
  pub high_kept : get_or key 31 0 % 64 ≡ get_or seed 31 0 % 64
  pub others : (i : ℕ) → i ≢ 0 → i ≢ 31 → get_or key i 0 ≡ get_or seed i 0

low_byte : (x : ℕ) → x < 256 → (bit_and x 248 % 8 ≡ 0) × (bit_and x 248 / 8 ≡ x / 8)
low_byte x h = ground (arith, test_range-apply 256 0 x _ low_table (omega arith) h)

high_byte : (x : ℕ) → x < 256 → (64 ≤ top_byte x) × (top_byte x < 128) × (top_byte x % 64 ≡ x % 64)
high_byte x h = ground (arith, test_range-apply 256 0 x _ high_table (omega arith) h)

-- The scalar after the first write and after the second.
abbrev once : Bytes → Bytes
once seed = set seed 0 (bit_and (get_or seed 0 0) 248)

abbrev twice : Bytes → Bytes
twice seed = set (once seed) 31 (bit_and (get_or (once seed) 31 0) 127)

abbrev last_byte : Bytes → ℕ
last_byte seed = bit_or (get_or (twice seed) 31 0) 64

length-once : (seed : Bytes) → length (once seed) ≡ length seed
length-once seed = length-set seed 0 _

length-twice : (seed : Bytes) → length (twice seed) ≡ length seed
length-twice seed = length-set (once seed) 31 _ ∙ length-once seed

pub length-clamp : (seed : Bytes) → length (clamp seed) ≡ length seed
unfolding clamp
length-clamp seed = length-set (twice seed) 31 (last_byte seed) ∙ length-twice seed

-- Each byte that is written, read back, and the bytes that are not.
get_or-clamp : (seed : Bytes) (i : ℕ) → i ≢ 31 → get_or (clamp seed) i 0 ≡ get_or (once seed) i 0
unfolding clamp
get_or-clamp seed i b =
    get_or-set_ne (twice seed) 31 i (last_byte seed) 0 (λ e. b (sym e))
    ∙ get_or-set_ne (once seed) 31 i (bit_and (get_or (once seed) 31 0) 127) 0 (λ e. b (sym e))

clamp-zero :
    (seed : Bytes) → length seed ≡ 32 → get_or (clamp seed) 0 0 ≡ bit_and (get_or seed 0 0) 248
clamp-zero seed sized =
    get_or-clamp seed 0 (omega arith)
    ∙ get_or-set_self seed 0 (bit_and (get_or seed 0 0) 248) 0 (omega arith)

once-top : (seed : Bytes) → get_or (once seed) 31 0 ≡ get_or seed 31 0
once-top seed = get_or-set_ne seed 0 31 (bit_and (get_or seed 0 0) 248) 0 (omega arith)

clamp-top :
    (seed : Bytes) → length seed ≡ 32 → get_or (clamp seed) 31 0 ≡ top_byte (get_or seed 31 0)
unfolding clamp
clamp-top seed sized =
    get_or-set_self (twice seed) 31 (last_byte seed) 0 (omega (arith, length-twice seed))
    ∙ ap (λ x. bit_or x 64)
        (get_or-set_self (once seed) 31 (bit_and (get_or (once seed) 31 0) 127) 0
            (omega (arith, length-once seed))
          ∙ ap (λ x. bit_and x 127) (once-top seed))

clamp-others : (seed : Bytes) (i : ℕ) → i ≢ 0 → i ≢ 31 → get_or (clamp seed) i 0 ≡ get_or seed i 0
clamp-others seed i a b =
    get_or-clamp seed i b
    ∙ get_or-set_ne seed 0 i (bit_and (get_or seed 0 0) 248) 0 (λ e. a (sym e))

-- The scalar made from a seed of 32 bytes has its size, a first byte divisible by 8 and a last
-- byte from 64 to 127; the bits that are not fixed by this are the seed's, and so are all other
-- bytes.
pub clamp-IsClamped : (seed : Bytes) → length seed ≡ 32 → IsBytes seed → IsClamped seed (clamp seed)
clamp-IsClamped seed sized small = record {
  size = length-clamp seed;
  cofactor = rw (clamp-zero seed sized) low.0;
  low_kept = rw (clamp-zero seed sized) low.1;
  top = rw (clamp-top seed sized) (high.0, high.1);
  high_kept = rw (clamp-top seed sized) high.2;
  others = clamp-others seed;
}
  where
    low :
        (bit_and (get_or seed 0 0) 248 % 8 ≡ 0)
        × (bit_and (get_or seed 0 0) 248 / 8 ≡ get_or seed 0 0 / 8)
    low = low_byte _ (get_or-All (λ b. b < 256) seed 0 0 (omega arith) small)

    high :
        (64 ≤ top_byte (get_or seed 31 0))
        × (top_byte (get_or seed 31 0) < 128)
        × (top_byte (get_or seed 31 0) % 64 ≡ get_or seed 31 0 % 64)
    high = high_byte _ (get_or-All (λ b. b < 256) seed 31 0 (omega arith) small)
