-- ===== src/Tcp/Alloc.antt =====
-- src/tcp.rs: `alloc_conn_id`, the candidates in its order and its outcomes.
use ws_usb_linux.Base.{
  ℕ, zero, suc, ◌+◌, ◌-◌, ◌%◌, ◌≤◌, ◌<◌, ◌≡◌, inl, inr, refl, true, false, Option, none, some,
  Bool-cases, arith, ap, ◌∙◌, ◌↔◌, dec_lt, subst,
}
use ws_usb_linux.Base.Maps.{is_some}
use ws_usb_linux.Tcp.{alloc_loop, alloc_conn_id}

-- The id that `alloc_conn_id` tries after `k` failures.
abbrev pub candidate : ℕ → ℕ → ℕ
candidate next k = (next + k) % 256

-- The first free candidate is number `k`, and `next` goes behind it.
pub record FirstFree (conns : ℕ → Option ℕ) (next conn_id next' : ℕ) : Type 0 where
  pub k : ℕ
  pub within : k < 256
  pub chosen : conn_id ≡ candidate next k
  pub free : conns conn_id ≡ none
  pub skipped : (i : ℕ) → i < k → is_some (conns (candidate next i)) ≡ true
  pub moved : next' ≡ (conn_id + 1) % 256

-- The outcome of the loop over the candidates from `k0` on.
abbrev Outcome : (ℕ → Option ℕ) → ℕ → ℕ → ℕ → Option ℕ × ℕ → Type 0
Outcome conns next k0 rounds (some conn_id, next') =
    (k : ℕ) × (k0 ≤ k)
    × (k < k0 + rounds)
    × (conn_id ≡ candidate next k)
    × (conns conn_id ≡ none)
    × ((i : ℕ) → k0 ≤ i → i < k → is_some (conns (candidate next i)) ≡ true)
    × (next' ≡ (conn_id + 1) % 256)
Outcome conns next k0 rounds (none, next') =
    ((i : ℕ) → k0 ≤ i → i < k0 + rounds → is_some (conns (candidate next i)) ≡ true)
    × (next' ≡ candidate next (k0 + rounds))

is_some-none : (o : Option ℕ) → is_some o ≡ false → o ≡ none
is_some-none none h = refl
is_some-none (some j) h = cc

extend :
    (P : ℕ → Type 0) (k0 n : ℕ)
    → P k0
    → ((i : ℕ) → k0 + 1 ≤ i → i < n → P i)
    → (i : ℕ) → k0 ≤ i
    → i < n
    → P i
extend P k0 n h tail i p q = elim (dec_lt k0 i) [
  | yes above ↦ tail i (omega arith) q
  | no here ↦ subst P {x = k0} (omega arith) h
]

later :
    (conns : ℕ → Option ℕ) (next k0 rounds : ℕ) (r : Option ℕ × ℕ)
    → is_some (conns (candidate next k0)) ≡ true
    → Outcome conns next (k0 + 1) rounds r
    → Outcome conns next k0 (suc rounds) r
later conns next k0 rounds (none, next') used o = (
  extend (λ i. is_some (conns (candidate next i)) ≡ true) k0 (k0 + suc rounds) used
      (λ i p q. o.0 i p (omega arith)),
  o.1 ∙ ap (candidate next) (omega arith),
)
later conns next k0 rounds (some conn_id, next') used (k, low, high, chosen, free, skipped, moved) =
    (
      k,
      omega arith,
      omega arith,
      chosen,
      free,
      extend (λ i. is_some (conns (candidate next i)) ≡ true) k0 k used skipped,
      moved,
    )

loop-Outcome :
    (conns : ℕ → Option ℕ) (next k0 rounds : ℕ)
    → Outcome conns next k0 rounds (alloc_loop rounds conns (candidate next k0))
unfolding alloc_loop
loop-Outcome conns next k0 zero = (λ i p q. absurd (omega arith), ap (candidate next) (omega arith))
loop-Outcome conns next k0 (suc rounds) = elim (Bool-cases (is_some (conns (candidate next k0)))) [
  | inl used ↦
      rw used
        (later conns next k0 rounds _ used (rw round (loop-Outcome conns next (k0 + 1) rounds)))
  | inr unused ↦ rw unused (
    k0,
    omega arith,
    omega arith,
    refl,
    is_some-none (conns (candidate next k0)) unused,
    λ i p q. absurd (omega arith),
    refl,
  )
]
  where
    round : (candidate next k0 + 1) % 256 ≡ candidate next (k0 + 1)
    round = omega arith

alloc-Outcome :
    (conns : ℕ → Option ℕ) (next : ℕ)
    → next < 256
    → Outcome conns next 0 256 (alloc_conn_id conns next)
unfolding alloc_conn_id
alloc-Outcome conns next h =
    subst (λ n. Outcome conns next 0 256 (alloc_loop 256 conns n)) {x = candidate next 0}
      (omega arith) (loop-Outcome conns next 0 256)

FirstFree-of_Outcome :
    (conns : ℕ → Option ℕ) (next conn_id : ℕ) (r : Option ℕ × ℕ)
    → Outcome conns next 0 256 r
    → r.0 ≡ some conn_id
    → FirstFree conns next conn_id r.1
FirstFree-of_Outcome conns next conn_id (none, next') o e = absurd (cc)
FirstFree-of_Outcome conns next conn_id (some got, next')
      (k, _, within, chosen, free, skipped, moved) e =
    subst (λ g. FirstFree conns next g next') {x = got} (ground arith)
      (record {
        k = k;
        within = within;
        chosen = chosen;
        free = free;
        skipped = λ i p. skipped i (omega arith) p;
        moved = moved;
      })

-- When next is a byte and an id is handed out, the id is free, it is the first free one at or
-- after next in the order that wraps at 256, and next becomes the id behind it.
pub alloc_conn_id-FirstFree :
    (conns : ℕ → Option ℕ) (next conn_id : ℕ)
    → next < 256
    → (alloc_conn_id conns next).0 ≡ some conn_id
    → FirstFree conns next conn_id (alloc_conn_id conns next).1
alloc_conn_id-FirstFree conns next conn_id h =
    FirstFree-of_Outcome conns next conn_id (alloc_conn_id conns next) (alloc-Outcome conns next h)

none-of_Outcome :
    (conns : ℕ → Option ℕ) (next : ℕ) (r : Option ℕ × ℕ)
    → Outcome conns next 0 256 r
    → next < 256
    → (r.0 ≡ none) ↔ ((conn_id : ℕ) → conn_id < 256 → is_some (conns conn_id) ≡ true)
none-of_Outcome conns next (none, next') (used, moved) h = (
  λ _ conn_id q.
      subst (λ i. is_some (conns i) ≡ true) {x = candidate next ((conn_id + 256 - next) % 256)}
        (omega arith) (used ((conn_id + 256 - next) % 256) (omega arith) (omega arith)),
  λ _. refl,
)
none-of_Outcome conns next (some got, next') (k, _, _, chosen, free, _, _) h =
    (λ e. absurd (cc), λ all. absurd (cc (free, all got (omega arith))))

-- When next is a byte, the allocation fails exactly when all 256 ids are in use.
pub alloc_conn_id-none :
    (conns : ℕ → Option ℕ) (next : ℕ)
    → next < 256
    → ((alloc_conn_id conns next).0 ≡ none)
      ↔ ((conn_id : ℕ) → conn_id < 256 → is_some (conns conn_id) ≡ true)
alloc_conn_id-none conns next h =
    none-of_Outcome conns next (alloc_conn_id conns next) (alloc-Outcome conns next h) h

lt-of_Outcome :
    (conns : ℕ → Option ℕ) (next : ℕ) (r : Option ℕ × ℕ) → Outcome conns next 0 256 r → r.1 < 256
lt-of_Outcome conns next (none, next') o = omega arith
lt-of_Outcome conns next (some got, next') o = omega arith

-- `next` stays a byte.
pub alloc_conn_id-lt :
    (conns : ℕ → Option ℕ) (next : ℕ) → next < 256 → (alloc_conn_id conns next).1 < 256
alloc_conn_id-lt conns next h =
    lt-of_Outcome conns next (alloc_conn_id conns next) (alloc-Outcome conns next h)
