-- ===== src/Stat.antt =====
-- src/stat.rs: the two counters and the flags that the ticker prints for each window.
use ws_usb_linux.Base.{ℕ, ◌+◌, ◌^◌, ◌%◌, Bool, not, List, [], ◌∷◌, ◌==◌}

abbrev pub u64 : ℕ
u64 = 2 ^ 64

-- `fetch_add` of a counter, by all that is added to it in a window.
unfoldable pub fetch_add : ℕ → ℕ → ℕ
fetch_add counter n = (counter + n) % u64

-- `(cur != last) as u8`
unfoldable pub window_flag : ℕ → ℕ → Bool
window_flag cur last = not (cur == last)

-- The lines of the ticker, from what it has last seen of the two counters, with what moves in each
-- window. What it has last seen is what the counters were at its last tick.
unfoldable pub ticks : ℕ → ℕ → List (ℕ × ℕ) → List (Bool × Bool)
ticks last_tx last_rx [] = []
ticks last_tx last_rx ((tx, rx) ∷ windows) =
    let cur_tx = fetch_add last_tx tx in
    let cur_rx = fetch_add last_rx rx in
    (window_flag cur_tx last_tx, window_flag cur_rx last_rx) ∷ ticks cur_tx cur_rx windows

-- Whether a number of bytes shows in a counter that wraps.
abbrev pub shows : ℕ → Bool
shows n = not (n % u64 == 0)
