-- ===== src/Ledger/Threads/Quota.antt =====
-- How many submissions the limiters of `AppState::new` let into the store, however the requests
-- overlap.
pub mod Credit
pub mod Global
pub mod Keyed
use thundercrab.Prelude.{ℕ, ◌+◌, ◌/◌, ◌≤◌, ◌≡◌, ◌≢◌, true, false}
use thundercrab.Signing.Wire.{Bytes}
use thundercrab.Ledger.Api.State.{Governor}

-- The nanoseconds of an hour.
abbrev pub hour : ℕ
hour = 3600000000000

-- What governor says of its limiters, in nanoseconds of credit: one for `n` cells an hour starts with
-- the credit of an hour at most, gets a nanosecond in a nanosecond at most, and lets a cell pass only
-- for the `n`-th part of an hour. A keyed limiter does so for each key alone.
pub record IsGcra (g : Governor) : Type 0 where
  pub cells : g.Direct → ℕ
  pub credit : g.Direct → g.Instant → ℕ
  pub direct_cells : (n : ℕ) → cells (g.direct n) ≡ n
  pub direct_credit : (n : ℕ) (t : g.Instant) → credit (g.direct n) t ≤ hour
  pub check_cells : (l : g.Direct) (t : g.Instant) → cells (g.check l t).1 ≡ cells l
  pub clock :
      (l : g.Direct) (t u : g.Instant)
      → g.nanos t ≤ g.nanos u
      → credit l u + g.nanos t ≤ credit l t + g.nanos u
  pub passed :
      (l : g.Direct) (t : g.Instant)
      → (g.check l t).0 ≡ true
      → credit (g.check l t).1 t + hour / cells l ≤ credit l t
  pub limited :
      (l : g.Direct) (t : g.Instant)
      → (g.check l t).0 ≡ false
      → credit (g.check l t).1 t ≤ credit l t
  pub key_cells : g.Keyed → ℕ
  pub key_credit : g.Keyed → Bytes → g.Instant → ℕ
  pub dashmap_cells : (n : ℕ) → key_cells (g.dashmap n) ≡ n
  pub dashmap_credit : (n : ℕ) (k : Bytes) (t : g.Instant) → key_credit (g.dashmap n) k t ≤ hour
  pub check_key_cells :
      (l : g.Keyed) (k : Bytes) (t : g.Instant) → key_cells (g.check_key l k t).1 ≡ key_cells l
  pub key_clock :
      (l : g.Keyed) (k : Bytes) (t u : g.Instant)
      → g.nanos t ≤ g.nanos u
      → key_credit l k u + g.nanos t ≤ key_credit l k t + g.nanos u
  pub key_passed :
      (l : g.Keyed) (k : Bytes) (t : g.Instant)
      → (g.check_key l k t).0 ≡ true
      → key_credit (g.check_key l k t).1 k t + hour / key_cells l ≤ key_credit l k t
  pub key_limited :
      (l : g.Keyed) (k : Bytes) (t : g.Instant)
      → (g.check_key l k t).0 ≡ false
      → key_credit (g.check_key l k t).1 k t ≤ key_credit l k t
  pub key_other :
      (l : g.Keyed) (k k' : Bytes) (t : g.Instant)
      → k ≢ k'
      → key_credit (g.check_key l k t).1 k' t ≤ key_credit l k' t
