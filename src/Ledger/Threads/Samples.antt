-- ===== src/Ledger/Threads/Samples.antt =====
-- A token bucket with the laws of `IsGcra`.
use thundercrab.Prelude.{
  ℕ, ◌+◌, ◌-◌, ◌/◌, ◌≤◌, ◌≡◌, refl, min, Bool, true, false, leb, arith, Bool-cases, inl, inr,
  if◌then◌else◌,
}
use thundercrab.Prelude.Eq.{same, same_iff, text_same}
use thundercrab.Signing.Wire.{Bytes}
use thundercrab.Ledger.Api.State.{Governor}
use thundercrab.Ledger.Threads.Quota.{hour, IsGcra}

-- The credit, and when it was that.
abbrev Bucket : Type 0
Bucket = ℕ × ℕ

unfoldable pub level : Bucket → ℕ → ℕ
level (credit, stamp) t = min hour (credit + (t - stamp))

unfoldable pub use_cell : ℕ → Bucket → ℕ → Bool × Bucket
use_cell n b t =
    let now = level b t in
    let passes = leb (hour / n) now in
    (passes, (if passes then now - hour / n else now, b.1 + (t - b.1)))

level-later : (b : Bucket) (t u : ℕ) → t ≤ u → level b u + t ≤ level b t + u
unfolding level
level-later b t u h = omega arith

use_cell-passed :
    (n : ℕ) (b : Bucket) (t : ℕ)
    → (use_cell n b t).0 ≡ true
    → level (use_cell n b t).1 t + hour / n ≤ level b t
unfolding use_cell level
use_cell-passed n b t h = ground arith

use_cell-limited :
    (n : ℕ) (b : Bucket) (t : ℕ)
    → (use_cell n b t).0 ≡ false
    → level (use_cell n b t).1 t ≤ level b t
unfolding use_cell level
use_cell-limited n b t h = ground arith

abbrev pub bucket_governor : Governor
bucket_governor = record {
  Instant = ℕ;
  Direct = ℕ × Bucket;
  Keyed = ℕ × (Bytes → Bucket);
  nanos = λ t. t;
  direct = λ n. (n, (hour, 0));
  dashmap = λ n. (n, (λ k. (hour, 0)));
  check = λ l t. let (p, b) = use_cell l.0 l.1 t in (p, (l.0, b));
  check_key = λ l k t.
      let (p, b) = use_cell l.0 (l.1 k) t in (p, (l.0, (λ k'. if same k k' then b else l.1 k')));
}

full : (t : ℕ) → level (hour, 0) t ≤ hour
unfolding level
full t = omega arith

pub bucket-IsGcra : IsGcra bucket_governor
bucket-IsGcra = record {
  cells = λ l. l.0;
  credit = λ l t. level l.1 t;
  direct_cells = λ n. refl;
  direct_credit = λ n t. full t;
  check_cells = λ l t. refl;
  clock = λ l t u h. level-later l.1 t u h;
  passed = λ l t h. use_cell-passed l.0 l.1 t h;
  limited = λ l t h. use_cell-limited l.0 l.1 t h;
  key_cells = λ l. l.0;
  key_credit = λ l k t. level (l.1 k) t;
  dashmap_cells = λ n. refl;
  dashmap_credit = λ n k t. full t;
  check_key_cells = λ l k t. refl;
  key_clock = λ l k t u h. level-later (l.1 k) t u h;
  key_passed = λ l k t h. rw ((same_iff k k).1 refl) (use_cell-passed l.0 (l.1 k) t h);
  key_limited = λ l k t h. rw ((same_iff k k).1 refl) (use_cell-limited l.0 (l.1 k) t h);
  key_other = λ l k k' t h. elim (Bool-cases (same k k')) [
    | inl y ↦ absurd (h ((same_iff k k').0 y))
    | inr n ↦ rw n (omega arith)
  ];
}
