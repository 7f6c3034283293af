-- ===== src/SessionIndex/Tests.antt =====
-- A map that obeys the laws of the hash map of microtun-core/src/session_index.rs, and runs on it.
use microtun.Prelude.{ℕ, ◌≡◌, ◌≢◌, refl, Option, none, some, arith, ◌==◌, if◌then◌else◌}
use microtun.SessionIndex.{Table, replace}
use microtun.SessionIndex.Replacement.{Replacement, replace-Replacement}

abbrev entry : (ℕ → Option ℕ) → ℕ → Option ℕ → ℕ → Option ℕ
entry m k place j = if j == k then place else m j

entry_self : (m : ℕ → Option ℕ) (k : ℕ) (place : Option ℕ) → entry m k place k ≡ place
entry_self m k place = ground arith

entry_ne : (m : ℕ → Option ℕ) (k j : ℕ) (place : Option ℕ) → j ≢ k → entry m k place j ≡ m j
entry_ne m k j place n = ground arith

abbrev functions : Table
functions = record {
  Map = ℕ → Option ℕ;
  empty = λ j. none;
  get = λ m k. m k;
  put = λ m k s. entry m k (some s);
  delete = λ m k. entry m k none;
  get-empty = λ k. refl;
  get-put = λ m k s. entry_self m k (some s);
  get-put_ne = λ m k j s n. entry_ne m k j (some s) n;
  get-delete = λ m k. entry_self m k none;
  get-delete_ne = λ m k j n. entry_ne m k j none n;
}

-- Index 900 belongs to slot 1.
abbrev one : ℕ → Option ℕ
one = entry (λ j. none) 900 (some 1)

replace-Replacement_example :
    Replacement functions 4 one 900 77 1 (replace functions 4 one 900 77 1)
replace-Replacement_example = replace-Replacement functions 4 one 900 77 1
