-- ===== src/SessionIndex.antt =====
-- microtun-core/src/session_index.rs: the map from random receiver indices to session slots. The
-- table itself is a hash map of another crate, given here by its operations and their laws.
pub mod Transactions
pub mod Replacement
mod Tests
use microtun.Prelude.{
  ℕ, zero, suc, ◌≡◌, ◌≢◌, ◌≤◌, ◌<◌, Bool, true, false, Option, none, some, List, [], ◌∷◌, arith,
  ltb, leb, ◌==◌, if◌then◌else◌, ◌⊎◌,
}
use microtun.Peer.{SlotIdx}

-- What the code relies on of `hashbrown::HashMap<u32, SlotIdx>`: a lookup after an insertion or a
-- removal, at the key and beside it.
pub record Table : Type 1 where
  pub Map : Type 0
  pub empty : Map
  pub get : Map → ℕ → Option SlotIdx
  pub put : Map → ℕ → SlotIdx → Map
  pub delete : Map → ℕ → Map
  pub get-empty : (k : ℕ) → get empty k ≡ none
  pub get-put : (m : Map) (k : ℕ) (s : SlotIdx) → get (put m k s) k ≡ some s
  pub get-put_ne : (m : Map) (k j : ℕ) (s : SlotIdx) → j ≢ k → get (put m k s) j ≡ get m j
  pub get-delete : (m : Map) (k : ℕ) → get (delete m k) k ≡ none
  pub get-delete_ne : (m : Map) (k j : ℕ) → j ≢ k → get (delete m k) j ≡ get m j

pub data Error : Type 0 where
  session_index_generation_failed internal_invariant : Error

-- `Result<(), Error>`: `none` is `Ok(())`.
abbrev pub Outcome : Type 0
Outcome = Option Error

-- `place == Some(slot)`
abbrev pub is_slot : Option SlotIdx → SlotIdx → Bool
is_slot none slot = false
is_slot (some s) slot = s == slot

abbrev pub max_random_attempts : ℕ
max_random_attempts = 32

module _ (table : Table) (max_sessions : ℕ) where
  abbrev pub SessionIndexMap : Type 0
  SessionIndexMap = table.Map

  abbrev pub contains_key : SessionIndexMap → ℕ → Bool
  contains_key self index = elim (table.get self index) [ none ↦ false | some s ↦ true ]

  unfoldable pub new : SessionIndexMap
  new = table.empty

  -- The first draw of `rng` that is unused, of `left` draws at most; `rng` is the sequence of the
  -- values of `next_u32`. `none` is `SessionIndexGenerationFailed`.
  unfoldable pub draw : SessionIndexMap → ℕ → (ℕ → ℕ) → ℕ → Option ℕ
  draw self zero rng at = none
  draw self (suc left) rng at =
      let rest = draw self left rng (suc at) in
      if contains_key self (rng at) then rest else some (rng at)

  unfoldable pub random_unused : SessionIndexMap → (ℕ → ℕ) → Option ℕ
  random_unused self rng = draw self max_random_attempts rng 0

  unfoldable pub insert : SessionIndexMap → ℕ → SlotIdx → SessionIndexMap × Outcome
  insert self index slot =
      if leb max_sessions slot
      then (self, some session_index_generation_failed)
      else elim (table.get self index) [
        | some s ↦ (self, some session_index_generation_failed)
        | none ↦ (table.put self index slot, none)
      ]

  -- The end of `replace`: the old mapping is restored when the insertion fails.
  unfoldable pub reinsert : SessionIndexMap → ℕ → ℕ → SlotIdx → SessionIndexMap × Outcome
  reinsert removed old fresh slot =
      let (moved, outcome) = insert removed fresh slot in
      let (restored, back) = insert moved old slot in
      elim outcome [
        | none ↦ (moved, none)
        | some e ↦ (
          restored,
          elim back [
            | none ↦ some session_index_generation_failed
            | some e' ↦ some internal_invariant
          ],
        )
      ]

  -- `table.remove` returns what the key held, which the first test has found to be `slot`.
  unfoldable pub replace : SessionIndexMap → ℕ → ℕ → SlotIdx → SessionIndexMap × Outcome
  replace self old fresh slot =
      if leb max_sessions slot
      then (self, some session_index_generation_failed)
      else if is_slot (table.get self old) slot
      then (if old == fresh
          then (self, none)
          else if contains_key self fresh
          then (self, some session_index_generation_failed)
          else if is_slot (table.get self old) slot
          then reinsert (table.delete self old) old fresh slot
          else (table.delete self old, some internal_invariant))
      else (self, some internal_invariant)

  unfoldable pub slot_for : SessionIndexMap → ℕ → Option SlotIdx
  slot_for self index = table.get self index

  unfoldable pub remove : SessionIndexMap → ℕ → SlotIdx → SessionIndexMap × Outcome
  remove self index slot =
      if is_slot (table.get self index) slot
      then (
        table.delete self index,
        if is_slot (table.get self index) slot then none else some internal_invariant,
      )
      else (self, some internal_invariant)
