-- ===== src/SessionIndex/Transactions.antt =====
-- The operations of microtun-core/src/session_index.rs as transactions on the map.
use microtun.Prelude.{
  ℕ, ◌≡◌, ◌≢◌, ◌≤◌, ◌<◌, refl, sym, subst, true, Option, none, some, arith, leb, ◌==◌,
  if◌then◌else◌, ◌⊎◌, ◌↔◌, inl, inr, Option-cases, Bool-cases,
}
use native.Mathlib.Decide.{ℕ_discrete}
use microtun.Peer.{SlotIdx}
use microtun.SessionIndex.{
  Table, session_index_generation_failed, internal_invariant, Outcome, is_slot, insert, slot_for,
  remove,
}

module _ (table : Table) (max_sessions : ℕ) where
  abbrev pub Map : Type 0
  Map = table.Map

  abbrev find : Map → ℕ → Option SlotIdx
  find = slot_for table max_sessions

  -- `m'` says `place` of `index` and otherwise what `m` says.
  abbrev pub IsUpdated : Map → ℕ → Option SlotIdx → Map → Type 0
  IsUpdated m index place m' =
      (j : ℕ)
      → slot_for table max_sessions m' j
        ≡ (if j == index then place else slot_for table max_sessions m j)

  pub put-IsUpdated :
      (m : Map) (index : ℕ) (slot : SlotIdx)
      → IsUpdated m index (some slot) (table.put m index slot)
  unfolding slot_for
  put-IsUpdated m index slot j = elim (ℕ_discrete j index) [
    | yes e ↦ ground (arith, table.get-put m index slot, e)
    | no n ↦ ground (arith, table.get-put_ne m index j slot n)
  ]

  pub delete-IsUpdated : (m : Map) (index : ℕ) → IsUpdated m index none (table.delete m index)
  unfolding slot_for
  delete-IsUpdated m index j = elim (ℕ_discrete j index) [
    | yes e ↦ ground (arith, table.get-delete m index, e)
    | no n ↦ ground (arith, table.get-delete_ne m index j n)
  ]

  pub insert_into :
      (m : Map) (index : ℕ) (slot : SlotIdx)
      → slot < max_sessions
      → table.get m index ≡ none
      → insert table max_sessions m index slot ≡ (table.put m index slot, none)
  unfolding insert
  insert_into m index slot l n = ground arith

  insert_refused :
      (m : Map) (index : ℕ) (slot : SlotIdx)
      → (max_sessions ≤ slot) ⊎ (table.get m index ≢ none)
      → insert table max_sessions m index slot ≡ (m, some session_index_generation_failed)
  unfolding insert
  insert_refused m index slot (inl l) = ground arith
  insert_refused m index slot (inr n) = ground arith

  -- What an insertion does: it adds the one mapping, or it fails and changes nothing.
  abbrev pub Insertion : Map → ℕ → SlotIdx → Map × Outcome → Type 0
  Insertion m index slot r =
      ((r.1 ≡ none)
        × (slot < max_sessions)
        × (slot_for table max_sessions m index ≡ none)
        × IsUpdated m index (some slot) r.0)
      ⊎ ((r.1 ≡ some session_index_generation_failed)
          × ((max_sessions ≤ slot) ⊎ (slot_for table max_sessions m index ≢ none))
          × (r.0 ≡ m))

  -- An insertion succeeds exactly for a slot of the pool and an index that is not in use, and then
  -- adds that one mapping; otherwise the map is as it was. The hash map obeys its laws.
  pub insert-Insertion :
      (m : Map) (index : ℕ) (slot : SlotIdx)
      → Insertion m index slot (insert table max_sessions m index slot)
  unfolding slot_for
  insert-Insertion m index slot = elim (Bool-cases (leb max_sessions slot)) [
    | inl b ↦
        let full : max_sessions ≤ slot = ground arith in
        subst (Insertion m index slot) (sym (insert_refused m index slot (inl full)))
          (inr (refl, inl full, refl))
    | inr b ↦ elim (Option-cases (table.get m index)) [
      | inl n ↦
          let room : slot < max_sessions = ground arith in
          subst (Insertion m index slot) (sym (insert_into m index slot room n))
            (inl (refl, room, n, put-IsUpdated m index slot))
      | inr (s, h) ↦
          let used : table.get m index ≢ none = λ n. cc in
          subst (Insertion m index slot) (sym (insert_refused m index slot (inr used)))
            (inr (refl, inr used, refl))
    ]
  ]

  -- A removal takes away the one mapping, where it belongs to the slot, or changes nothing.
  abbrev pub Removal : Map → ℕ → SlotIdx → Map × Outcome → Type 0
  Removal m index slot r =
      ((r.1 ≡ none)
        × (slot_for table max_sessions m index ≡ some slot)
        × IsUpdated m index none r.0)
      ⊎ ((r.1 ≡ some internal_invariant)
          × (slot_for table max_sessions m index ≢ some slot)
          × (r.0 ≡ m))

  pub is_slot_iff :
      (place : Option SlotIdx) (slot : SlotIdx) → (is_slot place slot ≡ true) ↔ (place ≡ some slot)
  is_slot_iff place slot = ground arith

  remove_eq :
      (m : Map) (index : ℕ) (slot : SlotIdx)
      → remove table max_sessions m index slot ≡ (
          if is_slot (table.get m index) slot
          then (table.delete m index, none)
          else (m, some internal_invariant))
  unfolding remove
  remove_eq m index slot = ground arith

  -- A removal succeeds exactly where the index belongs to the slot, and then takes away that one
  -- mapping; otherwise the map is as it was. The hash map obeys its laws.
  pub remove-Removal :
      (m : Map) (index : ℕ) (slot : SlotIdx)
      → Removal m index slot (remove table max_sessions m index slot)
  unfolding slot_for
  remove-Removal m index slot = elim (Bool-cases (is_slot (table.get m index) slot)) [
    | inl b ↦
        let owned = (is_slot_iff (table.get m index) slot).0 b in
        rw (remove_eq m index slot, b) (inl (refl, owned, delete-IsUpdated m index))
    | inr b ↦
        let other : table.get m index ≢ some slot = λ e. ground arith in
        rw (remove_eq m index slot, b) (inr (refl, other, refl))
  ]
