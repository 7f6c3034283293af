-- ===== src/SessionIndex/Replacement.antt =====
-- `replace` of microtun-core/src/session_index.rs as a transaction, and the draw of an unused index.
use native.Mathlib.Decide.{ℕ_discrete}
use microtun.Prelude.{
  ℕ, zero, suc, ◌+◌, ◌-◌, ◌≡◌, ◌≢◌, ◌≤◌, ◌<◌, refl, sym, subst, ◌∙◌, true, none, some, arith, leb,
  ◌==◌, if◌then◌else◌, ◌⊎◌, inl, inr, Option-cases, Bool-cases,
}
use microtun.Peer.{SlotIdx}
use microtun.SessionIndex.{
  Table, Error, session_index_generation_failed, internal_invariant, Outcome, is_slot, draw,
  random_unused, reinsert, replace, slot_for, max_random_attempts,
}
use microtun.SessionIndex.Transactions.{
  Map, insert_into, put-IsUpdated, delete-IsUpdated, is_slot_iff,
}

module _ (table : Table) (max_sessions : ℕ) where
  -- The mapping moves from `old` to `fresh`, and the others stay.
  abbrev pub IsMoved : Map table max_sessions → ℕ → ℕ → SlotIdx → Map table max_sessions → Type 0
  IsMoved m old fresh slot m' =
      (j : ℕ)
      → slot_for table max_sessions m' j ≡ (
          if j == fresh
          then some slot
          else if j == old
          then none
          else slot_for table max_sessions m j)

  -- Why a replacement fails, and with which error.
  abbrev pub Failure : Map table max_sessions → ℕ → ℕ → SlotIdx → Error → Type 0
  Failure m old fresh slot session_index_generation_failed =
      (max_sessions ≤ slot) ⊎ ((old ≢ fresh) × (slot_for table max_sessions m fresh ≢ none))
  Failure m old fresh slot internal_invariant = slot_for table max_sessions m old ≢ some slot

  abbrev pub Replacement :
      Map table max_sessions → ℕ → ℕ → SlotIdx → Map table max_sessions × Outcome → Type 0
  Replacement m old fresh slot (m', none) =
      (slot < max_sessions)
      × (slot_for table max_sessions m old ≡ some slot)
      × (((old ≡ fresh) × (m' ≡ m))
          ⊎ ((old ≢ fresh)
              × (slot_for table max_sessions m fresh ≡ none)
              × IsMoved m old fresh slot m'))
  Replacement m old fresh slot (m', some e) = (m' ≡ m) × Failure m old fresh slot e

  reinsert_move :
      (m : Map table max_sessions) (old fresh : ℕ) (slot : SlotIdx)
      → slot < max_sessions
      → table.get m fresh ≡ none
      → reinsert table max_sessions m old fresh slot ≡ (table.put m fresh slot, none)
  unfolding reinsert
  reinsert_move m old fresh slot l n =
      ground (arith, insert_into table max_sessions m fresh slot l n)

  put_delete-IsMoved :
      (m : Map table max_sessions) (old fresh : ℕ) (slot : SlotIdx)
      → IsMoved m old fresh slot (table.put (table.delete m old) fresh slot)
  put_delete-IsMoved m old fresh slot j = ground (
    arith,
    put-IsUpdated table max_sessions (table.delete m old) fresh slot j,
    delete-IsUpdated table max_sessions m old j,
  )

  module _ (m : Map table max_sessions) (old fresh : ℕ) (slot : SlotIdx) (l : slot < max_sessions)
      (o : is_slot (table.get m old) slot ≡ true) where
    replace_same : old ≡ fresh → replace table max_sessions m old fresh slot ≡ (m, none)
    unfolding replace
    replace_same e = ground arith

    replace_used :
        {s : SlotIdx}
        → old ≢ fresh
        → table.get m fresh ≡ some s
        → replace table max_sessions m old fresh slot ≡ (m, some session_index_generation_failed)
    unfolding replace
    replace_used n h = ground arith

    replace_move :
        old ≢ fresh
        → table.get m fresh ≡ none
        → replace table max_sessions m old fresh slot
          ≡ (table.put (table.delete m old) fresh slot, none)
    unfolding replace
    replace_move n free =
        let kept : table.get (table.delete m old) fresh ≡ none =
          table.get-delete_ne m old fresh (λ e. n (sym e)) ∙ free in
        ground (arith, reinsert_move (table.delete m old) old fresh slot l kept)

    owned_case : Replacement m old fresh slot (replace table max_sessions m old fresh slot)
    unfolding slot_for
    owned_case =
        let owns = (is_slot_iff table max_sessions (table.get m old) slot).0 o in
        elim (ℕ_discrete old fresh) [
          | yes e ↦
              subst (Replacement m old fresh slot) (sym (replace_same e)) (l, owns, inl (e, refl))
          | no n ↦ elim (Option-cases (table.get m fresh)) [
            | inr (s, h) ↦
                let used : table.get m fresh ≢ none = λ e. cc in
                subst (Replacement m old fresh slot) (sym (replace_used n h)) (refl, inr (n, used))
            | inl free ↦
                subst (Replacement m old fresh slot) (sym (replace_move n free))
                  (l, owns, inr (n, free, put_delete-IsMoved m old fresh slot))
          ]
        ]

  -- A replacement is a transaction. It succeeds exactly where the slot is of the pool, owns the old
  -- index, and the new index is the same or not in use; then the slot's mapping moves and nothing
  -- else changes. It fails for one of these reasons, with the error that the reason has, and the
  -- map is as it was. The hash map obeys its laws.
  pub replace-Replacement :
      (m : Map table max_sessions) (old fresh : ℕ) (slot : SlotIdx)
      → Replacement m old fresh slot (replace table max_sessions m old fresh slot)
  unfolding replace slot_for
  replace-Replacement m old fresh slot = elim (Bool-cases (leb max_sessions slot)) [
    | inl b ↦ rw b (refl, inl (ground arith))
    | inr b ↦ elim (Bool-cases (is_slot (table.get m old) slot)) [
      | inr o ↦ rw (b, o) (refl, λ e. ground arith)
      | inl o ↦ owned_case m old fresh slot (ground arith) o
    ]
  ]

  draw-unused :
      (m : Map table max_sessions) (left : ℕ) (rng : ℕ → ℕ) (at : ℕ)
      → ((index : ℕ) × (draw table max_sessions m left rng at ≡ some index)
          × (slot_for table max_sessions m index ≡ none))
        ⊎ ((draw table max_sessions m left rng at ≡ none)
            × ((i : ℕ) → i < left → slot_for table max_sessions m (rng (i + at)) ≢ none))
  unfolding draw slot_for
  draw-unused m zero rng at = inr (refl, λ i h. absurd (omega arith))
  draw-unused m (suc left) rng at = elim (Option-cases (table.get m (rng at))) [
    | inl free ↦ inl (rng at, ground arith, free)
    | inr (s, used) ↦ elim (draw-unused m left rng (suc at)) [
      | inl (index, e, free) ↦ inl (index, ground arith, free)
      | inr (e, all) ↦ inr (
        ground arith,
        λ i h. elim (ℕ_discrete i 0) [
          | yes z ↦ let here : i + at ≡ at = omega arith in rw here (λ e. cc)
          | no z ↦
              let further : i + at ≡ i - 1 + suc at = omega arith in
              rw further (all (i - 1) (omega arith))
        ],
      )
    ]
  ]

  -- The draw ends after at most `MAX_RANDOM_ATTEMPTS` values of the generator: it yields an index
  -- that is not in use, or every value drawn was in use.
  pub random_unused-unused :
      (m : Map table max_sessions) (rng : ℕ → ℕ)
      → ((index : ℕ) × (random_unused table max_sessions m rng ≡ some index)
          × (slot_for table max_sessions m index ≡ none))
        ⊎ ((random_unused table max_sessions m rng ≡ none)
            × ((i : ℕ) → i < max_random_attempts → slot_for table max_sessions m (rng i) ≢ none))
  unfolding random_unused
  random_unused-unused m rng = elim (draw-unused m max_random_attempts rng 0) [
    | inl found ↦ inl found
    | inr (e, all) ↦ inr (
      e,
      λ i h.
          let same : i + 0 ≡ i = omega arith in
          subst (λ k. slot_for table max_sessions m (rng k) ≢ none) same (all i h),
    )
  ]
