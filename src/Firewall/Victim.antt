-- ===== src/Firewall/Victim.antt =====
-- The choice of a victim in microtun-core/src/firewall.rs: the well-formed tables, and what
-- `fair_victim` finds in them.
use microtun.Prelude.{
  ℕ, suc, ◌≤◌, ◌<◌, ◌≡◌, none, some, List, [], ◌∷◌, arith, leb, ◌⊎◌, length, get_elem?, Bool-cases,
  Option-cases, inl, inr, if◌then◌else◌, get_or_out, u16_max, u32_max,
}
use microtun.Firewall.Entries.{PeerIdx, Entry, Firewall, victim, victim_owned_by, largest_owner}
use microtun.Firewall.Table.{peer_position, peer_count, fair_victim}
use microtun.Firewall.Owned.{
  owned, victim_sound, victim-none, largest_owner_sound, largest_owner-none,
}
use microtun.Firewall.Counts.{IsExact, IsPlaced}

module _ (max_peers : ℕ) where
  -- The table is within its limits and its counts are exact.
  pub record IsConsistent (self : Firewall) : Type 0 where
    pub word : self.max_entries ≤ u16_max
    pub size : length self.entries ≤ self.max_entries
    pub quota : (p : PeerIdx) → owned p self.entries ≤ self.max_entries_per_peer
    pub placed : IsPlaced max_peers self.entries
    pub counts : IsExact max_peers self.peer_counts self.entries

  pub peer_count-owned :
      (self : Firewall) (p : PeerIdx)
      → IsExact max_peers self.peer_counts self.entries
      → p < max_peers
      → peer_count max_peers self p ≡ owned p self.entries
  unfolding peer_count peer_position
  peer_count-owned self p x l = ground (arith, x.exact p l)

  owned_by_sound :
      (self : Firewall) (p : PeerIdx) (at : ℕ)
      → victim_owned_by self p ≡ some at
      → (e : Entry) × (get_elem? self.entries at ≡ some e) × (e.peer ≡ p)
  unfolding victim_owned_by
  owned_by_sound self p at h = elim (Option-cases (victim p self.entries)) [
    | inl n ↦ absurd (ground arith)
    | inr (r, v) ↦
        let (here, owner) = victim_sound p self.entries r v in
        let same : r.0 ≡ at = ground arith in (r.1, rw (← same) here, owner)
  ]

  owned_by-none :
      (self : Firewall) (p : PeerIdx) → victim_owned_by self p ≡ none → owned p self.entries ≡ 0
  unfolding victim_owned_by
  owned_by-none self p h = ground (arith, victim-none p self.entries)

  -- The victim is the requester's own, or that of a peer with more entries, while the requester is
  -- below its quota.
  abbrev pub IsFair : Firewall → PeerIdx → Entry → Type 0
  IsFair self p old =
      (old.peer ≡ p)
      ⊎ ((owned p self.entries < self.max_entries_per_peer)
          × (owned p self.entries < owned old.peer self.entries))

  -- The loop finds a place of the table whose peer has more entries.
  largest_owner-owned :
      (self : Firewall) (n o : PeerIdx)
      → IsExact max_peers self.peer_counts self.entries
      → largest_owner 0 n none self.peer_counts ≡ some o
      → n < owned o self.entries
  largest_owner-owned self n o x h = elim (largest_owner_sound 0 n none self.peer_counts o h) [
    | inl e ↦ absurd (cc)
    | inr (i, e, l) ↦
        let inside : o < max_peers = ground (arith, get_or_out self.peer_counts i 0, x.counted) in
        ground (arith, x.exact o inside)
  ]

  pub fair_victim-IsFair :
      (self : Firewall) (p : PeerIdx) (at : ℕ)
      → IsExact max_peers self.peer_counts self.entries
      → p < max_peers
      → fair_victim max_peers self p ≡ some at
      → (old : Entry) × (get_elem? self.entries at ≡ some old) × IsFair self p old
  unfolding fair_victim
  fair_victim-IsFair self p at x l h =
      let n = peer_count max_peers self p in
      let own : victim_owned_by self p ≡ some at
          → (old : Entry) × (get_elem? self.entries at ≡ some old) × IsFair self p old =
        λ v. let (e, here, owner) = owned_by_sound self p at v in (e, here, inl owner) in
      let count = peer_count-owned self p x l in
      elim (Bool-cases (leb self.max_entries_per_peer n)) [
        | inl b ↦ own (ground arith)
        | inr b ↦ elim (Option-cases (largest_owner 0 n none self.peer_counts)) [
          | inl e ↦ own (ground arith)
          | inr (o, e) ↦ elim (Option-cases (victim_owned_by self o)) [
            | inl v ↦ own (ground arith)
            | inr (i, v) ↦
                let same : i ≡ at = ground arith in
                let (old, here, owner) = owned_by_sound self o i v in
                let more = largest_owner-owned self n o x e in
                (old, rw (← same) here, inr (ground arith, rw (owner, ← count) more))
          ]
        ]
      ]

  -- Every entry has an owner in the table.
  some_owner :
      (es : List Entry)
      → IsPlaced max_peers es
      → 0 < length es
      → (q : PeerIdx) × (q < max_peers) × (0 < owned q es)
  unfolding owned
  some_owner [] pl h = absurd (omega arith)
  some_owner (e ∷ es) pl h = (e.peer, pl.0, ground arith)

  -- With a quota of at least one, a table that is not empty always has a victim.
  pub fair_victim-some :
      (self : Firewall) (p : PeerIdx)
      → IsConsistent self
      → p < max_peers
      → max_peers ≤ suc u32_max
      → 0 < self.max_entries_per_peer
      → 0 < length self.entries
      → (at : ℕ) × (fair_victim max_peers self p ≡ some at)
  unfolding fair_victim
  fair_victim-some self p c l fits q full =
      let n = peer_count max_peers self p in
      let x = c.counts in
      let count = peer_count-owned self p x l in
      elim (Option-cases (victim_owned_by self p)) [
        | inr (at, v) ↦ elim (Option-cases (largest_owner 0 n none self.peer_counts)) [
          | inl e ↦ (at, ground arith)
          | inr (o, e) ↦ elim (Option-cases (victim_owned_by self o)) [
            | inl w ↦ (at, ground arith)
            | inr (i, w) ↦ (if leb self.max_entries_per_peer n then at else i, ground arith)
          ]
        ]
        | inl v ↦
            let zero = owned_by-none self p v in
            elim (Option-cases (largest_owner 0 n none self.peer_counts)) [
              | inl e ↦
                  let (r, inside, more) = some_owner self.entries c.placed full in
                  let least =
                    largest_owner-none 0 n self.peer_counts r (omega (arith, x.counted)) e in
                  absurd (omega (arith, least, more, x.exact r inside))
              | inr (o, e) ↦ elim (Option-cases (victim_owned_by self o)) [
                | inl w ↦
                    absurd (omega (arith, largest_owner-owned self n o x e, owned_by-none self o w))
                | inr (i, w) ↦ (i, ground arith)
              ]
            ]
      ]
