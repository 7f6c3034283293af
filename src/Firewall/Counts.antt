-- ===== src/Firewall/Counts.antt =====
-- The counts of microtun-core/src/firewall.rs, one for each place of the peer table, against the
-- entries that each peer owns.
use microtun.Prelude.All.{Every}
use microtun.Firewall.Search.{Every-retain}
use microtun.Prelude.{
  min, ℕ, zero, ◌+◌, ◌-◌, ◌≤◌, ◌<◌, ◌≡◌, refl, ◌∙◌, false, some, List, [], ◌∷◌, ◌++◌, arith, ◌==◌,
  length, get_elem?, set, get_or, replicate, Bool-cases, inl, inr, if◌then◌else◌, u16_max,
  length-set, get_or-set_self, get_or-set_ne, get_or-replicate, length-replicate,
}
use microtun.Time.{Instant}
use microtun.Firewall.Entries.{PeerIdx, Entry, Firewall, retain, is_live}
use microtun.Firewall.Table.{
  peer_position, increment, decrement, recount, rebuild_peer_counts, collect_expired,
}
use microtun.Firewall.Owned.{owned, owned_le, owned-append, owned-set, length-retain, retain_same}

module _ (max_peers : ℕ) where
  -- One count for each peer, and it is the number of the peer's entries.
  pub record IsExact (counts : List ℕ) (es : List Entry) : Type 0 where
    pub counted : length counts ≡ max_peers
    pub exact : (p : PeerIdx) → p < max_peers → get_or counts p 0 ≡ owned p es

  abbrev bump : PeerIdx → PeerIdx → ℕ
  bump q p = if q == p then 1 else 0

  length-increment :
      (counts : List ℕ) (q : PeerIdx) → length (increment max_peers counts q) ≡ length counts
  unfolding increment peer_position
  length-increment counts q =
      ground (arith, length-set counts q (min (get_or counts q 0 + 1) u16_max))

  get_or-increment :
      (counts : List ℕ) (q p : PeerIdx)
      → length counts ≡ max_peers
      → q < max_peers
      → get_or counts q 0 < u16_max
      → get_or (increment max_peers counts q) p 0 ≡ get_or counts p 0 + bump q p
  unfolding increment peer_position
  get_or-increment counts q p n l h = ground (
    arith,
    get_or-set_self counts q (min (get_or counts q 0 + 1) u16_max) 0,
    get_or-set_ne counts q p (min (get_or counts q 0 + 1) u16_max) 0,
  )

  length-decrement :
      (counts : List ℕ) (q : PeerIdx) → length (decrement max_peers counts q) ≡ length counts
  unfolding decrement peer_position
  length-decrement counts q = ground (arith, length-set counts q (get_or counts q 0 - 1))

  get_or-decrement :
      (counts : List ℕ) (q p : PeerIdx)
      → length counts ≡ max_peers
      → q < max_peers
      → get_or (decrement max_peers counts q) p 0 ≡ get_or counts p 0 - bump q p
  unfolding decrement peer_position
  get_or-decrement counts q p n l = ground (
    arith,
    get_or-set_self counts q (get_or counts q 0 - 1) 0,
    get_or-set_ne counts q p (get_or counts q 0 - 1) 0,
  )

  abbrev pub IsPlaced : List Entry → Type 0
  IsPlaced = Every (λ e. e.peer < max_peers)

  length-recount :
      (es : List Entry) (counts : List ℕ) → length (recount max_peers es counts) ≡ length counts
  unfolding recount
  length-recount [] counts = refl
  length-recount (e ∷ es) counts =
      length-recount es (increment max_peers counts e.peer) ∙ length-increment counts e.peer

  get_or-recount :
      (es : List Entry) (counts : List ℕ) (p : PeerIdx)
      → length counts ≡ max_peers
      → IsPlaced es
      → ((q : PeerIdx) → get_or counts q 0 + owned q es ≤ u16_max)
      → get_or (recount max_peers es counts) p 0 ≡ get_or counts p 0 + owned p es
  unfolding recount owned
  get_or-recount [] counts p n pl small = omega arith
  get_or-recount (e ∷ es) counts p n pl small =
      let counts' = increment max_peers counts e.peer in
      let room : get_or counts e.peer 0 < u16_max = ground (arith, small e.peer) in
      let step : (q : PeerIdx) → get_or counts' q 0 ≡ get_or counts q 0 + bump e.peer q =
        λ q. get_or-increment counts e.peer q n pl.0 room in
      let rest =
        get_or-recount es counts' p (length-increment counts e.peer ∙ n) pl.1
          (λ q. omega (arith, small q, step q)) in
      omega (arith, rest, step p)

  -- Rebuilding the counts of a table of at most `u16::MAX` entries makes them exact.
  recount-IsExact :
      (es : List Entry) (n : ℕ)
      → n ≡ max_peers
      → IsPlaced es
      → length es ≤ u16_max
      → IsExact (recount max_peers es (replicate n 0)) es
  recount-IsExact es n h pl small = record {
    counted = length-recount es (replicate n 0) ∙ length-replicate n 0 ∙ h;
    exact = λ p l.
        let start : (q : PeerIdx) → get_or (replicate n 0) q 0 ≡ zero =
          λ q. get_or-replicate n q 0 in
        let counted =
          get_or-recount es (replicate n 0) p (length-replicate n 0 ∙ h) pl
            (λ q. omega (arith, start q, owned_le q es)) in
        omega (arith, counted, start p);
  }

  pub increment-IsExact :
      (counts : List ℕ) (es : List Entry) (e : Entry)
      → IsExact counts es
      → e.peer < max_peers
      → length es < u16_max
      → IsExact (increment max_peers counts e.peer) (es ++ e ∷ [])
  increment-IsExact counts es e x l small = record {
    counted = length-increment counts e.peer ∙ x.counted;
    exact = λ p h.
        let room : get_or counts e.peer 0 < u16_max =
          omega (arith, x.exact e.peer l, owned_le e.peer es) in
        omega (
          arith,
          get_or-increment counts e.peer p x.counted l room,
          x.exact p h,
          owned-append p es e,
        );
  }

  swapped-IsExact :
      (counts : List ℕ) (es : List Entry) (at : ℕ) (e old : Entry)
      → IsExact counts es
      → get_elem? es at ≡ some old
      → old.peer < max_peers
      → e.peer < max_peers
      → (old.peer == e.peer) ≡ false
      → owned e.peer es < u16_max
      → IsExact (increment max_peers (decrement max_peers counts old.peer) e.peer) (set es at e)
  swapped-IsExact counts es at e old x h lo le ne room =
      let counts' = decrement max_peers counts old.peer in
      let n : length counts' ≡ max_peers = length-decrement counts old.peer ∙ x.counted in
      let less : (p : PeerIdx) → get_or counts' p 0 ≡ get_or counts p 0 - bump old.peer p =
        λ p. get_or-decrement counts old.peer p x.counted lo in
      let room' : get_or counts' e.peer 0 < u16_max =
        ground (arith, less e.peer, x.exact e.peer le) in
      record {
        counted = length-increment counts' e.peer ∙ n;
        exact = λ p l. ground (
          arith,
          get_or-increment counts' e.peer p n le room',
          less p,
          x.exact p l,
          owned-set p es at e old h,
        );
      }

  -- A replacement of an entry, of the same peer or of another.
  pub swap-IsExact :
      (counts : List ℕ) (es : List Entry) (at : ℕ) (e old : Entry)
      → IsExact counts es
      → get_elem? es at ≡ some old
      → old.peer < max_peers
      → e.peer < max_peers
      → length es ≤ u16_max
      → IsExact
          (if old.peer == e.peer
            then counts
            else increment max_peers (decrement max_peers counts old.peer) e.peer)
          (set es at e)
  swap-IsExact counts es at e old x h lo le small = elim (Bool-cases (old.peer == e.peer)) [
    | inl b ↦
        let same : old.peer ≡ e.peer = ground arith in
        let kept : IsExact counts (set es at e) = record {
          counted = x.counted;
          exact = λ p l. ground (arith, owned-set p es at e old h, x.exact p l);
        } in
        ground (arith, kept)
    | inr b ↦
        let room : owned e.peer es < u16_max = ground (
          arith,
          owned-set e.peer es at e old h,
          owned_le e.peer (set es at e),
          length-set es at e,
        ) in
        let swapped = swapped-IsExact counts es at e old x h lo le b room in ground (arith, swapped)
  ]

  pub collect_expired-IsExact :
      (now : Instant) (self : Firewall)
      → IsExact self.peer_counts self.entries
      → IsPlaced self.entries
      → length self.entries ≤ u16_max
      → let self' = collect_expired max_peers now self in IsExact self'.peer_counts self'.entries
  unfolding collect_expired rebuild_peer_counts
  collect_expired-IsExact now self x pl small =
      let keep = is_live now in
      let kept = retain keep self.entries in
      elim (Bool-cases (length kept == length self.entries)) [
        | inl b ↦
            let same = retain_same keep self.entries (ground arith) in
            let x' : IsExact self.peer_counts kept = rw same x in ground (arith, x')
        | inr b ↦
            let rebuilt =
              recount-IsExact kept (length self.peer_counts) x.counted
                (Every-retain _ keep self.entries pl)
                (omega (arith, length-retain keep self.entries)) in
            ground (arith, rebuilt)
      ]
