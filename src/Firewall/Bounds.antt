-- ===== src/Firewall/Bounds.antt =====
-- The limits and the counts of the table of microtun-core/src/firewall.rs after each operation.
use microtun.Prelude.All.{Every-get_elem?, Every-set, Every-append}
use microtun.Prelude.{
  ℕ, ◌≤◌, ◌<◌, ◌≡◌, refl, some, List, [], ◌∷◌, ◌++◌, arith, ◌==◌, length, get_elem?, set,
  Option-cases, inl, inr, if◌then◌else◌, length-set, length-append,
}
use microtun.Time.{Instant}
use microtun.Firewall.Packet.{Parsed}
use microtun.Firewall.Icmp.{parse_flow}
use microtun.Firewall.Entries.{PeerIdx, Entry, Firewall, position, retain, is_live}
use microtun.Firewall.Inbound.{refreshed, refresh, fresh, owns}
use microtun.Firewall.Table.{
  peer_position, peer_count, increment, decrement, collect_expired, fair_victim, replace, push,
  recycle, store, open_flow, track, observe_parsed, observe_outbound, rebuild_peer_counts,
}
use microtun.Firewall.Search.{Every-retain}
use microtun.Firewall.Owned.{owned, owned-append, owned-set, owned-retain, length-retain}
use microtun.Firewall.Counts.{increment-IsExact, swap-IsExact, collect_expired-IsExact}
use microtun.Firewall.Victim.{IsConsistent, IsFair, peer_count-owned, fair_victim-IsFair}

module _ (max_peers : ℕ) where
  abbrev Consistent : Firewall → Type 0
  Consistent = IsConsistent max_peers

  pub refresh-IsConsistent :
      (self : Firewall) (parsed : Parsed) (now : Instant) (at : ℕ)
      → Consistent self
      → Consistent (refresh self parsed now at)
  unfolding refresh
  refresh-IsConsistent self parsed now at c = elim (Option-cases (get_elem? self.entries at)) [
    | inl n ↦ ground (arith, c)
    | inr (e, h) ↦
        let e' = refreshed self parsed now e in
        let peer : e'.peer ≡ e.peer = unfold refreshed in refl in
        let place : e'.peer < max_peers =
          omega (arith, peer, Every-get_elem? _ self.entries at c.placed h) in
        let same : (p : PeerIdx) → owned p (set self.entries at e') ≡ owned p self.entries =
          λ p. ground (arith, owned-set p self.entries at e' e h, peer) in
        let kept : Consistent (record self { entries = set self.entries at e' }) = record {
          word = c.word;
          size = omega (arith, c.size, length-set self.entries at e');
          quota = λ p. omega (arith, c.quota p, same p);
          placed = Every-set _ self.entries at e' c.placed place;
          counts = record {
            counted = c.counts.counted;
            exact = λ p l. omega (arith, c.counts.exact p l, same p);
          };
        } in
        ground (arith, kept)
  ]

  replace-IsConsistent :
      (self : Firewall) (at : ℕ) (e old : Entry)
      → Consistent self
      → get_elem? self.entries at ≡ some old
      → e.peer < max_peers
      → IsFair max_peers self e.peer old
      → Consistent (replace max_peers self at e)
  unfolding replace
  replace-IsConsistent self at e old c h l fair =
      let place = Every-get_elem? _ self.entries at c.placed h in
      let changed : (p : PeerIdx) → owned p (set self.entries at e) ≤ self.max_entries_per_peer =
        λ p. ground (arith, owned-set p self.entries at e old h, c.quota p, fair) in
      let kept : Consistent (record self {
        entries = set self.entries at e;
        peer_counts =
            if old.peer == e.peer
            then self.peer_counts
            else increment max_peers (decrement max_peers self.peer_counts old.peer) e.peer;
      }) =
        record {
          word = c.word;
          size = omega (arith, c.size, length-set self.entries at e);
          quota = changed;
          placed = Every-set _ self.entries at e c.placed l;
          counts =
              swap-IsExact max_peers self.peer_counts self.entries at e old c.counts h place l
                (omega (arith, c.size, c.word));
        } in
      ground (arith, kept)

  recycle-IsConsistent :
      (self : Firewall) (e : Entry)
      → Consistent self
      → e.peer < max_peers
      → Consistent (recycle max_peers self e)
  unfolding recycle
  recycle-IsConsistent self e c l = elim (Option-cases (fair_victim max_peers self e.peer)) [
    | inl n ↦ ground (arith, c)
    | inr (at, v) ↦
        let (old, here, fair) = fair_victim-IsFair max_peers self e.peer at c.counts l v in
        let kept = replace-IsConsistent self at e old c here l fair in ground (arith, kept)
  ]

  store-IsConsistent :
      (self : Firewall) (e : Entry)
      → Consistent self
      → e.peer < max_peers
      → Consistent (store max_peers self e)
  unfolding store push
  store-IsConsistent self e c l =
      let recycled = recycle-IsConsistent self e c l in
      let pushed : length self.entries < self.max_entries
          → peer_count max_peers self e.peer < self.max_entries_per_peer
          → Consistent (record self {
            entries = self.entries ++ e ∷ [];
            peer_counts = increment max_peers self.peer_counts e.peer;
          }) =
        λ room below. record {
          word = c.word;
          size = omega (arith, room, length-append self.entries (e ∷ []));
          quota = λ p. ground (
            arith,
            below,
            owned-append p self.entries e,
            c.quota p,
            peer_count-owned max_peers self e.peer c.counts l,
          );
          placed = Every-append _ self.entries e c.placed l;
          counts =
              increment-IsExact max_peers self.peer_counts self.entries e c.counts l
                (omega (arith, room, c.word));
        } in
      ground (arith, recycled, pushed)

  -- Only the entries and the counts change.
  abbrev pub Swept : Instant → Firewall → Firewall → Type 0
  Swept now self self' =
      (self'.entries ≡ retain (is_live now) self.entries)
      × (self'.max_entries ≡ self.max_entries)
      × (self'.max_entries_per_peer ≡ self.max_entries_per_peer)

  pub collect_expired_lem :
      (now : Instant) (self : Firewall) → Swept now self (collect_expired max_peers now self)
  unfolding collect_expired rebuild_peer_counts
  collect_expired_lem now self = ground arith

  pub collect_expired-IsConsistent :
      (now : Instant) (self : Firewall)
      → Consistent self
      → Consistent (collect_expired max_peers now self)
  collect_expired-IsConsistent now self c =
      let (es, m, q) = collect_expired_lem now self in
      let keep = is_live now in
      record {
        word = omega (arith, c.word, m);
        size = rw (es, m) (omega (arith, c.size, length-retain keep self.entries));
        quota = λ p. rw (es, q) (omega (arith, c.quota p, owned-retain p keep self.entries));
        placed = rw es (Every-retain _ keep self.entries c.placed);
        counts =
            collect_expired-IsExact max_peers now self c.counts c.placed
              (omega (arith, c.size, c.word));
      }

  open_flow-IsConsistent :
      (self : Firewall) (peer : PeerIdx) (parsed : Parsed) (now : Instant)
      → Consistent self
      → peer < max_peers
      → Consistent (open_flow max_peers self peer parsed now)
  unfolding open_flow
  open_flow-IsConsistent self peer parsed now c l =
      let owner : (fresh self peer parsed now).peer < max_peers = unfold fresh in l in
      let stored =
        store-IsConsistent (collect_expired max_peers now self) (fresh self peer parsed now)
          (collect_expired-IsConsistent now self c) owner in
      ground (arith, c, stored)

  track-IsConsistent :
      (self : Firewall) (peer : PeerIdx) (parsed : Parsed) (now : Instant)
      → Consistent self
      → peer < max_peers
      → Consistent (track max_peers self peer parsed now)
  unfolding track
  track-IsConsistent self peer parsed now c l =
      elim (Option-cases (position (owns peer now parsed.key) self.entries)) [
        | inl n ↦ ground (arith, open_flow-IsConsistent self peer parsed now c l)
        | inr (at, p) ↦ ground (arith, refresh-IsConsistent self parsed now at c)
      ]

  pub observe_outbound-IsConsistent :
      (self : Firewall) (peer : PeerIdx) (packet : List ℕ) (now : Instant)
      → Consistent self
      → Consistent (observe_outbound max_peers self peer packet now)
  unfolding observe_outbound observe_parsed peer_position
  observe_outbound-IsConsistent self peer packet now c = elim (Option-cases (parse_flow packet)) [
    | inl n ↦ ground (arith, c)
    | inr (parsed, h) ↦ ground (arith, c, track-IsConsistent self peer parsed now c)
  ]
