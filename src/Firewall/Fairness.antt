-- ===== src/Firewall/Fairness.antt =====
-- Which entries an outbound packet can cost another peer, in microtun-core/src/firewall.rs.
use microtun.Prelude.{
  ℕ, ◌≤◌, ◌<◌, ◌≡◌, ◌≢◌, refl, ◌∙◌, Bool, false, ◌&&◌, some, List, arith, ◌==◌, ◌⊎◌, Option-cases,
  inl, inr,
}
use microtun.Time.{Instant}
use microtun.Firewall.Packet.{Parsed}
use microtun.Firewall.Icmp.{parse_flow}
use microtun.Firewall.Entries.{PeerIdx, Entry, Firewall, position, retain, is_live}
use microtun.Firewall.Inbound.{refreshed, refresh, fresh, owns}
use microtun.Firewall.Table.{
  peer_position, collect_expired, fair_victim, replace, push, recycle, store, open_flow, track,
  observe_parsed, observe_outbound,
}
use microtun.Firewall.Search.{position_sound, retain-set, retain-append, retain-retain}
use microtun.Firewall.Owned.{owned}
use microtun.Firewall.Victim.{IsConsistent, fair_victim-IsFair}
use microtun.Firewall.Bounds.{collect_expired_lem, collect_expired-IsConsistent}
use microtun.Firewall.Established.{owns_sound}

-- The live flows of a peer, in the order of the table.
unfoldable pub is_flow_of : PeerIdx → Instant → Entry → Bool
is_flow_of q now e = (e.peer == q) && is_live now e

abbrev pub flows : PeerIdx → Instant → Firewall → List Entry
flows q now self = retain (is_flow_of q now) self.entries

-- How many live entries the peer owns.
abbrev pub live_count : PeerIdx → Instant → Firewall → ℕ
live_count p now self = owned p (retain (is_live now) self.entries)

module _ (max_peers : ℕ) (q : PeerIdx) (now : Instant) where
  not_flow : (e : Entry) → q ≢ e.peer → is_flow_of q now e ≡ false
  unfolding is_flow_of
  not_flow e ne = ground arith

  -- The peer `p` may not evict from `q`.
  abbrev pub IsProtected : PeerIdx → Firewall → Type 0
  IsProtected p self =
      (owned q self.entries ≤ owned p self.entries)
      ⊎ (self.max_entries_per_peer ≤ owned p self.entries)

  flows-recycle :
      (self : Firewall) (e : Entry)
      → IsConsistent max_peers self
      → e.peer < max_peers
      → q ≢ e.peer
      → IsProtected e.peer self
      → flows q now (recycle max_peers self e) ≡ flows q now self
  unfolding recycle replace
  flows-recycle self e c l ne safe = elim (Option-cases (fair_victim max_peers self e.peer)) [
    | inl n ↦ ground arith
    | inr (at, v) ↦
        let (old, here, fair) = fair_victim-IsFair max_peers self e.peer at c.counts l v in
        let other : q ≢ old.peer = λ s. ground (arith, fair, safe) in
        ground (
          arith,
          retain-set (is_flow_of q now) self.entries at e old here (not_flow old other)
              (not_flow e ne),
        )
  ]

  flows-store :
      (self : Firewall) (e : Entry)
      → IsConsistent max_peers self
      → e.peer < max_peers
      → q ≢ e.peer
      → IsProtected e.peer self
      → flows q now (store max_peers self e) ≡ flows q now self
  unfolding store push
  flows-store self e c l ne safe = ground (
    arith,
    flows-recycle self e c l ne safe,
    retain-append (is_flow_of q now) self.entries e (not_flow e ne),
  )

  flows-collect_expired :
      (self : Firewall) → flows q now (collect_expired max_peers now self) ≡ flows q now self
  flows-collect_expired self =
      let (es, m, quota) = collect_expired_lem max_peers now self in
      rw es (
        retain-retain (is_flow_of q now) (is_live now) self.entries
          (λ e h. unfold is_flow_of in ground arith))

  flows-open_flow :
      (self : Firewall) (p : PeerIdx) (parsed : Parsed)
      → IsConsistent max_peers self
      → p < max_peers
      → q ≢ p
      → (live_count q now self ≤ live_count p now self)
        ⊎ (self.max_entries_per_peer ≤ live_count p now self)
      → flows q now (open_flow max_peers self p parsed now) ≡ flows q now self
  unfolding open_flow
  flows-open_flow self p parsed c l ne safe =
      let swept = collect_expired max_peers now self in
      let e = fresh self p parsed now in
      let (es, m, quota) = collect_expired_lem max_peers now self in
      let owner : e.peer ≡ p = unfold fresh in refl in
      let stored =
        flows-store swept e (collect_expired-IsConsistent max_peers now self c)
          (omega (arith, owner)) (λ s. ne (s ∙ owner)) (rw (es, owner, quota) safe) in
      ground (arith, stored, flows-collect_expired self)

  flows-refresh :
      (self : Firewall) (p : PeerIdx) (parsed : Parsed) (at : ℕ)
      → q ≢ p
      → position (owns p now parsed.key) self.entries ≡ some at
      → flows q now (refresh self parsed now at) ≡ flows q now self
  unfolding refresh
  flows-refresh self p parsed at ne h =
      let (e, here, m) = position_sound (owns p now parsed.key) self.entries at h in
      let owner : e.peer ≡ p = (owns_sound p now parsed.key e m).0 in
      let other : q ≢ e.peer = λ s. ne (s ∙ owner) in
      let other' : q ≢ (refreshed self parsed now e).peer = unfold refreshed in other in
      ground (
        arith,
        retain-set (is_flow_of q now) self.entries at (refreshed self parsed now e) e here
            (not_flow e other) (not_flow (refreshed self parsed now e) other'),
      )

  -- An outbound packet to `p` costs another peer none of its live flows, if that peer has at most
  -- as many of them as `p`, or if `p` is at its quota.
  pub flows-observe_outbound :
      (self : Firewall) (p : PeerIdx) (packet : List ℕ)
      → IsConsistent max_peers self
      → q ≢ p
      → (live_count q now self ≤ live_count p now self)
        ⊎ (self.max_entries_per_peer ≤ live_count p now self)
      → flows q now (observe_outbound max_peers self p packet now) ≡ flows q now self
  unfolding observe_outbound observe_parsed track peer_position
  flows-observe_outbound self p packet c ne safe = elim (Option-cases (parse_flow packet)) [
    | inl n ↦ ground arith
    | inr (parsed, h) ↦ elim (Option-cases (position (owns p now parsed.key) self.entries)) [
      | inl n ↦ ground (arith, λ (l : p < max_peers). flows-open_flow self p parsed c l ne safe)
      | inr (at, e) ↦ ground (arith, flows-refresh self p parsed at ne e)
    ]
  ]
