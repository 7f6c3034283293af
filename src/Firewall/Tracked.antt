-- ===== src/Firewall/Tracked.antt =====
-- What the operations of microtun-core/src/firewall.rs keep of a predicate on the owner and the
-- flow of each entry.
use microtun.Prelude.All.{Every, Every-get_elem?, Every-set, Every-append}
use microtun.Prelude.{
  ℕ, ◌≡◌, refl, true, not, some, List, arith, ◌==◌, get_elem?, Bool-cases, Option-cases, inl, inr,
}
use microtun.Time.{Instant}
use microtun.Firewall.Packet.{FlowKey, Parsed, opens_new_flow}
use microtun.Firewall.Icmp.{parse_flow}
use microtun.Firewall.Entries.{PeerIdx, Entry, Firewall, position, is_live}
use microtun.Firewall.Inbound.{
  refreshed, refresh, fresh, owns, answers, admit_reply, allow_parsed, allows_inbound,
}
use microtun.Firewall.Table.{
  collect_expired, replace, push, recycle, store, open_flow, track, observe_parsed,
  observe_outbound, fair_victim, remove_peer, rebuild_peer_counts,
}
use microtun.Firewall.Search.{Every-retain}

-- What the packet does to the table: it opens the flow `key` for `peer`.
abbrev pub Opens : List ℕ → FlowKey → Type 0
Opens packet key =
    (parsed : Parsed) × (parse_flow packet ≡ some parsed)
    × (opens_new_flow parsed ≡ true)
    × (parsed.key ≡ key)

module _ (P : PeerIdx → FlowKey → Type 0) where
  abbrev pub Holds : Entry → Type 0
  Holds e = P e.peer e.flow

  abbrev pub Tracked : Firewall → Type 0
  Tracked self = Every Holds self.entries

  refresh-Tracked :
      (self : Firewall) (parsed : Parsed) (now : Instant) (at : ℕ)
      → Tracked self
      → Tracked (refresh self parsed now at)
  unfolding refresh refreshed
  refresh-Tracked self parsed now at t = elim (Option-cases (get_elem? self.entries at)) [
    | inl n ↦ ground (arith, t)
    | inr (e, h) ↦
        let kept =
          Every-set Holds self.entries at (refreshed self parsed now e) t
            (Every-get_elem? Holds self.entries at t h) in
        ground (arith, kept)
  ]

  admit_reply-Tracked :
      (self : Firewall) (peer : PeerIdx) (parsed : Parsed) (now : Instant)
      → Tracked self
      → Tracked (admit_reply self peer parsed now).0
  unfolding admit_reply
  admit_reply-Tracked self peer parsed now t =
      elim (Option-cases (position (answers peer now parsed.key) self.entries)) [
        | inl n ↦ ground (arith, t)
        | inr (at, h) ↦ ground (arith, refresh-Tracked self parsed now at t)
      ]

  pub allows_inbound-Tracked :
      (self : Firewall) (peer : PeerIdx) (packet : List ℕ) (now : Instant)
      → Tracked self
      → Tracked (allows_inbound self peer packet now).0
  unfolding allows_inbound allow_parsed
  allows_inbound-Tracked self peer packet now t = elim (Option-cases (parse_flow packet)) [
    | inl n ↦ ground (arith, t)
    | inr (parsed, h) ↦
        let reply = admit_reply-Tracked self peer parsed now t in ground (arith, t, reply)
  ]

  module _ (max_peers : ℕ) where
    collect_expired-Tracked :
        (now : Instant) (self : Firewall)
        → Tracked self
        → Tracked (collect_expired max_peers now self)
    unfolding collect_expired rebuild_peer_counts
    collect_expired-Tracked now self t =
        let kept = Every-retain Holds (is_live now) self.entries t in ground (arith, kept)

    recycle-Tracked :
        (self : Firewall) (entry : Entry)
        → Tracked self
        → Holds entry
        → Tracked (recycle max_peers self entry)
    unfolding recycle replace
    recycle-Tracked self entry t h = elim (Option-cases (fair_victim max_peers self entry.peer)) [
      | inl n ↦ ground (arith, t)
      | inr (at, v) ↦ ground (arith, t, Every-set Holds self.entries at entry t h)
    ]

    store-Tracked :
        (self : Firewall) (entry : Entry)
        → Tracked self
        → Holds entry
        → Tracked (store max_peers self entry)
    unfolding store push
    store-Tracked self entry t h =
        let recycled = recycle-Tracked self entry t h in
        let pushed = Every-append Holds self.entries entry t h in ground (arith, recycled, pushed)

    open_flow-Tracked :
        (self : Firewall) (peer : PeerIdx) (parsed : Parsed) (now : Instant)
        → Tracked self
        → (opens_new_flow parsed ≡ true → P peer parsed.key)
        → Tracked (open_flow max_peers self peer parsed now)
    unfolding open_flow fresh
    open_flow-Tracked self peer parsed now t f = elim (Bool-cases (opens_new_flow parsed)) [
      | inl o ↦
          let swept = collect_expired-Tracked now self t in
          let stored =
            store-Tracked (collect_expired max_peers now self) (fresh self peer parsed now) swept
              (f o) in
          ground (arith, stored)
      | inr n ↦ ground (arith, t)
    ]

    track-Tracked :
        (self : Firewall) (peer : PeerIdx) (parsed : Parsed) (now : Instant)
        → Tracked self
        → (opens_new_flow parsed ≡ true → P peer parsed.key)
        → Tracked (track max_peers self peer parsed now)
    unfolding track
    track-Tracked self peer parsed now t f =
        elim (Option-cases (position (owns peer now parsed.key) self.entries)) [
          | inl n ↦ ground (arith, open_flow-Tracked self peer parsed now t f)
          | inr (at, h) ↦ ground (arith, refresh-Tracked self parsed now at t)
        ]

    pub observe_outbound-Tracked :
        (self : Firewall) (peer : PeerIdx) (packet : List ℕ) (now : Instant)
        → Tracked self
        → ((key : FlowKey) → Opens packet key → P peer key)
        → Tracked (observe_outbound max_peers self peer packet now)
    unfolding observe_outbound observe_parsed
    observe_outbound-Tracked self peer packet now t f = elim (Option-cases (parse_flow packet)) [
      | inl n ↦ ground (arith, t)
      | inr (parsed, h) ↦
          let tracked =
            track-Tracked self peer parsed now t (λ o. f parsed.key (parsed, h, o, refl)) in
          ground (arith, t, tracked)
    ]

    pub remove_peer-Tracked :
        (self : Firewall) (peer : PeerIdx)
        → Tracked self
        → Tracked (remove_peer max_peers self peer)
    unfolding remove_peer
    remove_peer-Tracked self peer t = Every-retain Holds (λ e. not (e.peer == peer)) self.entries t
