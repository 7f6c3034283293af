-- ===== src/Firewall/Entries.antt =====
-- The entries of the table of microtun-core/src/firewall.rs, the record `Firewall` and the searches
-- over its entries and counts.
use mathlib.Core.Bool.{decide}
use microtun.Prelude.{
  ℕ, suc, Bool, true, false, ◌||◌, Option, none, some, List, [], ◌∷◌, ltb, leb, ◌==◌, if◌then◌else◌,
  u32_max,
}
use microtun.Time.{Instant, Duration}
use microtun.Firewall.Packet.{ipproto_icmp, ipproto_udp, ipproto_icmpv6, FlowKey, FlowKey-discrete}

abbrev pub PeerIdx : Type 0
PeerIdx = ℕ

pub record Entry : Type 0 where
  pub peer : PeerIdx
  pub flow : FlowKey
  pub expires : Instant
  pub last_seen : Instant
  pub closing : Bool

pub record Firewall : Type 0 where
  pub udp_timeout : Duration
  pub icmp_timeout : Duration
  pub tcp_timeout : Duration
  pub tcp_closing_timeout : Duration
  pub max_entries : ℕ
  pub max_entries_per_peer : ℕ
  pub entries : List Entry
  pub peer_counts : List ℕ

-- The four timeouts are those of the firewall.
unfoldable pub effective_timeout : Firewall → Entry → Duration
effective_timeout self entry =
    if entry.flow.protocol == ipproto_udp
    then self.udp_timeout
    else if (entry.flow.protocol == ipproto_icmp) || (entry.flow.protocol == ipproto_icmpv6)
    then self.icmp_timeout
    else if entry.closing
    then self.tcp_closing_timeout
    else self.tcp_timeout

-- `iter().position(...)`
unfoldable pub position : (Entry → Bool) → List Entry → Option ℕ
position matches [] = none
position matches (e ∷ es) =
    if matches e then some 0 else elim (position matches es) [ none ↦ none | some i ↦ some (suc i) ]

-- `retain(...)`
unfoldable pub retain : (Entry → Bool) → List Entry → List Entry
retain keep [] = []
retain keep (e ∷ es) = if keep e then e ∷ retain keep es else retain keep es

unfoldable pub is_live : Instant → Entry → Bool
is_live now entry = ltb now entry.expires

unfoldable pub same_flow : FlowKey → FlowKey → Bool
same_flow a b = decide (FlowKey-discrete a b)

-- The order of `min_by_key(|entry| (if entry.closing { 0 } else { 1 }, entry.last_seen))`.
unfoldable pub victim_le : Entry → Entry → Bool
victim_le a b =
    if a.closing
    then (if b.closing then leb a.last_seen b.last_seen else true)
    else if b.closing
    then false
    else leb a.last_seen b.last_seen

-- The first of two candidates, where the second stands further on.
unfoldable pub better : Entry → Option (ℕ × Entry) → ℕ × Entry
better e none = (0, e)
better e (some (i, v)) = if victim_le e v then (0, e) else (suc i, v)

unfoldable pub later : Option (ℕ × Entry) → Option (ℕ × Entry)
later none = none
later (some (i, v)) = some (suc i, v)

unfoldable pub victim : PeerIdx → List Entry → Option (ℕ × Entry)
victim peer [] = none
victim peer (e ∷ es) =
    let rest = victim peer es in if e.peer == peer then some (better e rest) else later rest

unfoldable pub victim_owned_by : Firewall → PeerIdx → Option ℕ
victim_owned_by self peer = elim (victim peer self.entries) [ none ↦ none | some (i, v) ↦ some i ]

-- The loop of `fair_victim` over the counts: the first owner of the largest count above
-- `largest`, where `PeerIdx` is a `u32`.
unfoldable pub largest_owner : ℕ → ℕ → Option PeerIdx → List ℕ → Option PeerIdx
largest_owner at largest owner [] = owner
largest_owner at largest owner (count ∷ counts) =
    if ltb largest count
    then largest_owner (suc at) count (if leb at u32_max then some at else none) counts
    else largest_owner (suc at) largest owner counts
