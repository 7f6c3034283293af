-- ===== src/Firewall.antt =====
-- microtun-core/src/firewall.rs: the stateful ingress filter for authenticated peers, from the
-- packet parser to the table of flows (the heap backend, whose table is a `Vec`).
pub mod Packet
pub mod Icmp
pub mod Entries
pub mod Inbound
pub mod Table
pub mod Search
pub mod Tracked
pub mod Owned
pub mod Counts
pub mod Victim
pub mod Bounds
pub mod Fairness
pub mod Limits
pub mod Effect
pub mod Lifetime
pub mod Replies
mod Tests
pub mod History
pub mod Established
