-- ===== src/Session/Limits.antt =====
-- When a session of microtun-core/src/session.rs may carry traffic.
use microtun.Prelude.{ℕ, ◌+◌, ◌≤◌, ◌<◌, ◌≡◌, true, ◌↔◌, arith, u64_max}
use microtun.Time.{Instant}
use microtun.Constants.{reject_after_time}
use microtun.Session.{
  Session, TransportKeys, Role, initiator, responder, new, rekey_deadline, expired, can_send,
}

-- Once expired a session stays expired, as time passes and as it sends.
pub expired_mono :
    (s : Session) (now later n : ℕ)
    → now ≤ later
    → s.n_send ≤ n
    → expired s now ≡ true
    → expired (record s { n_send = n }) later ≡ true
unfolding expired
expired_mono s now later n h k e = ground arith

-- The rekey starts before the session is refused, whatever `rekey_after` was set to.
pub rekey_deadline-before-expiry :
    (s : Session)
    → s.created + reject_after_time ≤ u64_max
    → rekey_deadline s < s.created + reject_after_time
unfolding rekey_deadline
rekey_deadline-before-expiry s h = ground arith

-- A fresh session sends at once on the initiator's side, and never on the responder's before it
-- is confirmed.
pub new-can_send :
    (words : ℕ) (keys : TransportKeys) (role : Role) (l r : ℕ) (now : Instant)
    → (can_send (new words keys role l r now) now ≡ true) ↔ (role ≡ initiator)
unfolding can_send expired new
new-can_send words keys initiator l r now = ground arith
new-can_send words keys responder l r now = ground arith
