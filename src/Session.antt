-- ===== src/Session.antt =====
-- microtun-core/src/session.rs: one established session, its age and message limits.
pub mod Limits
mod Tests
use microtun.Prelude.{
  ℕ, ◌+◌, ◌≤◌, Bool, true, false, ◌||◌, List, map, arith, ltb, leb, if◌then◌else◌, sat_add64,
}
use microtun.Time.{Instant, Duration, saturating_since, saturating_add}
use microtun.Constants.{rekey_after_time, reject_after_time, reject_after_messages}
use microtun.Replay.{ReplayWindow}
use microtun.Replay

pub data Role : Type 0 where
  initiator responder : Role

-- `TransportKeys` of noise.rs: the two directions' keys.
pub record TransportKeys : Type 0 where
  pub send : List ℕ
  pub recv : List ℕ

pub record Session : Type 0 where
  pub peer : ℕ
  pub t_send : List ℕ
  pub t_recv : List ℕ
  pub n_send : ℕ
  pub replay : ReplayWindow
  pub local_index : ℕ
  pub remote_index : ℕ
  pub role : Role
  pub created : Instant
  pub rekey_after : Duration
  pub confirmed : Bool
  pub rekey_triggered : Bool

pub is_initiator : Role → Bool
is_initiator initiator = true
is_initiator responder = false

unfoldable pub new : ℕ → TransportKeys → Role → ℕ → ℕ → Instant → Session
unfolding is_initiator
new replay_words keys role local_index remote_index now = record {
  peer = 0;
  t_send = keys.send;
  t_recv = keys.recv;
  n_send = 0;
  replay = Replay.new replay_words;
  local_index = local_index;
  remote_index = remote_index;
  role = role;
  created = now;
  rekey_after = rekey_after_time;
  confirmed = is_initiator role;
  rekey_triggered = false;
}

pub rekey_deadline : Session → Instant
rekey_deadline self =
    saturating_add self.created
      (if ltb self.rekey_after reject_after_time then self.rekey_after else rekey_after_time)

pub expired : Session → Instant → Bool
expired self now =
    leb reject_after_time (saturating_since now self.created)
    || leb reject_after_messages self.n_send

pub can_send : Session → Instant → Bool
can_send self now = if expired self now then false else self.confirmed

-- `zeroize` overwrites every byte with 0.
pub wipe : Session → Session
wipe self = record self { t_send = map (λ b. 0) self.t_send; t_recv = map (λ b. 0) self.t_recv }
