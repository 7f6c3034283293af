-- ===== src/Peer.antt =====
-- microtun-core/src/peer.rs: the session generations of one peer. A slot is the place of a session
-- in the engine's pool.
pub mod Slots
mod Tests
use microtun.Prelude.{
  ℕ, ◌+◌, Bool, true, false, not, ◌||◌, ◌&&◌, Option, none, some, List, [], ◌∷◌, ◌==◌,
  if◌then◌else◌, arith,
}
use microtun.Time.{Instant}

abbrev pub SlotIdx : Type 0
SlotIdx = ℕ

pub record PeerSessions : Type 0 where
  pub current : Option SlotIdx
  pub previous : Option SlotIdx
  pub next : Option SlotIdx
  pub handshake : Option SlotIdx
  pub keepalive_due : Option Instant
  pub persistent_keepalive_due : Option Instant
  pub reply_due : Option Instant
  pub attempt_deadline : Option Instant

-- `#[derive(Default)]`
pub default : PeerSessions
default = record {
  current = none;
  previous = none;
  next = none;
  handshake = none;
  keepalive_due = none;
  persistent_keepalive_due = none;
  reply_due = none;
  attempt_deadline = none;
}

-- `place == Some(slot)`
abbrev pub holds : Option SlotIdx → SlotIdx → Bool
holds none slot = false
holds (some s) slot = s == slot

abbrev pub is_some {ℓ} : {A : Type ℓ} → Option A → Bool
is_some none = false
is_some (some a) = true

abbrev pub slots : PeerSessions → List (Option SlotIdx)
slots self = self.current ∷ self.previous ∷ self.next ∷ self.handshake ∷ []

-- The result of a transition: `none` is `Err(InternalInvariant)`.
abbrev pub Transition : Type 0 → Type 0
Transition A = PeerSessions × Option A

pub validate_responder_install : PeerSessions → SlotIdx → Bool
validate_responder_install self slot = not (is_some self.next && not (holds self.next slot))

pub commit_responder_install : PeerSessions → SlotIdx → PeerSessions
commit_responder_install self slot = record self { next = some slot }

-- The new current session, and the slot that drops out of the generations.
pub rotate_current : PeerSessions → SlotIdx → Transition (Option SlotIdx)
rotate_current self slot =
    (record self { previous = self.current; current = some slot }, some self.previous)

pub install_initiator : PeerSessions → SlotIdx → Transition (Option SlotIdx)
unfolding rotate_current
install_initiator self slot =
    if holds self.handshake slot
    then rotate_current (record self { handshake = none; attempt_deadline = none }) slot
    else (self, none)

pub confirm_responder : PeerSessions → SlotIdx → Transition (Option SlotIdx)
unfolding rotate_current
confirm_responder self slot =
    if holds self.next slot then rotate_current (record self { next = none }) slot else (self, none)

pub begin_handshake : PeerSessions → SlotIdx → Instant → Transition (Unit {0})
begin_handshake self slot deadline = if is_some self.handshake then (self, none) else (
  record self {
    handshake = some slot;
    attempt_deadline =
        if is_some self.attempt_deadline then self.attempt_deadline else some deadline;
  },
  some tt,
)

pub abort_handshake : PeerSessions → PeerSessions
abort_handshake self = record self { handshake = none; attempt_deadline = none }

-- One place of `unlink`.
abbrev pub cleared : Option SlotIdx → SlotIdx → Option SlotIdx
cleared place slot = if holds place slot then none else place

pub unlink : PeerSessions → SlotIdx → PeerSessions
unfolding abort_handshake
unlink self slot =
    let left : PeerSessions = record self {
      current = cleared self.current slot;
      previous = cleared self.previous slot;
      next = cleared self.next slot;
    } in
    if holds self.handshake slot then abort_handshake left else left
