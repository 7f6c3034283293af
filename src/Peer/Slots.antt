-- ===== src/Peer/Slots.antt =====
-- Which slots a peer of microtun-core/src/peer.rs refers to, over its transitions.
use microtun.Prelude.{
  ℕ, ◌+◌, ◌≤◌, ◌≡◌, true, Option, none, some, List, [], ◌∷◌, ◌==◌, ◌⊎◌, if◌then◌else◌, arith,
}
use microtun.Time.{Instant}
use microtun.Peer.{
  SlotIdx, PeerSessions, default, holds, validate_responder_install, commit_responder_install,
  install_initiator, confirm_responder, begin_handshake, abort_handshake, unlink,
}

abbrev pub one_at : Option SlotIdx → SlotIdx → ℕ
one_at place s = if holds place s then 1 else 0

-- How many of the four places hold the slot.
unfoldable pub links : PeerSessions → SlotIdx → ℕ
links self s =
    one_at self.current s + one_at self.previous s + one_at self.next s + one_at self.handshake s

-- What a transition released: the slot it returned.
abbrev pub released : Option (Option SlotIdx) → SlotIdx → ℕ
released none s = 0
released (some place) s = one_at place s

-- What the engine does with the sessions of a peer. A slot that it links is one that it has just
-- taken from the pool.
pub data Step : Type 0 where
  respond : SlotIdx → Step
  installed : SlotIdx → Step
  confirmed : SlotIdx → Step
  begun : SlotIdx → Instant → Step
  aborted : Step
  unlinked : SlotIdx → Step

-- The engine commits only what it has validated.
unfoldable pub respond_with : PeerSessions → SlotIdx → PeerSessions
respond_with self s =
    if validate_responder_install self s then commit_responder_install self s else self

unfoldable pub step : PeerSessions → Step → PeerSessions
step self (respond s) = respond_with self s
step self (installed s) = (install_initiator self s).0
step self (confirmed s) = (confirm_responder self s).0
step self (begun s t) = (begin_handshake self s t).0
step self aborted = abort_handshake self
step self (unlinked s) = unlink self s

-- A slot that is linked anew was not linked before; a responder may also install over the slot of
-- its own unconfirmed session.
abbrev pub IsFresh : PeerSessions → Step → Type 0
IsFresh self (respond s) = (links self s ≡ 0) ⊎ (holds self.next s ≡ true)
IsFresh self (begun s t) = links self s ≡ 0
IsFresh self _ = Unit {0}

abbrev pub AllFresh : PeerSessions → List Step → Type 0
AllFresh self [] = Unit {0}
AllFresh self (e ∷ es) = IsFresh self e × AllFresh (step self e) es

pub run : PeerSessions → List Step → PeerSessions
run self [] = self
run self (e ∷ es) = run (step self e) es

-- The slot that a transition returned is no longer linked there.
abbrev Conserves : PeerSessions → SlotIdx → PeerSessions × Option (Option SlotIdx) → Type 0
Conserves self s r = (links r.0 s + released r.1 s ≡ links self s) × (r.1 ≡ none → r.0 ≡ self)

-- Installing an initiator's session and confirming a responder's lose no slot and link none twice:
-- each slot is linked as often as before, less the one that the transition returns for the pool,
-- and a refused transition changes nothing.
rotation-Conserves :
    (self : PeerSessions) (slot s : SlotIdx)
    → Conserves self s (install_initiator self slot)
      × Conserves self s (confirm_responder self slot)
unfolding install_initiator confirm_responder links
rotation-Conserves self slot s = (ground arith, ground arith)

-- After `unlink` no place refers to the slot, and every other slot is linked as before.
links-unlink :
    (self : PeerSessions) (slot s : SlotIdx)
    → links (unlink self slot) s ≡ (if s == slot then 0 else links self s)
unfolding unlink links
links-unlink self slot s = ground arith

-- No slot is linked twice.
abbrev pub IsDistinct : PeerSessions → Type 0
IsDistinct self = (s : SlotIdx) → links self s ≤ 1

respond_with-IsDistinct :
    (self : PeerSessions) (slot : SlotIdx)
    → IsDistinct self
    → (links self slot ≡ 0) ⊎ (holds self.next slot ≡ true)
    → IsDistinct (respond_with self slot)
unfolding respond_with validate_responder_install commit_responder_install links
respond_with-IsDistinct self slot d f s = ground (arith, d s, f)

begin_handshake-IsDistinct :
    (self : PeerSessions) (slot : SlotIdx) (t : Instant)
    → IsDistinct self
    → links self slot ≡ 0
    → IsDistinct (begin_handshake self slot t).0
unfolding begin_handshake links
begin_handshake-IsDistinct self slot t d f s = ground (arith, d s)

abort_handshake-IsDistinct :
    (self : PeerSessions) → IsDistinct self → IsDistinct (abort_handshake self)
unfolding abort_handshake links
abort_handshake-IsDistinct self d s = omega (arith, d s)

step-IsDistinct :
    (self : PeerSessions) (e : Step) → IsDistinct self → IsFresh self e → IsDistinct (step self e)
unfolding step
step-IsDistinct self (respond slot) d f = respond_with-IsDistinct self slot d f
step-IsDistinct self (installed slot) d f =
    λ s. omega (arith, (rotation-Conserves self slot s).0.0, d s)
step-IsDistinct self (confirmed slot) d f =
    λ s. omega (arith, (rotation-Conserves self slot s).1.0, d s)
step-IsDistinct self (begun slot t) d f = begin_handshake-IsDistinct self slot t d f
step-IsDistinct self aborted d f = abort_handshake-IsDistinct self d
step-IsDistinct self (unlinked slot) d f = λ s. ground (arith, links-unlink self slot s, d s)

run-IsDistinct :
    (self : PeerSessions) (es : List Step)
    → IsDistinct self
    → AllFresh self es
    → IsDistinct (run self es)
unfolding run
run-IsDistinct self [] d f = d
run-IsDistinct self (e ∷ es) d f =
    run-IsDistinct (step self e) es (step-IsDistinct self e d f.0) f.1

default-IsDistinct : IsDistinct default
unfolding default links
default-IsDistinct s = omega arith

-- However the sessions of a new peer were installed, confirmed, rotated, aborted and unlinked, as
-- long as each slot linked anew came fresh from the pool (or a responder installs over the slot of
-- its own unconfirmed session): no slot is linked twice; the slot that
-- installing an initiator's session or confirming a responder's releases is not linked any more,
-- so it may go back to the pool (the places that link a slot and its release are one at most); and after `unlink` the slot is linked nowhere and every other
-- slot is linked as before.
pub generations-IsDistinct :
    (es : List Step) (slot s : SlotIdx)
    → AllFresh default es
    → let self = run default es in
      let (by_initiator, out) = install_initiator self slot in
      let (by_responder, out') = confirm_responder self slot in
      IsDistinct self
      × (links by_initiator s + released out s ≤ 1)
      × (links by_responder s + released out' s ≤ 1)
      × (links (unlink self slot) s ≡ (if s == slot then 0 else links self s))
generations-IsDistinct es slot s f =
    let self = run default es in
    let distinct = run-IsDistinct default es default-IsDistinct f in
    let kept = rotation-Conserves self slot s in
    (
      distinct,
      omega (arith, kept.0.0, distinct s),
      omega (arith, kept.1.0, distinct s),
      links-unlink self slot s,
    )
