-- ===== src/Firewall/Owned.antt =====
-- How many entries of the table of microtun-core/src/firewall.rs a peer owns, after each change of
-- the list of entries, and what the searches for a victim find.
use microtun.Prelude.{
  ℕ, zero, suc, ◌+◌, ◌≤◌, ◌<◌, ◌≡◌, refl, Bool, not, Option, none, some, List, [], ◌∷◌, ◌++◌, arith,
  ltb, leb, ◌==◌, ◌⊎◌, length, get_elem?, set, get_or, Bool-cases, Option-cases, inl, inr,
  if◌then◌else◌, u32_max,
}
use microtun.Firewall.Entries.{PeerIdx, Entry, retain, victim, better, later, largest_owner}

-- One for an entry of the peer.
abbrev pub one_of : PeerIdx → Entry → ℕ
one_of p e = if e.peer == p then 1 else 0

unfoldable pub owned : PeerIdx → List Entry → ℕ
owned p [] = 0
owned p (e ∷ es) = one_of p e + owned p es

pub owned_le : (p : PeerIdx) (es : List Entry) → owned p es ≤ length es
unfolding owned
owned_le p [] = omega arith
owned_le p (e ∷ es) = ground (arith, owned_le p es)

pub owned-append :
    (p : PeerIdx) (es : List Entry) (e : Entry) → owned p (es ++ e ∷ []) ≡ owned p es + one_of p e
unfolding owned
owned-append p [] e = omega arith
owned-append p (x ∷ es) e = omega (arith, owned-append p es e)

pub owned-set :
    (p : PeerIdx) (es : List Entry) (at : ℕ) (e old : Entry)
    → get_elem? es at ≡ some old
    → owned p (set es at e) + one_of p old ≡ owned p es + one_of p e
unfolding owned
owned-set p [] at e old h = absurd (cc)
owned-set p (x ∷ es) zero e old h = ground arith
owned-set p (x ∷ es) (suc at) e old h = omega (arith, owned-set p es at e old h)

pub owned-retain :
    (p : PeerIdx) (keep : Entry → Bool) (es : List Entry) → owned p (retain keep es) ≤ owned p es
unfolding owned retain
owned-retain p keep [] = omega arith
owned-retain p keep (e ∷ es) = ground (arith, owned-retain p keep es)

-- Removing a peer takes its entries and no others.
pub owned_removed :
    (p peer : PeerIdx) (es : List Entry)
    → owned p (retain (λ e. not (e.peer == peer)) es) ≡ (if p == peer then 0 else owned p es)
unfolding owned retain
owned_removed p peer [] = ground arith
owned_removed p peer (e ∷ es) = ground (arith, owned_removed p peer es)

pub length-retain : (keep : Entry → Bool) (es : List Entry) → length (retain keep es) ≤ length es
unfolding retain
length-retain keep [] = omega arith
length-retain keep (e ∷ es) = ground (arith, length-retain keep es)

pub retain_same :
    (keep : Entry → Bool) (es : List Entry)
    → length (retain keep es) ≡ length es
    → retain keep es ≡ es
unfolding retain
retain_same keep [] h = refl
retain_same keep (e ∷ es) h = ground (arith, length-retain keep es, retain_same keep es)

-- The victim is an entry of the peer, at the place returned.
pub victim_sound :
    (p : PeerIdx) (es : List Entry) (r : ℕ × Entry)
    → victim p es ≡ some r
    → (get_elem? es r.0 ≡ some r.1) × (r.1.peer ≡ p)
unfolding victim better later
victim_sound p [] r h = absurd (cc)
victim_sound p (e ∷ es) r h = elim (Option-cases (victim p es)) [
  | inl n ↦ ground arith
  | inr (q, m) ↦ ground (arith, victim_sound p es q m)
]

-- A peer with no victim has no entry.
pub victim-none : (p : PeerIdx) (es : List Entry) → victim p es ≡ none → owned p es ≡ 0
unfolding victim better later owned
victim-none p [] h = refl
victim-none p (e ∷ es) h = ground (arith, victim-none p es)

pub largest_owner_sound :
    (at largest : ℕ) (owner : Option PeerIdx) (counts : List ℕ) (o : PeerIdx)
    → largest_owner at largest owner counts ≡ some o
    → (owner ≡ some o) ⊎ ((i : ℕ) × (o ≡ at + i) × (largest < get_or counts i 0))
unfolding largest_owner
largest_owner_sound at largest owner [] o h = inl h
largest_owner_sound at largest owner (c ∷ counts) o h = elim (Bool-cases (ltb largest c)) [
  | inl b ↦
      elim (largest_owner_sound (suc at) c (if leb at u32_max then some at else none) counts o
        (ground arith)) [
          | inl e ↦ inr (0, ground arith, ground arith)
          | inr (i, e, l) ↦ inr (suc i, omega arith, ground arith)
        ]
  | inr b ↦ elim (largest_owner_sound (suc at) largest owner counts o (ground arith)) [
    | inl e ↦ inl e
    | inr (i, e, l) ↦ inr (suc i, omega arith, l)
  ]
]

-- Once there is an owner, the loop ends with one.
largest_owner-some :
    (at largest : ℕ) (o : PeerIdx) (counts : List ℕ)
    → at + length counts ≤ suc u32_max
    → (r : PeerIdx) × (largest_owner at largest (some o) counts ≡ some r)
unfolding largest_owner
largest_owner-some at largest o [] h = (o, refl)
largest_owner-some at largest o (c ∷ counts) h =
    let (r, p) = largest_owner-some (suc at) c at counts (omega arith) in
    let (s, q) = largest_owner-some (suc at) largest o counts (omega arith) in
    elim (Bool-cases (ltb largest c)) [ inl b ↦ (r, ground arith) | inr b ↦ (s, ground arith) ]

-- With no owner found, no count is above the one looked for.
pub largest_owner-none :
    (at largest : ℕ) (counts : List ℕ) (i : ℕ)
    → at + length counts ≤ suc u32_max
    → largest_owner at largest none counts ≡ none
    → get_or counts i 0 ≤ largest
unfolding largest_owner
largest_owner-none at largest [] i l h = omega arith
largest_owner-none at largest (c ∷ counts) zero l h =
    let (r, p) = largest_owner-some (suc at) c at counts (omega arith) in ground arith
largest_owner-none at largest (c ∷ counts) (suc i) l h =
    let (r, p) = largest_owner-some (suc at) c at counts (omega arith) in
    ground (arith, largest_owner-none (suc at) largest counts i)
