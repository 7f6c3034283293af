-- ===== src/Telnet/Handoff.antt =====
-- `BinaryMode` of microtun-telnet/src/binary.rs hands over every application byte.
use microtun.Prelude.{
  append_assoc, ℕ, ◌≡◌, refl, sym, ap, subst, ◌∙◌, true, Option, none, some, List, [], ◌∷◌, ◌++◌,
  arith, Bool-cases, Option-cases, ◌⊎◌, inl, inr,
}
use microtun.Telnet.{Telnet}
use microtun.Telnet.Options.{binary_mode_enabled, binary_mode_refused, request_binary_mode}
use microtun.Telnet.Binary.{
  Arrival, arrived, failed, BinaryMode, disconnected, io_error, unexpected_data, feed_binary,
  feed_wire_byte, keep, settled, Outcome, await_binary, negotiate_binary, read_wire, read_pending,
  read_byte,
}

abbrev pub prepend : Option ℕ → List ℕ → List ℕ
prepend none bytes = bytes
prepend (some b) bytes = b ∷ bytes

-- The application bytes of what is to arrive, for the codec's state
unfoldable pub payloads : List Arrival → Telnet → List ℕ
payloads [] telnet = []
payloads (failed ∷ rest) telnet = payloads rest telnet
payloads (arrived b ∷ rest) telnet =
    let (telnet', reply, payload) = feed_binary 16 telnet b [] in
    prepend payload (payloads rest telnet')

-- The bytes that reads are still to give
abbrev pub stream : BinaryMode → List ℕ
stream self = self.pending ++ payloads self.incoming self.telnet

-- One byte of the wire
feed_wire_byte_stream :
    (self : BinaryMode) (b : ℕ) (rest : List Arrival)
    → let (self', payload) = feed_wire_byte (record self { incoming = rest }) b in
      (payloads (arrived b ∷ rest) self.telnet ≡ prepend payload (payloads rest self'.telnet))
      × (self'.pending ≡ self.pending)
      × (self'.incoming ≡ rest)
unfolding feed_wire_byte payloads
feed_wire_byte_stream self b rest = (refl, refl, refl)

keep_stream :
    (self : BinaryMode) (payload : Option ℕ) (rest : List ℕ) {self' : BinaryMode}
    → keep self payload ≡ some self'
    → (self'.pending ++ rest ≡ self.pending ++ prepend payload rest)
      × (self'.telnet ≡ self.telnet)
      × (self'.incoming ≡ self.incoming)
keep_stream self none rest h = ground arith
keep_stream self (some b) rest h = ground (arith, append_assoc self.pending (b ∷ []) rest)

settled_cases :
    (self : BinaryMode) (o : Outcome) {self' : BinaryMode}
    → settled self o ≡ (self', inr tt)
    → ((self ≡ self') × (binary_mode_enabled self.telnet ≡ true)) ⊎ (o ≡ (self', inr tt))
settled_cases self o h = elim (Bool-cases (binary_mode_enabled self.telnet)) [
  | inl e ↦ inl (ground (arith, e, h))
  | inr e ↦ elim (Bool-cases (binary_mode_refused self.telnet)) [
    | inl e' ↦ absurd (ground (arith, e, e', h))
    | inr e' ↦ inr (ground (arith, e, e', h))
  ]
]

-- The loop of `negotiate` ends well only in binary mode, and loses no byte.
await_binary_lem :
    (incoming : List Arrival) (self self' : BinaryMode)
    → await_binary incoming self ≡ (self', inr tt)
    → (binary_mode_enabled self'.telnet ≡ true)
      × (stream self' ≡ self.pending ++ payloads incoming self.telnet)
unfolding await_binary
await_binary_lem [] self self' h =
    let s = record self { incoming = [] } in
    elim (settled_cases s (s, inl disconnected) h) [
      | inl (e, on) ↦
          subst (λ t. (binary_mode_enabled t.telnet ≡ true) × (stream t ≡ stream s)) e (on, refl)
      | inr e ↦ absurd (ground (arith, e))
    ]
await_binary_lem (failed ∷ rest) self self' h =
    let s = record self { incoming = failed ∷ rest } in
    elim (settled_cases s (record self { incoming = rest }, inl io_error) h) [
      | inl (e, on) ↦
          subst (λ t. (binary_mode_enabled t.telnet ≡ true) × (stream t ≡ stream s)) e (on, refl)
      | inr e ↦ absurd (ground (arith, e))
    ]
await_binary_lem (arrived b ∷ rest) self self' h =
    let s = record self { incoming = arrived b ∷ rest } in
    let (fed, payload) = feed_wire_byte (record self { incoming = rest }) b in
    let o : Outcome = elim (keep fed payload) [
      | none ↦ (fed, inl unexpected_data)
      | some kept ↦ await_binary rest kept
    ] in
    elim (settled_cases s o h) [
      | inl (e, on) ↦
          subst (λ t. (binary_mode_enabled t.telnet ≡ true) × (stream t ≡ stream s)) e (on, refl)
      | inr e ↦ elim (Option-cases (keep fed payload)) [
        | inl full ↦ absurd (ground (arith, e, full))
        | inr (kept, k) ↦
            let (first, same, ahead) = feed_wire_byte_stream self b rest in
            let (held, codec, later) = keep_stream fed payload (payloads rest kept.telnet) k in
            let (on, whole) = await_binary_lem rest kept self' (ground (arith, e, k)) in
            let moved =
              ap (λ xs. xs ++ prepend payload (payloads rest kept.telnet)) same
              ∙ ap (λ t. self.pending ++ prepend payload (payloads rest t)) codec
              ∙ ap (λ xs. self.pending ++ xs) (sym first) in
            (on, whole ∙ held ∙ moved)
      ]
    ]

-- When `negotiate` succeeds, BINARY is enabled both ways, and no application byte that arrived while it
-- waited is lost or reordered: what reads are still to give is what was queued before, and the
-- application bytes of all that was to arrive.
pub negotiate-stream :
    (self self' : BinaryMode)
    → negotiate_binary self ≡ (self', inr tt)
    → (binary_mode_enabled self'.telnet ≡ true)
      × (stream self'
          ≡ self.pending ++ payloads self.incoming (request_binary_mode 6 self.telnet []).0)
unfolding negotiate_binary
negotiate-stream self self' h =
    let (telnet', request) = request_binary_mode 6 self.telnet [] in
    await_binary_lem self.incoming
      (record self { telnet = telnet'; written = self.written ++ request }) self' h

read_wire_lem :
    (incoming : List Arrival) (self self' : BinaryMode) (b : ℕ)
    → self.pending ≡ []
    → read_wire incoming self ≡ (self', inr b)
    → payloads incoming self.telnet ≡ b ∷ stream self'
unfolding read_wire
read_wire_lem [] self self' b none_left h = absurd (ground arith)
read_wire_lem (failed ∷ rest) self self' b none_left h = absurd (ground arith)
read_wire_lem (arrived x ∷ rest) self self' b none_left h =
    let (fed, payload) = feed_wire_byte (record self { incoming = rest }) x in
    let (first, same, ahead) = feed_wire_byte_stream self x rest in
    elim (Option-cases payload) [
      | inl e ↦
          let more = read_wire_lem rest fed self' b (same ∙ none_left) (ground (arith, e, h)) in
          first ∙ ap (λ o. prepend o (payloads rest fed.telnet)) e ∙ more
      | inr (y, e) ↦
          let here : (fed ≡ self') × (y ≡ b) = ground (arith, e, h) in
          let whole : stream fed ≡ payloads rest fed.telnet =
            ap (λ xs. xs ++ payloads fed.incoming fed.telnet) (same ∙ none_left)
            ∙ ap (λ xs. payloads xs fed.telnet) ahead in
          first
          ∙ ap (λ o. prepend o (payloads rest fed.telnet)) e
          ∙ ap (λ c. c ∷ payloads rest fed.telnet) here.1
          ∙ ap (λ xs. b ∷ xs) (sym whole ∙ ap stream here.0)
    ]

read_pending_lem :
    (pending : List ℕ) (self self' : BinaryMode) (b : ℕ)
    → self.pending ≡ pending
    → read_pending pending self ≡ (self', inr b)
    → pending ++ payloads self.incoming self.telnet ≡ b ∷ stream self'
unfolding read_pending
read_pending_lem [] self self' b e h = read_wire_lem self.incoming self self' b e h
read_pending_lem (x ∷ xs) self self' b e h =
    let rest = record self { pending = xs } in
    let (next, same) : (rest ≡ self') × (x ≡ b) = ground (arith, h) in
    ap (λ c. c ∷ stream rest) same ∙ ap (λ t. b ∷ stream t) next

-- A read gives the next application byte, be it queued or to come with TELNET commands around it, and
-- leaves those after it.
pub read_byte-stream :
    (self self' : BinaryMode) (b : ℕ)
    → read_byte self ≡ (self', inr b)
    → stream self ≡ b ∷ stream self'
read_byte-stream self self' b h =
    read_pending_lem self.pending self self' b refl (unfold read_byte in h)
