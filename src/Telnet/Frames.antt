-- ===== src/Telnet/Frames.antt =====
-- `push_subnegotiation` of microtun-telnet/src/lib.rs, and `Telnet::feed` of what it writes.
use microtun.Prelude.{
  append_assoc, append-nil, ℕ, ◌+◌, ◌≤◌, ◌<◌, ◌≡◌, refl, sym, ap, subst, ◌∙◌, true, false, none,
  List, [], ◌∷◌, ◌++◌, arith, leb, ltb, ◌==◌, if◌then◌else◌, length, length-append, Bool-cases,
  leb→le, inl, inr, u64_max,
}
use microtun.Telnet.{iac, sb, se, subnegotiated, TelnetEvent, Telnet, in_data, in_subneg}
use microtun.Telnet.Codec.{feed, count_iac, extend, push_payload, push_subnegotiation}
use microtun.Telnet.Escaping.{doubled, at_data, feed_all, feed_all_step}

length-doubled : (payload : List ℕ) → length (doubled payload) ≡ length payload + count_iac payload
length-doubled [] = refl
length-doubled (byte ∷ payload) = ground (arith, length-doubled payload)

push_payload_lem :
    (n : ℕ) (out payload : List ℕ)
    → length out + length (doubled payload) ≤ n
    → push_payload n out payload ≡ out ++ doubled payload
unfolding push_payload
push_payload_lem n out [] h = sym (append-nil out)
push_payload_lem n out (byte ∷ payload) h = elim (Bool-cases (byte == iac)) [
  | inl e ↦
      let same : byte ≡ iac = ground arith in
      let first : ltb (length out) n ≡ true = ground arith in
      let second : ltb (length (out ++ byte ∷ [])) n ≡ true =
        ground (arith, length-append out (byte ∷ [])) in
      let ih = push_payload_lem n ((out ++ byte ∷ []) ++ iac ∷ []) payload (
        ground
          (arith, length-append (out ++ byte ∷ []) (iac ∷ []), length-append out (byte ∷ []))) in
      rw e (
        rw first (
          rw second (
            ih
            ∙ append_assoc (out ++ byte ∷ []) (iac ∷ []) (doubled payload)
            ∙ append_assoc out (byte ∷ []) (iac ∷ doubled payload)
            ∙ ap (λ b. out ++ b ∷ iac ∷ doubled payload) same)))
  | inr e ↦
      let first : ltb (length out) n ≡ true = ground arith in
      let ih =
        push_payload_lem n (out ++ byte ∷ []) payload
          (ground (arith, length-append out (byte ∷ []))) in
      rw e (rw first (ih ∙ append_assoc out (byte ∷ []) (doubled payload)))
]

-- The bytes of a subnegotiation
abbrev pub frame : ℕ → List ℕ → List ℕ
frame option payload = iac ∷ sb ∷ option ∷ doubled payload ++ iac ∷ se ∷ []

length-frame :
    (option : ℕ) (payload : List ℕ)
    → length (frame option payload) ≡ 5 + (length payload + count_iac payload)
length-frame option payload =
    omega (arith, length-append {0} (doubled payload) (iac ∷ se ∷ []), length-doubled payload)

-- The three parts that `push_subnegotiation` appends, where they fit.
pushed_lem :
    (n : ℕ) (out : List ℕ) (option : ℕ) (payload : List ℕ)
    → length out + length (frame option payload) ≤ n
    → extend n (push_payload n (extend n out (iac ∷ sb ∷ option ∷ [])) payload) (iac ∷ se ∷ [])
      ≡ out ++ frame option payload
pushed_lem n out option payload h =
    let size = length-frame option payload in
    let double = length-doubled payload in
    let opened = out ++ iac ∷ sb ∷ option ∷ [] in
    let opened_size = length-append out (iac ∷ sb ∷ option ∷ []) in
    let first : extend n out (iac ∷ sb ∷ option ∷ []) ≡ opened = ground (arith, size) in
    let body : push_payload n opened payload ≡ opened ++ doubled payload =
      push_payload_lem n opened payload (omega (arith, size, double, opened_size)) in
    let last : extend n (opened ++ doubled payload) (iac ∷ se ∷ [])
        ≡ (opened ++ doubled payload) ++ iac ∷ se ∷ [] =
      ground (arith, size, double, opened_size, length-append opened (doubled payload)) in
    rw first (
      rw body (
        last
        ∙ append_assoc opened (doubled payload) (iac ∷ se ∷ [])
        ∙ append_assoc out (iac ∷ sb ∷ option ∷ []) (doubled payload ++ iac ∷ se ∷ [])))

-- `push_subnegotiation` is all or nothing: it appends IAC SB, the option, the payload with every
-- IAC doubled and IAC SE, and says so, exactly when all of that fits the vector; otherwise the
-- vector is as it was. The capacity is below the largest `usize`.
pub push_subnegotiation_lem :
    (n : ℕ) (out : List ℕ) (option : ℕ) (payload : List ℕ)
    → n < u64_max
    → length out ≤ n
    → push_subnegotiation n out option payload ≡ (
        if leb (length out + length (frame option payload)) n
        then (out ++ frame option payload, true)
        else (out, false))
unfolding push_subnegotiation
push_subnegotiation_lem n out option payload small fits =
    let size = length-frame option payload in
    elim (Bool-cases (leb (length out + length (frame option payload)) n)) [
      | inl e ↦
          let room : leb (length out + (5 + (length payload + count_iac payload))) n ≡ true =
            ap (λ k. leb (length out + k) n) (sym size) ∙ e in
          rw e (
            ground (
              arith,
              pushed_lem n out option payload
                  (leb→le (length out + length (frame option payload)) n e),
            ))
      | inr e ↦
          let room : leb (length out + (5 + (length payload + count_iac payload))) n ≡ false =
            ap (λ k. leb (length out + k) n) (sym size) ∙ e in
          rw e (ground arith)
    ]

-- The codec inside a subnegotiation
abbrev pub collecting : Telnet → ℕ → List ℕ → Telnet
collecting self option got = record self { rx = in_subneg; subneg_option = option; subneg = got }

-- The codec, the reply and the event after one
abbrev pub received : Telnet → ℕ → List ℕ → List ℕ → Telnet × List ℕ × List TelnetEvent
received self option payload reply = (
  record self { rx = in_data; subneg_option = option; subneg = payload },
  reply,
  subnegotiated option ∷ [],
)

module _ (n : ℕ) (self : Telnet) (option : ℕ) (got reply : List ℕ)
    (room : ltb (length got) self.sb_cap ≡ true) where
  feed_one :
      (byte : ℕ)
      → (byte == iac) ≡ false
      → feed n (collecting self option got) byte reply
        ≡ (collecting self option (got ++ byte ∷ []), reply, none)
  unfolding feed
  feed_one byte e = rw e (rw room)

  feed_byte :
      (byte : ℕ) (bytes : List ℕ)
      → (byte == iac) ≡ false
      → feed_all n (collecting self option got) (byte ∷ bytes) reply
        ≡ feed_all n (collecting self option (got ++ byte ∷ [])) bytes reply
  feed_byte byte bytes e =
      feed_all_step n (collecting self option got) byte bytes reply (feed_one byte e)

  escaped_iac :
      (bytes : List ℕ)
      → feed_all n (collecting self option got) (iac ∷ iac ∷ bytes) reply
        ≡ feed_all n (collecting self option (got ++ iac ∷ [])) bytes reply
  unfolding feed feed_all
  escaped_iac bytes = rw room

-- The bytes of the payload, and the end.
feed_payload :
    (n : ℕ) (self : Telnet) (option : ℕ) (payload got reply : List ℕ)
    → length got + length payload ≤ self.sb_cap
    → feed_all n (collecting self option got) (doubled payload ++ iac ∷ se ∷ []) reply
      ≡ received self option (got ++ payload) reply
unfolding feed_all feed
feed_payload n self option [] got reply h = rw (append-nil got)
feed_payload n self option (byte ∷ payload) got reply h =
    let room : ltb (length got) self.sb_cap ≡ true = ground arith in
    let ih =
      feed_payload n self option payload (got ++ byte ∷ []) reply
        (omega (arith, length-append {0} got (byte ∷ []))) in
    let all = ap (λ xs. received self option xs reply) (append_assoc got (byte ∷ []) payload) in
    let bytes = doubled payload ++ iac ∷ se ∷ [] in
    elim (Bool-cases (byte == iac)) [
      | inl e ↦
          let same : byte ≡ iac = ground arith in
          let next = escaped_iac n self option got reply room bytes in
          rw e (
            next
            ∙ ap (λ b. feed_all n (collecting self option (got ++ b ∷ [])) bytes reply) (sym same)
            ∙ ih
            ∙ all)
      | inr e ↦ rw e (feed_byte n self option got reply room byte bytes e ∙ ih ∙ all)
    ]

feed_frame :
    (n : ℕ) (self : Telnet) (option : ℕ) (payload reply : List ℕ)
    → length payload ≤ self.sb_cap
    → feed_all n (at_data self) (frame option payload) reply ≡ received self option payload reply
unfolding feed feed_all
feed_frame n self option payload reply h = feed_payload n self option payload [] reply (omega arith)

-- What `push_subnegotiation` appends, `feed` gives back as one event of the option, with the payload
-- in the codec as it was pushed: when the codec is between commands and its buffer holds the payload.
pub feed-push_subnegotiation :
    (m : ℕ) (self : Telnet) (reply : List ℕ) (n : ℕ) (out out' : List ℕ) (option : ℕ)
    (payload : List ℕ)
    → self.rx ≡ in_data
    → length payload ≤ self.sb_cap
    → n < u64_max
    → length out ≤ n
    → push_subnegotiation n out option payload ≡ (out', true)
    → (frame : List ℕ) × (out' ≡ out ++ frame)
      × (feed_all m self frame reply ≡ received self option payload reply)
feed-push_subnegotiation m self reply n out out' option payload h room small fits pushed =
    let spec = push_subnegotiation_lem n out option payload small fits in
    (
      frame option payload,
      ground (arith, spec, pushed),
      subst (λ t. feed_all m t (frame option payload) reply ≡ received self option payload reply)
          (ap (λ s. record self { rx = s }) (sym h)) (feed_frame m self option payload reply room),
    )
