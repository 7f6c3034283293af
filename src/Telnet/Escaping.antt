-- ===== src/Telnet/Escaping.antt =====
-- The bytes that microtun-telnet writes, read back by its own `Telnet::feed`.
use microtun.Prelude.{
  append_assoc, append-nil, ℕ, suc, ◌+◌, ◌-◌, ◌≡◌, refl, sym, ap, subst, ◌∙◌, false, Option, none,
  some, List, [], ◌∷◌, ◌++◌, arith, ltb, ◌==◌, if◌then◌else◌, length, take, drop, length-append,
  drop-append, take-append, Bool-cases, inl, inr,
}
use microtun.Telnet.{iac, plain, TelnetEvent, Telnet, in_data}
use microtun.Telnet.Codec.{feed, count_iac}
use microtun.Telnet.Binary.{write_from, write_data_unflushed}

-- Every IAC doubled.
abbrev pub doubled : List ℕ → List ℕ
doubled [] = []
doubled (byte ∷ bytes) = if byte == iac then iac ∷ iac ∷ doubled bytes else byte ∷ doubled bytes

-- The events of a stream of bytes that arrives, and the codec and the reply after it.
unfoldable pub feed_all : ℕ → Telnet → List ℕ → List ℕ → Telnet × List ℕ × List TelnetEvent
feed_all n self [] reply = (self, reply, [])
feed_all n self (byte ∷ bytes) reply =
    let (self', reply', event) = feed n self byte reply in
    let (last, replied, events) = feed_all n self' bytes reply' in
    (last, replied, elim event [ none ↦ events | some e ↦ e ∷ events ])

abbrev pub plains : List ℕ → List TelnetEvent
plains [] = []
plains (byte ∷ bytes) = plain byte ∷ plains bytes

doubled-append : (xs ys : List ℕ) → doubled (xs ++ ys) ≡ doubled xs ++ doubled ys
doubled-append [] ys = refl
doubled-append (x ∷ xs) ys = elim (Bool-cases (x == iac)) [
  | inl e ↦ rw e (ap (λ us. iac ∷ iac ∷ us) (doubled-append xs ys))
  | inr e ↦ rw e (ap (λ us. x ∷ us) (doubled-append xs ys))
]

doubled_clean : (xs : List ℕ) → count_iac xs ≡ 0 → doubled xs ≡ xs
doubled_clean [] h = refl
doubled_clean (x ∷ xs) h = elim (Bool-cases (x == iac)) [
  | inl e ↦ absurd (ground arith)
  | inr e ↦ rw e (ap (λ us. x ∷ us) (doubled_clean xs (ground arith)))
]

-- The codec between commands
abbrev pub at_data : Telnet → Telnet
at_data self = record self { rx = in_data }

-- What `feed_all` makes of the result of one `feed`
abbrev pub then_all :
    ℕ → List ℕ → Telnet × List ℕ × Option TelnetEvent → Telnet × List ℕ × List TelnetEvent
then_all n bytes (self, reply, event) =
    let (last, replied, events) = feed_all n self bytes reply in
    (last, replied, elim event [ none ↦ events | some e ↦ e ∷ events ])

pub feed_all_step :
    (n : ℕ) (self : Telnet) (byte : ℕ) (bytes reply : List ℕ)
    {r : Telnet × List ℕ × Option TelnetEvent}
    → feed n self byte reply ≡ r
    → feed_all n self (byte ∷ bytes) reply ≡ then_all n bytes r
unfolding feed_all
feed_all_step n self byte bytes reply h =
    subst (λ r. feed_all n self (byte ∷ bytes) reply ≡ then_all n bytes r) h refl

feed_plain :
    (n : ℕ) (self : Telnet) (byte : ℕ) (reply : List ℕ)
    → (byte == iac) ≡ false
    → feed n (at_data self) byte reply ≡ (at_data self, reply, some (plain byte))
unfolding feed
feed_plain n self byte reply e = rw e

feed_pair :
    (n : ℕ) (self : Telnet) (bytes reply : List ℕ)
    → feed_all n (at_data self) (iac ∷ iac ∷ bytes) reply ≡ (
        let (last, replied, events) = feed_all n (at_data self) bytes reply in
        (last, replied, plain iac ∷ events))
unfolding feed_all feed
feed_pair n self bytes reply = refl

feed_doubled :
    (n : ℕ) (self : Telnet) (bytes reply : List ℕ)
    → feed_all n (at_data self) (doubled bytes) reply ≡ (at_data self, reply, plains bytes)
unfolding feed_all
feed_doubled n self [] reply = refl
feed_doubled n self (byte ∷ bytes) reply = elim (Bool-cases (byte == iac)) [
  | inl e ↦
      let same : byte ≡ iac = ground arith in
      rw same (rw (feed_pair n self (doubled bytes) reply) (rw (feed_doubled n self bytes reply)))
  | inr e ↦ rw e (
      rw
        (feed_all_step n (at_data self) byte (doubled bytes) reply (feed_plain n self byte reply e))
        (rw (feed_doubled n self bytes reply)))
]

nil_of_length : (xs : List ℕ) → length xs ≡ 0 → xs ≡ []
nil_of_length [] h = refl
nil_of_length (x ∷ xs) h = absurd (omega arith)

count_iac-append : (xs ys : List ℕ) → count_iac (xs ++ ys) ≡ count_iac xs + count_iac ys
count_iac-append [] ys = omega arith
count_iac-append (x ∷ xs) ys = omega (arith, count_iac-append xs ys)

module _ (pre mid rest bytes : List ℕ) (start index : ℕ) (eb : bytes ≡ pre ++ (mid ++ rest))
    (es : start ≡ length pre) (ei : index ≡ start + length mid) where
  from_start : drop start bytes ≡ mid ++ rest
  from_start = ap (drop start) eb ∙ drop-append pre (mid ++ rest) start (sym es)

  -- The run that is written before an IAC
  flushed_lem :
      (written : List ℕ)
      → (if ltb start index then written ++ take (index - start) (drop start bytes) else written)
        ≡ written ++ mid
  flushed_lem written = elim (Bool-cases (ltb start index)) [
    | inl e ↦
        let run : take (index - start) (drop start bytes) ≡ mid =
          ap (take (index - start)) from_start
          ∙ take-append mid rest (index - start) (omega arith) in
        rw e (ap (λ xs. written ++ xs) run)
    | inr e ↦
        let none_left : mid ≡ [] = nil_of_length mid (ground arith) in
        rw e (sym (append-nil written) ∙ ap (λ xs. written ++ xs) (sym none_left))
  ]

  rest_lem :
      (written : List ℕ)
      → rest ≡ []
      → count_iac mid ≡ 0
      → (if ltb start (length bytes) then written ++ drop start bytes else written)
        ≡ written ++ doubled (mid ++ rest)
  rest_lem written er h =
      let all : mid ++ rest ≡ mid = ap (λ xs. mid ++ xs) er ∙ append-nil mid in
      let spec : doubled (mid ++ rest) ≡ mid = ap doubled all ∙ doubled_clean mid h in
      elim (Bool-cases (ltb start (length bytes))) [
        | inl e ↦ rw e (ap (λ xs. written ++ xs) (from_start ∙ all ∙ sym spec))
        | inr e ↦
            let none_left : mid ≡ [] = nil_of_length mid (
              ground
                (arith, ap length eb, length-append pre (mid ++ rest), length-append mid rest)) in
            rw e (sym (append-nil written) ∙ ap (λ xs. written ++ xs) (sym (spec ∙ none_left)))
      ]

pair_lem :
    (mid rest written : List ℕ) (byte : ℕ)
    → byte ≡ iac
    → count_iac mid ≡ 0
    → ((written ++ mid) ++ iac ∷ iac ∷ []) ++ doubled rest ≡ written ++ doubled (mid ++ byte ∷ rest)
pair_lem mid rest written byte e h = rw e (
    append_assoc (written ++ mid) (iac ∷ iac ∷ []) (doubled rest)
    ∙ append_assoc written mid (iac ∷ iac ∷ doubled rest)
    ∙ ap (λ xs. written ++ xs)
        (sym (
          doubled-append mid (iac ∷ rest)
          ∙ ap (λ xs. xs ++ (iac ∷ iac ∷ doubled rest)) (doubled_clean mid h))))

-- The loop of `write_data_unflushed`, with `mid` read and not yet written.
write_from_lem :
    (pre mid rest written bytes : List ℕ) (start index : ℕ)
    → bytes ≡ pre ++ (mid ++ rest)
    → start ≡ length pre
    → index ≡ start + length mid
    → count_iac mid ≡ 0
    → write_from bytes start index rest written ≡ written ++ doubled (mid ++ rest)
unfolding write_from
write_from_lem pre mid [] written bytes start index eb es ei h =
    rest_lem pre mid [] bytes start index eb es ei written refl h
write_from_lem pre mid (byte ∷ rest) written bytes start index eb es ei h =
    elim (Bool-cases (byte == iac)) [
      | inl e ↦
          let same : byte ≡ iac = ground arith in
          let flushed = flushed_lem pre mid (byte ∷ rest) bytes start index eb es ei written in
          let pre' = pre ++ (mid ++ byte ∷ []) in
          let eb' : bytes ≡ pre' ++ ([] ++ rest) =
            eb
            ∙ sym (
                append_assoc pre (mid ++ byte ∷ []) rest
                ∙ ap (λ xs. pre ++ xs) (append_assoc mid (byte ∷ []) rest)) in
          let size : length pre' ≡ suc index =
            omega (
              arith,
              length-append {0} pre (mid ++ byte ∷ []),
              length-append {0} mid (byte ∷ []),
            ) in
          let next =
            write_from_lem pre' [] rest ((written ++ mid) ++ iac ∷ iac ∷ []) bytes (suc index)
              (suc index) eb' (sym size) (omega arith) refl in
          rw e (rw flushed (next ∙ pair_lem mid rest written byte same h))
      | inr e ↦
          let eb' : bytes ≡ pre ++ ((mid ++ byte ∷ []) ++ rest) =
            eb ∙ ap (λ xs. pre ++ xs) (sym (append_assoc mid (byte ∷ []) rest)) in
          let clean : count_iac (mid ++ byte ∷ []) ≡ 0 =
            ground (arith, count_iac-append mid (byte ∷ [])) in
          let next =
            write_from_lem pre (mid ++ byte ∷ []) rest written bytes start (suc index) eb' es
              (omega (arith, length-append {0} mid (byte ∷ []))) clean in
          rw e (next ∙ ap (λ xs. written ++ doubled xs) (append_assoc mid (byte ∷ []) rest))
    ]

pub write_data_lem :
    (written bytes : List ℕ) → write_data_unflushed written bytes ≡ written ++ doubled bytes
unfolding write_data_unflushed
write_data_lem written bytes = write_from_lem [] [] bytes written bytes 0 0 refl refl refl refl

-- What `write_data` puts on the wire for any bytes, `feed` gives back as exactly those bytes, one
-- event for each, when it is between commands: no byte is lost or taken for a command, no reply is
-- sent, and the codec is as it was.
pub feed-write_data :
    (n : ℕ) (self : Telnet) (bytes reply : List ℕ)
    → self.rx ≡ in_data
    → feed_all n self (write_data_unflushed [] bytes) reply ≡ (self, reply, plains bytes)
feed-write_data n self bytes reply h =
    let fresh : at_data self ≡ self = ap (λ s. record self { rx = s }) (sym h) in
    subst (λ t. feed_all n t (write_data_unflushed [] bytes) reply ≡ (t, reply, plains bytes)) fresh
      (rw (write_data_lem [] bytes) (feed_doubled n self bytes reply))
