-- ===== src/Ymodem/Triples.antt =====
-- Conditions before and after a step of the receiver of microtun-ymodem/src/receive.rs: what the sink
-- holds, how much is still to arrive, and what an error has told the sender.
use microtun.Prelude.{
  append_assoc, refl, ap, subst, sym, ◌∙◌, ℕ, ◌≤◌, ◌<◌, ◌≡◌, List, [], ◌∷◌, ◌++◌, length, ◌⊎◌, inl,
  inr,
}
use microtun.Ymodem.{can, Arrival, arrived, interrupted, timed_out, failed}
use microtun.Ymodem.Receive.{
  Error, protocol, output_full, rejected, out_of_fuel, Receiver, M, ◌>>=◌,
}

-- After a step, by its result
abbrev pub Post :
    {A : Type 0}
    → (A → Receiver → Type 0)
    → (Error → Receiver → Type 0)
    → Receiver × (Error ⊎ A)
    → Type 0
Post Q E (s, inl e) = E e s
Post Q E (s, inr a) = Q a s

abbrev pub Triple :
    {A : Type 0}
    → (Receiver → Type 0)
    → M A
    → (A → Receiver → Type 0)
    → (Error → Receiver → Type 0)
    → Type 0
Triple P m Q E = (s : Receiver) → P s → Post Q E (m s)

module _ {A B : Type 0} (E : Error → Receiver → Type 0) where
  pub bind_at :
      (Q : A → Receiver → Type 0) (R : B → Receiver → Type 0) (f : A → M B)
      (r : Receiver × (Error ⊎ A))
      → ((a : A) → Triple (Q a) (f a) R E)
      → Post Q E r
      → Post R E (elim r.1 [ inl e ↦ (r.0, inl e) | inr a ↦ f a r.0 ])
  bind_at Q R f (s, inl e) k p = p
  bind_at Q R f (s, inr a) k p = k a s p

  pub Triple-bind :
      (P : Receiver → Type 0) (Q : A → Receiver → Type 0) (R : B → Receiver → Type 0) (m : M A)
      (f : A → M B)
      → Triple P m Q E
      → ((a : A) → Triple (Q a) (f a) R E)
      → Triple P (m >>= f) R E
  Triple-bind P Q R m f h k s p = bind_at Q R f (m s) k (h s p)

pub Post-map :
    {A : Type 0} (E : Error → Receiver → Type 0) (Q R : A → Receiver → Type 0)
    (r : Receiver × (Error ⊎ A))
    → ((a : A) (s : Receiver) → Q a s → R a s)
    → Post Q E r
    → Post R E r
Post-map E Q R (s, inl e) f p = p
Post-map E Q R (s, inr a) f p = f a s p

-- CAN CAN was sent last.
abbrev pub HasCancelled : Receiver → Type 0
HasCancelled s = (before : List ℕ) × (s.sent ≡ before ++ can ∷ can ∷ [])

-- The sender knows of the errors that are not the line's or its own.
abbrev pub IsTold : Error → Receiver → Type 0
IsTold protocol s = HasCancelled s
IsTold output_full s = HasCancelled s
IsTold rejected s = HasCancelled s
IsTold out_of_fuel s = ⊥
IsTold _ s = Unit {0}

-- The bytes that arrive in `xs`
unfoldable pub bytes_of : List Arrival → List ℕ
bytes_of [] = []
bytes_of (arrived b ∷ xs) = b ∷ bytes_of xs
bytes_of (_ ∷ xs) = bytes_of xs

-- What is known of a file and of what is still to arrive.
abbrev pub Fact : Type 1
Fact = List ℕ → List Arrival → Type 0

-- The fact stays when some of what is to arrive is passed over.
abbrev pub Passes : Fact → Type 0
Passes P = (file : List ℕ) (xs rest : List Arrival) → P file (xs ++ rest) → P file rest

-- The fact held before the bytes `bs` were read.
abbrev pub Window : Fact → List ℕ → Fact
Window P bs file rest = (xs : List Arrival) × (bytes_of xs ≡ bs) × P file (xs ++ rest)

-- A file stands in the sink after `base` and satisfies `P`, and at most `k` events are to arrive.
pub record IsAt (base : List ℕ) (P : Fact) (k : ℕ) (s : Receiver) : Type 0 where
  pub file : List ℕ
  pub holds : s.sink.output ≡ base ++ file
  pub fact : P file s.incoming
  pub left : length s.incoming ≤ k

-- Fewer than `k` are to arrive.
abbrev pub IsBelow : List ℕ → Fact → ℕ → Receiver → Type 0
IsBelow base P k s = IsAt base P k s × (length s.incoming < k)

pub IsAt-map :
    {base : List ℕ} {P Q : Fact} {k : ℕ} (s : Receiver)
    → ((file : List ℕ) (rest : List Arrival) → P file rest → Q file rest)
    → IsAt base P k s
    → IsAt base Q k s
IsAt-map s f p = record {
  file = p.file;
  holds = p.holds;
  fact = f p.file s.incoming p.fact;
  left = p.left;
}

-- A window is passed over.
pub IsAt-passed :
    {base : List ℕ} {P : Fact} {k : ℕ} (bs : List ℕ) (s : Receiver)
    → Passes P
    → IsAt base (Window P bs) k s
    → IsAt base P k s
IsAt-passed bs s pass p = IsAt-map s (λ file rest (xs, e, q). pass file xs rest q) p

pub bytes_of-append : (xs ys : List Arrival) → bytes_of (xs ++ ys) ≡ bytes_of xs ++ bytes_of ys
unfolding bytes_of
bytes_of-append [] ys = refl
bytes_of-append (arrived b ∷ xs) ys = ap (λ bs. b ∷ bs) (bytes_of-append xs ys)
bytes_of-append (interrupted ∷ xs) ys = bytes_of-append xs ys
bytes_of-append (timed_out ∷ xs) ys = bytes_of-append xs ys
bytes_of-append (failed ∷ xs) ys = bytes_of-append xs ys

-- Two windows, one behind the other
pub Window-append :
    (P : Fact) (cs bs file : List ℕ) (rest : List Arrival)
    → Window (Window P cs) bs file rest
    → Window P (cs ++ bs) file rest
Window-append P cs bs file rest (ys, f, (xs, e, p)) = (
  xs ++ ys,
  bytes_of-append xs ys ∙ (ap (λ ds. ds ++ bytes_of ys) e ∙ ap (λ ds. cs ++ ds) f),
  subst (P file) (sym (append_assoc xs ys rest)) p,
)
