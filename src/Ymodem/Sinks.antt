-- ===== src/Ymodem/Sinks.antt =====
-- What `BufferSink` of microtun-ymodem/src/receive.rs holds after a write.
use microtun.Prelude.{
  append_assoc, append-nil, ℕ, zero, suc, ◌<◌, ◌≡◌, refl, ap, ◌∙◌, true, Option, none, some, List,
  [], ◌∷◌, ◌++◌, arith, if◌then◌else◌, length, ◌⊎◌, inl, inr, min, take, drop, take-append-drop,
  length-drop, ◌==◌,
}
use microtun.Ymodem.{BufferSink, write, write_all, remaining}

-- The two outcomes of a `write` of `count` bytes
write_at :
    (self : BufferSink) (bytes : List ℕ) (count : ℕ)
    → let r : Option (BufferSink × ℕ) =
        if count == 0
        then none
        else some (record self { output = self.output ++ take count bytes }, count) in
      (r ≡ none)
      ⊎ ((self' : BufferSink) × (n : ℕ) × (r ≡ some (self', suc n))
          × (self'.output ≡ self.output ++ take (suc n) bytes))
write_at self bytes zero = inl refl
write_at self bytes (suc n) =
    inr (record self { output = self.output ++ take (suc n) bytes }, n, ground arith, refl)

write_cases :
    (self : BufferSink) (b : ℕ) (bs : List ℕ)
    → (write self (b ∷ bs) ≡ none)
      ⊎ ((self' : BufferSink) × (count : ℕ) × (write self (b ∷ bs) ≡ some (self', suc count))
          × (self'.output ≡ self.output ++ take (suc count) (b ∷ bs)))
unfolding write
write_cases self b bs = write_at self (b ∷ bs) (min (length (b ∷ bs)) (remaining self))

-- `write_all` that succeeds has written all.
pub write_all-output :
    (fuel : ℕ) (self self' : BufferSink) (bytes : List ℕ)
    → length bytes < fuel
    → write_all fuel self bytes ≡ (self', true)
    → self'.output ≡ self.output ++ bytes
unfolding write_all
write_all-output zero self self' bytes h e = absurd (omega arith)
write_all-output (suc fuel) self self' [] h e = ground (arith, append-nil self.output)
write_all-output (suc fuel) self self' (b ∷ bs) h e = elim (write_cases self b bs) [
  | inl full ↦ absurd (ground (arith, full, e))
  | inr (next, count, w, put) ↦
      let rest =
        write_all-output fuel next self' (drop count bs) (omega (arith, length-drop {0} count bs))
          (ground (arith, w, e)) in
      rest
      ∙ ap (λ xs. xs ++ drop count bs) put
      ∙ append_assoc self.output (take (suc count) (b ∷ bs)) (drop count bs)
      ∙ ap (λ xs. self.output ++ b ∷ xs) (take-append-drop count bs)
]
