-- ===== src/Prelude/All.antt =====
-- A predicate on every element of a list.
use Prim.Native.Nat.{ℕ, zero, suc}
use mathlib.Core.Path.{◌≡◌, subst}
use mathlib.Core.List.{List, [], ◌∷◌, ◌++◌}
use mathlib.Core.Option.{some}
use microtun.Prelude.Lists.{get_elem?, set}
use microtun.Prelude.Partial.{some-inj}

module _ {ℓ} {A : Type ℓ} where
  abbrev pub Every : (A → Type 0) → List A → Type 0
  Every P [] = Unit {0}
  Every P (x ∷ xs) = P x × Every P xs

  pub Every-get_elem? :
      (P : A → Type 0) (xs : List A) (i : ℕ) {x : A} → Every P xs → get_elem? xs i ≡ some x → P x
  Every-get_elem? P [] i e h = absurd (cc)
  Every-get_elem? P (x ∷ xs) zero e h = subst P (some-inj h) e.0
  Every-get_elem? P (x ∷ xs) (suc i) e h = Every-get_elem? P xs i e.1 h

  pub Every-set :
      (P : A → Type 0) (xs : List A) (i : ℕ) (x : A) → Every P xs → P x → Every P (set xs i x)
  Every-set P [] i x e p = tt
  Every-set P (y ∷ xs) zero x e p = (p, e.1)
  Every-set P (y ∷ xs) (suc i) x e p = (e.0, Every-set P xs i x e.1 p)

  pub Every-append :
      (P : A → Type 0) (xs : List A) (x : A) → Every P xs → P x → Every P (xs ++ x ∷ [])
  Every-append P [] x e p = (p, tt)
  Every-append P (y ∷ xs) x e p = (e.0, Every-append P xs x e.1 p)

  pub Every-map : (P Q : A → Type 0) (xs : List A) → ((x : A) → P x → Q x) → Every P xs → Every Q xs
  Every-map P Q [] f e = tt
  Every-map P Q (x ∷ xs) f e = (f x e.0, Every-map P Q xs f e.1)
