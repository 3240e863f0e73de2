-- ===== src/Base/Values.antt =====
-- Properties of all values of a dictionary.
use mathlib.Core.Bool.{Bool, true, false}
use mathlib.Core.List.{List, [], ◌∷◌}
use mathlib.Core.Option.{Option, none, some}
use network_old.Base.Equality.{Eq, ◌==◌}
use network_old.Base.Lists.{All, keep_if}
use network_old.Base.Tests.{if◌then◌else◌, if_elim}
use network_old.Base.Dicts.{Dict, lookup, insert, remove, update}

abbrev pub AllValues {ℓ κ ι} : {K : Type ℓ} {V : Type κ} → (V → Type ι) → Dict K V → Type ι
AllValues P m = All (λ p. P p.1) m

abbrev pub IfSome {ℓ κ} : {V : Type ℓ} → (V → Type κ) → Option V → Type κ
IfSome P none = Unit
IfSome P (some v) = P v

pub keep_if-All {ℓ κ} :
    {A : Type ℓ} (P : A → Type κ) (p : A → Bool) (xs : List A) → All P xs → All P (keep_if p xs)
keep_if-All P p [] h = h
keep_if-All P p (x ∷ xs) h =
    let kept : All P (x ∷ keep_if p xs) = (h.0, keep_if-All P p xs h.1) in
    if_elim (λ ys. All P ys) (p x) kept (keep_if-All P p xs h.1)

module _ {ℓ κ ι} {K : Type ℓ} {V : Type κ} ⦃e : Eq K⦄ (P : V → Type ι) where
  pub lookup-AllValues : (k : K) (m : Dict K V) → AllValues P m → IfSome P (lookup k m)
  unfolding lookup
  lookup-AllValues k [] h = tt
  lookup-AllValues k ((j, w) ∷ m) h =
      let there : IfSome P (some w) = h.0 in
      if_elim (λ o. IfSome P o) (j == k) there (lookup-AllValues k m h.1)

  pub insert-AllValues :
      (k : K) (v : V) (m : Dict K V) → P v → AllValues P m → AllValues P (insert k v m)
  unfolding insert
  insert-AllValues k v [] p h = (p, tt)
  insert-AllValues k v ((j, w) ∷ m) p h =
      let there : AllValues P ((j, v) ∷ m) = (p, h.1) in
      let later : AllValues P ((j, w) ∷ insert k v m) = (h.0, insert-AllValues k v m p h.1) in
      if_elim (λ (ys : Dict K V). AllValues P ys) (j == k) there later

  pub update-AllValues :
      (k : K) (f : V → V) (m : Dict K V)
      → ((v : V) → P v → P (f v))
      → AllValues P m
      → AllValues P (update k f m)
  unfolding update
  update-AllValues k f [] p h = h
  update-AllValues k f ((j, w) ∷ m) p h =
      let rest = update-AllValues k f m p h.1 in
      let there : AllValues P ((j, f w) ∷ update k f m) = (p w h.0, rest) in
      let later : AllValues P ((j, w) ∷ update k f m) = (h.0, rest) in over (j == k) there later
    where
      over :
          (b : Bool)
          → AllValues P ((j, f w) ∷ update k f m)
          → AllValues P ((j, w) ∷ update k f m)
          → AllValues P ((if b then (j, f w) else (j, w)) ∷ update k f m)
      over true x y = x
      over false x y = y

  pub remove-AllValues : (k : K) (m : Dict K V) → AllValues P m → AllValues P (remove k m)
  unfolding remove
  remove-AllValues k [] h = h
  remove-AllValues k ((j, w) ∷ m) h =
      let kept : AllValues P ((j, w) ∷ remove k m) = (h.0, remove-AllValues k m h.1) in
      if_elim (λ (ys : Dict K V). AllValues P ys) (j == k) (remove-AllValues k m h.1) kept
