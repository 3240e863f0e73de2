-- ===== src/Base/Sorting.antt =====
-- `Array.prototype.sort`: insertion by a Boolean test, which keeps the order of equals.
use mathlib.Core.Path.{◌≡◌, refl, ◌∙◌}
use mathlib.Core.Bool.{Bool, false, ◌||◌}
use mathlib.Core.List.{List, [], ◌∷◌}
use native.Mathlib.Omega.{arith}
use network_old.Base.Equality.{Eq, ◌==◌}
use network_old.Base.Tests.{if◌then◌else◌}
use network_old.Base.Sets.{contains, Distinct}

module _ {ℓ} {A : Type ℓ} (below : A → A → Bool) where
  insert_sorted : A → List A → List A
  insert_sorted a [] = a ∷ []
  insert_sorted a (x ∷ xs) = if below x a then x ∷ insert_sorted a xs else a ∷ x ∷ xs

  unfoldable pub sort : List A → List A
  unfolding insert_sorted
  sort [] = []
  sort (x ∷ xs) = insert_sorted x (sort xs)

module _ {ℓ} {A : Type ℓ} ⦃e : Eq A⦄ (below : A → A → Bool) where
  contains-insert_sorted :
      (a : A) (xs : List A) (b : A)
      → contains (insert_sorted below a xs) b ≡ ((a == b) || contains xs b)
  unfolding insert_sorted
  contains-insert_sorted a [] b = refl
  contains-insert_sorted a (x ∷ xs) b = ground (arith, contains-insert_sorted a xs b)

  pub contains-sort : (xs : List A) (b : A) → contains (sort below xs) b ≡ contains xs b
  unfolding sort
  contains-sort [] b = refl
  contains-sort (x ∷ xs) b =
      ground (arith, contains-sort xs b, contains-insert_sorted x (sort below xs) b)

  insert_sorted-Distinct :
      (a : A) (xs : List A)
      → contains xs a ≡ false
      → Distinct xs
      → Distinct (insert_sorted below a xs)
  unfolding insert_sorted
  insert_sorted-Distinct a [] h d = (refl, tt)
  insert_sorted-Distinct a (x ∷ xs) h d = ground (
    arith,
    insert_sorted-Distinct a xs,
    contains-insert_sorted a xs x,
    e.equals_iff a x,
    e.equals_iff x a,
  )

  pub sort-Distinct : (xs : List A) → Distinct xs → Distinct (sort below xs)
  unfolding sort
  sort-Distinct [] d = tt
  sort-Distinct (x ∷ xs) d =
      insert_sorted-Distinct x (sort below xs) (contains-sort xs x ∙ d.0) (sort-Distinct xs d.1)
