-- ===== src/Base/Sets.antt =====
-- `Set` of the language: a list in order of insertion, in which nothing stands twice.
use Prim.Native.Nat.{ℕ, zero, suc, ◌+◌, ◌-◌, ◌≤◌, ◌<◌}
use mathlib.Core.Path.{◌≡◌, refl}
use mathlib.Core.Bool.{Bool, true, false, not, ◌&&◌, ◌||◌}
use mathlib.Core.List.{List, [], ◌∷◌, ◌++◌}
use native.Mathlib.Omega.{arith}
use network_old.Base.Equality.{Eq, ◌==◌}
use network_old.Base.Tests.{if◌then◌else◌}
use network_old.Base.Lists.{length, keep_if, take, length-keep_if-le}

module _ {ℓ} {A : Type ℓ} ⦃e : Eq A⦄ where
  -- `Set.prototype.has`, and `includes` of an array.
  abbrev pub contains : List A → A → Bool
  contains [] a = false
  contains (x ∷ xs) a = (x == a) || contains xs a

  -- `Set.prototype.add`: a new element goes to the end.
  unfoldable pub add : List A → A → List A
  add xs a = if contains xs a then xs else xs ++ a ∷ []

  -- `Set.prototype.delete`.
  unfoldable pub delete : List A → A → List A
  delete xs a = keep_if (λ x. not (x == a)) xs

  unfoldable pub add_all : List A → List A → List A
  unfolding add
  add_all xs [] = xs
  add_all xs (y ∷ ys) = add_all (add xs y) ys

  -- `new Set(array)`.
  unfoldable pub of_list : List A → List A
  unfolding add_all
  of_list = add_all []

  abbrev pub Distinct : List A → Type 0
  Distinct [] = Unit
  Distinct (x ∷ xs) = (contains xs x ≡ false) × Distinct xs

  pub contains-append :
      (xs ys : List A) (a : A) → contains (xs ++ ys) a ≡ (contains xs a || contains ys a)
  contains-append [] ys a = refl
  contains-append (x ∷ xs) ys a = ground (arith, contains-append xs ys a)

  pub contains-add : (xs : List A) (a b : A) → contains (add xs a) b ≡ ((a == b) || contains xs b)
  unfolding add
  contains-add xs a b = ground (arith, contains-append xs (a ∷ []) b, e.equals_iff a b)

  pub contains-keep_if :
      (p : A → Bool) (xs : List A) (b : A) → contains (keep_if p xs) b ≡ (p b && contains xs b)
  contains-keep_if p [] b = ground arith
  contains-keep_if p (x ∷ xs) b = ground (arith, contains-keep_if p xs b, e.equals_iff x b)

  pub contains-delete :
      (xs : List A) (a b : A) → contains (delete xs a) b ≡ (not (b == a) && contains xs b)
  unfolding delete
  contains-delete xs a b = contains-keep_if (λ x. not (x == a)) xs b

  pub contains-add_all :
      (xs ys : List A) (b : A) → contains (add_all xs ys) b ≡ (contains xs b || contains ys b)
  unfolding add_all
  contains-add_all xs [] b = ground arith
  contains-add_all xs (y ∷ ys) b =
      ground (arith, contains-add_all (add xs y) ys b, contains-add xs y b)

  pub contains-of_list : (xs : List A) (b : A) → contains (of_list xs) b ≡ contains xs b
  unfolding of_list
  contains-of_list xs b = contains-add_all [] xs b

  pub keep_if-Distinct : (p : A → Bool) (xs : List A) → Distinct xs → Distinct (keep_if p xs)
  keep_if-Distinct p [] d = tt
  keep_if-Distinct p (x ∷ xs) d = ground (arith, keep_if-Distinct p xs d.1, contains-keep_if p xs x)

  pub delete-Distinct : (xs : List A) (a : A) → Distinct xs → Distinct (delete xs a)
  unfolding delete
  delete-Distinct xs a d = keep_if-Distinct _ xs d

  pub snoc-Distinct :
      (xs : List A) (a : A) → contains xs a ≡ false → Distinct xs → Distinct (xs ++ a ∷ [])
  snoc-Distinct [] a h d = (refl, tt)
  snoc-Distinct (x ∷ xs) a h d =
      ground (
        arith,
        snoc-Distinct xs a,
        contains-append xs (a ∷ []) x,
        e.equals_iff x a,
        e.equals_iff a x,
      )

  pub add-Distinct : (xs : List A) (a : A) → Distinct xs → Distinct (add xs a)
  unfolding add
  add-Distinct xs a d = ground (arith, snoc-Distinct xs a)

  pub add_all-Distinct : (xs ys : List A) → Distinct xs → Distinct (add_all xs ys)
  unfolding add_all
  add_all-Distinct xs [] d = d
  add_all-Distinct xs (y ∷ ys) d = add_all-Distinct (add xs y) ys (add-Distinct xs y d)

  pub of_list-Distinct : (xs : List A) → Distinct (of_list xs)
  unfolding of_list
  of_list-Distinct xs = add_all-Distinct [] xs tt

  snoc-length : (xs : List A) (a : A) → length (xs ++ a ∷ []) ≡ suc (length xs)
  snoc-length [] a = refl
  snoc-length (x ∷ xs) a = omega (arith, snoc-length xs a)

  pub length-add :
      (xs : List A) (a : A)
      → length (add xs a) ≡ (if contains xs a then length xs else suc (length xs))
  unfolding add
  length-add xs a = ground (arith, snoc-length xs a)

  keep_if_all : (a : A) (xs : List A) → contains xs a ≡ false → keep_if (λ x. not (x == a)) xs ≡ xs
  keep_if_all a [] h = refl
  keep_if_all a (x ∷ xs) h = ground (arith, keep_if_all a xs)

  pub length_pos_of_contains : (xs : List A) (a : A) → contains xs a ≡ true → 0 < length xs
  length_pos_of_contains [] a h = cc
  length_pos_of_contains (x ∷ xs) a h = omega arith

  pub length-delete :
      (xs : List A) (a : A)
      → Distinct xs
      → length (delete xs a) ≡ (if contains xs a then length xs - 1 else length xs)
  unfolding delete
  length-delete [] a d = refl
  length-delete (x ∷ xs) a d = ground (
    arith,
    e.equals_iff x a,
    length-delete xs a d.1,
    keep_if_all a xs,
    length_pos_of_contains xs a,
  )

  pub length-add_all-le : (xs ys : List A) → length (add_all xs ys) ≤ length xs + length ys
  unfolding add_all
  length-add_all-le xs [] = omega arith
  length-add_all-le xs (y ∷ ys) = ground (arith, length-add_all-le (add xs y) ys, length-add xs y)

  length-delete-lt : (xs : List A) (a : A) → contains xs a ≡ true → length (delete xs a) < length xs
  unfolding delete
  length-delete-lt [] a h = cc
  length-delete-lt (x ∷ xs) a h =
      ground (arith, length-delete-lt xs a, length-keep_if-le (λ x. not (x == a)) xs)

  -- Distinct elements that all stand in another list are no more than that list has.
  pub length-le_of_contains :
      (xs ys : List A)
      → Distinct xs
      → ((a : A) → contains xs a ≡ true → contains ys a ≡ true)
      → length xs ≤ length ys
  length-le_of_contains [] ys d h = omega arith
  length-le_of_contains (x ∷ xs) ys d h =
      let here = h x (ground (arith, e.equals_iff x x)) in
      omega (
        arith,
        length-delete-lt ys x here,
        length-le_of_contains xs (delete ys x) d.1
            (λ a k. ground (arith, contains-delete ys x a, h a, k, d.0, e.equals_iff a x)),
      )

  pub contains-take :
      (n : ℕ) (xs : List A) (a : A) → contains (take n xs) a ≡ true → contains xs a ≡ true
  contains-take zero xs a h = cc
  contains-take (suc n) [] a h = h
  contains-take (suc n) (x ∷ xs) a h = ground (arith, contains-take n xs a)
