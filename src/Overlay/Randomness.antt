-- ===== src/Overlay/Randomness.antt =====
-- `shuffleArray` and `pickRandomElement` of src/logic/OverlayTopology.ts, over random numbers that
-- are taken from outside: their order is all that the shuffle reads of them.
use Prim.Native.Nat.{◌%◌}
use network_old.Base.{
  ℕ, zero, suc, leb, ◌≡◌, refl, ◌∙◌, true, false, ◌||◌, List, [], ◌∷◌, arith, Eq, ◌==◌, contains,
  Distinct, length, if◌then◌else◌,
}
use network_old.Overlay.{Choices}
use network_old.Overlay.Instructions.{IsChoice}

module _ {N : Type 0} where
  -- Each element with a random number.
  pub with_keys : (ℕ → ℕ) → ℕ → List N → List (ℕ × N)
  with_keys random i [] = []
  with_keys random i (x ∷ xs) = (random i, x) ∷ with_keys random (suc i) xs

  -- The language's sort, which is stable, by the numbers.
  insert_by_key : ℕ × N → List (ℕ × N) → List (ℕ × N)
  insert_by_key p [] = p ∷ []
  insert_by_key p (q ∷ qs) = if leb p.0 q.0 then p ∷ q ∷ qs else q ∷ insert_by_key p qs

  sort_by_key : List (ℕ × N) → List (ℕ × N)
  unfolding insert_by_key
  sort_by_key [] = []
  sort_by_key (p ∷ ps) = insert_by_key p (sort_by_key ps)

  abbrev elements : List (ℕ × N) → List N
  elements [] = []
  elements (p ∷ ps) = p.1 ∷ elements ps

  pub shuffle_array : (ℕ → ℕ) → List N → List N
  unfolding with_keys sort_by_key
  shuffle_array random xs = elements (sort_by_key (with_keys random 0 xs))

  abbrev at_index : ℕ → N → List N → N
  at_index zero x xs = x
  at_index (suc i) x [] = x
  at_index (suc i) x (y ∷ ys) = at_index i y ys

  -- The element at a random index below the length.
  pub pick_random_element : ℕ → N → List N → N
  pick_random_element random x xs = at_index (random % suc (length xs)) x xs

  -- The constructor's default functions, with random numbers of their own for each call.
  unfoldable pub default_choices : (ℕ → ℕ → ℕ) → (ℕ → ℕ) → Choices N
  unfolding shuffle_array pick_random_element
  default_choices shuffles picks = record {
    shuffle_array = λ k xs. shuffle_array (shuffles k) xs;
    pick_random_element = λ k x xs. pick_random_element (picks k) x xs;
  }

module _ {N : Type 0} ⦃e : Eq N⦄ where
  contains-with_keys :
      (random : ℕ → ℕ) (i : ℕ) (xs : List N) (a : N)
      → contains (elements (with_keys random i xs)) a ≡ contains xs a
  unfolding with_keys
  contains-with_keys random i [] a = refl
  contains-with_keys random i (x ∷ xs) a = ground (arith, contains-with_keys random (suc i) xs a)

  contains-insert_by_key :
      (p : ℕ × N) (qs : List (ℕ × N)) (a : N)
      → contains (elements (insert_by_key p qs)) a ≡ ((p.1 == a) || contains (elements qs) a)
  unfolding insert_by_key
  contains-insert_by_key p [] a = refl
  contains-insert_by_key p (q ∷ qs) a = ground (arith, contains-insert_by_key p qs a)

  contains-sort_by_key :
      (ps : List (ℕ × N)) (a : N)
      → contains (elements (sort_by_key ps)) a ≡ contains (elements ps) a
  unfolding sort_by_key
  contains-sort_by_key [] a = refl
  contains-sort_by_key (p ∷ ps) a =
      ground (arith, contains-insert_by_key p (sort_by_key ps) a, contains-sort_by_key ps a)

  with_keys-Distinct :
      (random : ℕ → ℕ) (i : ℕ) (xs : List N)
      → Distinct xs
      → Distinct (elements (with_keys random i xs))
  unfolding with_keys
  with_keys-Distinct random i [] d = tt
  with_keys-Distinct random i (x ∷ xs) d =
      (contains-with_keys random (suc i) xs x ∙ d.0, with_keys-Distinct random (suc i) xs d.1)

  insert_by_key-Distinct :
      (p : ℕ × N) (qs : List (ℕ × N))
      → contains (elements qs) p.1 ≡ false
      → Distinct (elements qs)
      → Distinct (elements (insert_by_key p qs))
  unfolding insert_by_key
  insert_by_key-Distinct p [] h d = (refl, tt)
  insert_by_key-Distinct p (q ∷ qs) h d = ground (
    arith,
    insert_by_key-Distinct p qs,
    contains-insert_by_key p qs q.1,
    e.equals_iff p.1 q.1,
    e.equals_iff q.1 p.1,
  )

  sort_by_key-Distinct :
      (ps : List (ℕ × N)) → Distinct (elements ps) → Distinct (elements (sort_by_key ps))
  unfolding sort_by_key
  sort_by_key-Distinct [] d = tt
  sort_by_key-Distinct (p ∷ ps) d =
      insert_by_key-Distinct p (sort_by_key ps) (contains-sort_by_key ps p.1 ∙ d.0)
        (sort_by_key-Distinct ps d.1)

  contains-at_index : (i : ℕ) (x : N) (xs : List N) → contains (x ∷ xs) (at_index i x xs) ≡ true
  contains-at_index zero x xs = ground (arith, e.equals_iff x x)
  contains-at_index (suc i) x [] = ground (arith, e.equals_iff x x)
  contains-at_index (suc i) x (y ∷ ys) = ground (arith, contains-at_index i y ys)

  -- The default functions are what `formInstructions` relies on, whatever the random numbers: a
  -- shuffled array holds the same nodes, none twice, and a picked node is one of the array.
  pub default_choices-IsChoice :
      (shuffles : ℕ → ℕ → ℕ) (picks : ℕ → ℕ) → IsChoice (default_choices {N = N} shuffles picks)
  unfolding default_choices
  default_choices-IsChoice shuffles picks = record {
    shuffled = λ k xs a.
        contains-sort_by_key (with_keys (shuffles k) 0 xs) a
        ∙ contains-with_keys (shuffles k) 0 xs a;
    shuffled_distinct = λ k xs d.
        sort_by_key-Distinct (with_keys (shuffles k) 0 xs) (with_keys-Distinct (shuffles k) 0 xs d);
    picked = λ k x xs. contains-at_index (picks k % suc (length xs)) x xs;
  }
