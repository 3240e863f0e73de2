-- ===== src/Base/Dicts.antt =====
-- Objects used as dictionaries and `Map`: entries in order of insertion, with one entry for a key.
-- Keys are taken to be no array indices (which an object would list first) and no names of
-- `Object.prototype`.
use mathlib.Core.Path.{◌≡◌, refl}
use mathlib.Core.Bool.{Bool, true, false, not, ◌&&◌, ◌||◌}
use mathlib.Core.List.{List, [], ◌∷◌}
use mathlib.Core.Option.{Option, none, some}
use mathlib.Core.Option
use native.Mathlib.Omega.{arith}
use network_old.Base.Equality.{Eq, ◌==◌}
use network_old.Base.Lists.{All, All-imp}
use network_old.Base.Tests.{if◌then◌else◌}
use network_old.Base.Sets.{contains, Distinct}

abbrev pub Dict {ℓ κ} : Type ℓ → Type κ → Type (ℓ ⊔ κ)
Dict K V = List (K × V)

abbrev pub is_some {ℓ} : {A : Type ℓ} → Option A → Bool
is_some none = false
is_some (some a) = true

module _ {ℓ κ} {K : Type ℓ} {V : Type κ} where
  -- `Object.keys`, and `keys` of a `Map`.
  abbrev pub keys : Dict K V → List K
  keys [] = []
  keys ((k, v) ∷ m) = k ∷ keys m

  -- `Object.values`.
  abbrev pub values : Dict K V → List V
  values [] = []
  values ((k, v) ∷ m) = v ∷ values m

  -- A loop over the entries that gives each key a new value.
  unfoldable pub map_values : (K → V → V) → Dict K V → Dict K V
  map_values f [] = []
  map_values f ((k, v) ∷ m) = (k, f k v) ∷ map_values f m

module _ {ℓ κ} {K : Type ℓ} {V : Type κ} ⦃e : Eq K⦄ where
  -- `m[k]`, where `none` stands for `undefined`.
  unfoldable pub lookup : K → Dict K V → Option V
  lookup k [] = none
  lookup k (p ∷ m) = if p.0 == k then some p.1 else lookup k m

  -- `m[k] = v`.
  unfoldable pub insert : K → V → Dict K V → Dict K V
  insert k v [] = (k, v) ∷ []
  insert k v (p ∷ m) = if p.0 == k then (p.0, v) ∷ m else p ∷ insert k v m

  -- `delete m[k]`.
  unfoldable pub remove : K → Dict K V → Dict K V
  remove k [] = []
  remove k ((j, w) ∷ m) = if j == k then remove k m else (j, w) ∷ remove k m

  -- `k in m`, and `has` of a `Map`.
  unfoldable pub has_key : K → Dict K V → Bool
  unfolding lookup
  has_key k m = is_some (lookup k m)

  -- A change of the value at a key that is there.
  unfoldable pub update : K → (V → V) → Dict K V → Dict K V
  update k f [] = []
  update k f ((j, v) ∷ m) = (if j == k then (j, f v) else (j, v)) ∷ update k f m

  pub lookup-nil : (k : K) → lookup k [] ≡ none
  unfolding lookup
  lookup-nil k = refl

  pub lookup_of_absent_key :
      (k : K) (m : Dict K V) → contains (keys m) k ≡ false → lookup k m ≡ none
  unfolding lookup
  lookup_of_absent_key k [] h = refl
  lookup_of_absent_key k ((j, v) ∷ m) h = ground (arith, lookup_of_absent_key k m)

  pub lookup-insert :
      (k j : K) (v : V)
      → (m : Dict K V) → lookup j (insert k v m) ≡ (if k == j then some v else lookup j m)
  unfolding lookup insert
  lookup-insert k j v [] = refl
  lookup-insert k j v (p ∷ m) =
      ground
        (arith, lookup-insert k j v m, e.equals_iff p.0 j, e.equals_iff p.0 k, e.equals_iff k j)

  pub lookup-remove :
      (k j : K) (m : Dict K V) → lookup j (remove k m) ≡ (if k == j then none else lookup j m)
  unfolding lookup remove
  lookup-remove k j [] = ground arith
  lookup-remove k j ((i, w) ∷ m) =
      ground (arith, e.equals_iff k j, e.equals_iff i k, e.equals_iff i j, lookup-remove k j m)

  pub lookup-update :
      (k j : K) (f : V → V) (m : Dict K V)
      → lookup j (update k f m) ≡ (if k == j then Option.map f (lookup j m) else lookup j m)
  unfolding lookup update
  lookup-update k j f [] = ground arith
  lookup-update k j f ((i, w) ∷ m) =
      ground (arith, e.equals_iff k j, e.equals_iff i k, e.equals_iff i j, lookup-update k j f m)

  pub lookup-map_values :
      (j : K) (f : K → V → V) (m : Dict K V)
      → lookup j (map_values f m) ≡ Option.map (f j) (lookup j m)
  unfolding lookup map_values
  lookup-map_values j f [] = refl
  lookup-map_values j f ((i, w) ∷ m) = ground (arith, e.equals_iff i j, lookup-map_values j f m)

  pub contains-keys : (k : K) (m : Dict K V) → contains (keys m) k ≡ has_key k m
  unfolding lookup has_key
  contains-keys k [] = refl
  contains-keys k ((i, w) ∷ m) = ground (arith, contains-keys k m)

  pub keys-update : (k : K) (f : V → V) (m : Dict K V) → keys (update k f m) ≡ keys m
  unfolding update
  keys-update k f [] = refl
  keys-update k f ((i, w) ∷ m) = ground (arith, keys-update k f m)

  pub contains-keys-insert :
      (k : K) (v : V) (m : Dict K V) (j : K)
      → contains (keys (insert k v m)) j ≡ ((k == j) || contains (keys m) j)
  unfolding insert
  contains-keys-insert k v [] j = refl
  contains-keys-insert k v ((i, w) ∷ m) j =
      ground (arith, contains-keys-insert k v m j, e.equals_iff i k)

  pub contains-keys-remove :
      (k : K) (m : Dict K V) (j : K)
      → contains (keys (remove k m)) j ≡ (not (k == j) && contains (keys m) j)
  unfolding remove
  contains-keys-remove k [] j = ground arith
  contains-keys-remove k ((i, w) ∷ m) j =
      ground
        (arith, contains-keys-remove k m j, e.equals_iff i k, e.equals_iff k j, e.equals_iff i j)

  -- No key stands twice.
  abbrev pub IsKeyed : Dict K V → Type 0
  IsKeyed m = Distinct (keys m)

  pub update-IsKeyed : (k : K) (f : V → V) (m : Dict K V) → IsKeyed m → IsKeyed (update k f m)
  update-IsKeyed k f m d = rw (keys-update k f m) d

  pub insert-IsKeyed : (k : K) (v : V) (m : Dict K V) → IsKeyed m → IsKeyed (insert k v m)
  unfolding insert
  insert-IsKeyed k v [] d = (refl, tt)
  insert-IsKeyed k v ((i, w) ∷ m) d = ground (
    arith,
    insert-IsKeyed k v m d.1,
    contains-keys-insert k v m i,
    e.equals_iff k i,
    e.equals_iff i k,
  )

  pub remove-IsKeyed : (k : K) (m : Dict K V) → IsKeyed m → IsKeyed (remove k m)
  unfolding remove
  remove-IsKeyed k [] d = tt
  remove-IsKeyed k ((i, w) ∷ m) d =
      ground (arith, remove-IsKeyed k m d.1, contains-keys-remove k m i)

  pub All-keys : (m : Dict K V) → All (λ p. contains (keys m) p.0 ≡ true) m
  All-keys [] = tt
  All-keys ((k, v) ∷ m) = (
    ground (arith, e.equals_iff k k),
    All-imp (λ p. contains (keys m) p.0 ≡ true) (λ p. contains (k ∷ keys m) p.0 ≡ true) m
        (λ p h. ground (arith, h)) (All-keys m),
  )

  pub has_key-insert :
      (k : K) (v : V) (m : Dict K V) (j : K) → has_key j (insert k v m) ≡ ((k == j) || has_key j m)
  unfolding has_key
  has_key-insert k v m j = ground (arith, lookup-insert k j v m)
