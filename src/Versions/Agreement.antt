-- ===== src/Versions/Agreement.antt =====
-- Two peers that negotiate by src/connection/NegotiatedProtocolVersions.ts come to the same versions.
use mathlib.Core.Path.{subst}
use network_old.Base.{
  leb→le, ap, ℕ, ◌≤◌, leb, ◌≡◌, refl, ◌∙◌, sym, if◌then◌else◌, true, false, List, [], ◌∷◌, Option,
  none, some, ok, number_eq, contains, contains-keep_if, keep_if, is_empty, arith, Bool-cases, inl,
  inr,
}
use network_old.Versions.{
  ProtocolVersion, Supported, max_of, highest_shared, validate_protocol_versions,
}

-- What the maximum of the list is, by cases.
abbrev IsMax : List ℕ → Option ℕ → Type 0
IsMax xs none = xs ≡ []
IsMax xs (some m) = (contains xs m ≡ true) × ((x : ℕ) → contains xs x ≡ true → x ≤ m)

cons-IsMax :
    (x : ℕ) (xs : List ℕ) (o : Option ℕ)
    → IsMax xs o
    → IsMax (x ∷ xs) (elim o [ none ↦ some x | some m ↦ if leb x m then some m else some x ])
cons-IsMax x xs none h = (
  ground (arith, number_eq.equals_iff x x),
  λ y k. ground (arith, h, k, number_eq.equals_iff x y),
)
cons-IsMax x xs (some m) h =
    let higher : x ≤ m → IsMax (x ∷ xs) (some m) = λ below.
      (ground (arith, h.0), λ y k. ground (arith, h.1 y, k, below, number_eq.equals_iff x y)) in
    let lower : m ≤ x → IsMax (x ∷ xs) (some x) = λ above. (
      ground (arith, number_eq.equals_iff x x),
      λ y k. ground (arith, h.1 y, k, above, number_eq.equals_iff x y),
    ) in
    elim (Bool-cases (leb x m)) [
      | inl below ↦ rw (IsMax, below) (higher (leb→le x m below))
      | inr above ↦ rw (IsMax, above) (lower (ground arith))
    ]

max_of-IsMax : (xs : List ℕ) → IsMax xs (max_of xs)
unfolding max_of
max_of-IsMax [] = refl
max_of-IsMax (x ∷ xs) = cons-IsMax x xs (max_of xs) (max_of-IsMax xs)

IsMax-unique :
    (xs ys : List ℕ) (o p : Option ℕ)
    → ((x : ℕ) → contains xs x ≡ contains ys x)
    → IsMax xs o
    → IsMax ys p
    → o ≡ p
IsMax-unique xs ys none none same h k = refl
IsMax-unique xs ys none (some n) same h k = absurd (ground (arith, same n, h, k.0))
IsMax-unique xs ys (some m) none same h k = absurd (ground (arith, same m, h.0, k))
IsMax-unique xs ys (some m) (some n) same h k =
    ap some (omega (arith, h.1 n (same n ∙ k.0), k.1 m (sym (same m) ∙ h.0)))

highest_shared_comm :
    (mine theirs : List ℕ) → highest_shared mine theirs ≡ highest_shared theirs mine
unfolding highest_shared
highest_shared_comm mine theirs =
    let ours = keep_if (λ version. contains theirs version) mine in
    let others = keep_if (λ version. contains mine version) theirs in
    IsMax-unique ours others (max_of ours) (max_of others)
      (λ x. ground (
        arith,
        contains-keep_if (λ version. contains theirs version) mine x,
        contains-keep_if (λ version. contains mine version) theirs x,
      ))
      (max_of-IsMax ours) (max_of-IsMax others)

-- The highest version that stands in both lists.
abbrev pub IsHighest : List ℕ → List ℕ → ℕ → Type 0
IsHighest mine theirs n =
    (contains mine n ≡ true)
    × (contains theirs n ≡ true)
    × ((x : ℕ) → contains mine x ≡ true → contains theirs x ≡ true → x ≤ n)

highest_shared-IsHighest :
    (mine theirs : List ℕ) (n : ℕ) → highest_shared mine theirs ≡ some n → IsHighest mine theirs n
unfolding highest_shared
highest_shared-IsHighest mine theirs n q =
    let ours = keep_if (λ version. contains theirs version) mine in
    let shared = λ (x : ℕ). contains-keep_if (λ version. contains theirs version) mine x in
    let (there, highest) = subst (IsMax ours) q (max_of-IsMax ours) in
    (
      ground (arith, shared n, there),
      ground (arith, shared n, there),
      λ x a b. highest x (ground (arith, shared x, a, b)),
    )

is_empty_of_contains : (xs : List ℕ) (n : ℕ) → contains xs n ≡ true → is_empty xs ≡ false
is_empty_of_contains [] n h = cc
is_empty_of_contains (x ∷ xs) n h = refl

validate_protocol_versions-ok :
    (a b : Supported) (v : ProtocolVersion)
    → is_empty b.control_layer_versions ≡ false
    → is_empty b.message_layer_versions ≡ false
    → highest_shared a.control_layer_versions b.control_layer_versions
      ≡ some v.control_layer_version
    → highest_shared a.message_layer_versions b.message_layer_versions
      ≡ some v.message_layer_version
    → validate_protocol_versions a b.control_layer_versions b.message_layer_versions ≡ ok v
unfolding validate_protocol_versions
validate_protocol_versions-ok a b v c m h k = ground (arith, c, m, h, k)

validate_protocol_versions-highest :
    (a b : Supported) (v : ProtocolVersion)
    → validate_protocol_versions a b.control_layer_versions b.message_layer_versions ≡ ok v
    → (highest_shared a.control_layer_versions b.control_layer_versions
        ≡ some v.control_layer_version)
      × (highest_shared a.message_layer_versions b.message_layer_versions
          ≡ some v.message_layer_version)
unfolding validate_protocol_versions
validate_protocol_versions-highest a b v q = (ground arith, ground arith)

-- Where the negotiation of a node with its peer gives versions, that of the peer with the node gives
-- the same ones, and each is the highest that both support.
pub validate_protocol_versions_agree :
    (a b : Supported) (v : ProtocolVersion)
    → validate_protocol_versions a b.control_layer_versions b.message_layer_versions ≡ ok v
    → (validate_protocol_versions b a.control_layer_versions a.message_layer_versions ≡ ok v)
      × IsHighest a.control_layer_versions b.control_layer_versions v.control_layer_version
      × IsHighest a.message_layer_versions b.message_layer_versions v.message_layer_version
validate_protocol_versions_agree a b v q =
    let (control, message) = validate_protocol_versions-highest a b v q in
    let highest =
      highest_shared-IsHighest a.control_layer_versions b.control_layer_versions _ control in
    let highest' =
      highest_shared-IsHighest a.message_layer_versions b.message_layer_versions _ message in
    (
      validate_protocol_versions-ok b a v (is_empty_of_contains _ _ highest.0)
          (is_empty_of_contains _ _ highest'.0)
          (sym (highest_shared_comm a.control_layer_versions b.control_layer_versions) ∙ control)
          (sym (highest_shared_comm a.message_layer_versions b.message_layer_versions) ∙ message),
      highest,
      highest',
    )
