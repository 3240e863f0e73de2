-- ===== src/Buffer/Timers.antt =====
-- The timers of src/helpers/MessageBuffer.ts.
use network_old.Base.{
  ℕ, ◌≤◌, ◌≡◌, refl, if◌then◌else◌, Bool, true, false, List, [], ◌∷◌, ◌++◌, Option, none, some,
  length, Eq, ◌==◌, number_eq, Dict, lookup, remove, lookup-insert, lookup-remove, arith,
  Option-cases, inl, inr, length-append, contains, contains-append, Distinct, snoc-Distinct,
}
use network_old.Buffer.{
  MessageBuffer, or_none, shift, pop, pop_from, pop_all, push, with_array, clear_all,
}
use network_old.Buffer.Contents.{contents}

abbrev pub is_just : {K : Type 0} ⦃e : Eq K⦄ → Option K → K → Bool
is_just none k = false
is_just (some j) k = j == k

is_just-same :
    {K : Type 0} ⦃e : Eq K⦄ (o : Option K) (k j : K)
    → is_just o k ≡ true
    → is_just o j ≡ true
    → (k == j) ≡ true
is_just-same none k j h g = cc
is_just-same ⦃e⦄ (some i) k j h g =
    ground (arith, e.equals_iff i k, e.equals_iff i j, e.equals_iff k j)

lookup-clear_all :
    {K : Type 0} (rs : List ℕ) (armed : Dict ℕ K) (s : ℕ)
    → lookup s (clear_all rs armed) ≡ (if contains rs s then none else lookup s armed)
lookup-clear_all [] armed s = refl
lookup-clear_all (r ∷ rs) armed s =
    ground (arith, lookup-clear_all rs (remove r armed) s, lookup-remove r s armed)

module _ {K M : Type 0} ⦃e : Eq K⦄ where
  abbrev pub refs : MessageBuffer K M → K → List ℕ
  refs b k = or_none (lookup k b.timeout_refs)

  -- Each id has as many timers as messages, they are all different, and they are the timers that
  -- are armed for the id. A new timer has not been used.
  pub record IsTimed (b : MessageBuffer K M) : Type 0 where
    pub aligned : (k : K) → length (refs b k) ≡ length (contents b k)
    pub distinct : (k : K) → Distinct (refs b k)
    pub armed : (k : K) (r : ℕ) → contains (refs b k) r ≡ is_just (lookup r b.armed) k
    pub fresh : (r : ℕ) → b.next_ref ≤ r → lookup r b.armed ≡ none

  pop_from-IsTimed :
      (b : MessageBuffer K M) (k : K) (messages : List M)
      → lookup k b.buffer ≡ some messages
      → IsTimed b
      → IsTimed (pop_from b k messages).0
  unfolding pop_from contents
  pop_from-IsTimed b k messages h v = go (refs b k) refl
    where
      go : (rs : List ℕ) → refs b k ≡ rs → IsTimed (pop_from b k messages).0
      go [] q = record {
        aligned = λ j. ground (
          arith,
          q,
          h,
          v.aligned k,
          v.aligned j,
          e.equals_iff k j,
          lookup-remove k j b.buffer,
          lookup-insert k j (shift messages).1 b.buffer,
          lookup-insert k j [] b.timeout_refs,
        );
        distinct = λ j. ground (arith, q, v.distinct j, lookup-insert k j [] b.timeout_refs);
        armed = λ j s.
            ground (arith, q, v.armed j s, e.equals_iff k j, lookup-insert k j [] b.timeout_refs);
        fresh = λ s late. ground (arith, v.fresh s late, q);
      }
      go (r ∷ rs) q = record {
        aligned = λ j. ground (
          arith,
          q,
          h,
          v.aligned k,
          v.aligned j,
          e.equals_iff k j,
          lookup-remove k j b.buffer,
          lookup-insert k j (shift messages).1 b.buffer,
          lookup-insert k j rs b.timeout_refs,
        );
        distinct =
            λ j. ground (arith, q, v.distinct k, v.distinct j, lookup-insert k j rs b.timeout_refs);
        armed = λ j s. ground (
          arith,
          q,
          v.armed k r,
          v.armed k s,
          v.armed j s,
          v.armed j r,
          e.equals_iff k j,
          lookup-insert k j rs b.timeout_refs,
          lookup-remove r s b.armed,
          v.distinct k,
          number_eq.equals_iff r s,
          is_just-same (lookup r b.armed) k j,
        );
        fresh = λ s late. ground (arith, v.fresh s late, lookup-remove r s b.armed, q);
      }

  pub pop-IsTimed : (b : MessageBuffer K M) (k : K) → IsTimed b → IsTimed (pop b k).0
  unfolding pop
  pop-IsTimed b k v = elim (Option-cases (lookup k b.buffer)) [
    | inl h ↦ rw (pop, h) v
    | inr (messages, h) ↦ rw (pop, h) (pop_from-IsTimed b k messages h v)
  ]

  pub with_array-IsTimed : (b : MessageBuffer K M) (k : K) → IsTimed b → IsTimed (with_array b k)
  unfolding with_array contents
  with_array-IsTimed b k v = elim (Option-cases (lookup k b.buffer)) [
    | inl h ↦
        let none_left : refs b k ≡ [] = ground (arith, h, v.aligned k) in
        rw (with_array, h)
          (record {
            aligned = λ j. ground (
              arith,
              h,
              none_left,
              v.aligned j,
              e.equals_iff k j,
              lookup-insert k j [] b.buffer,
              lookup-insert k j [] b.timeout_refs,
            );
            distinct = λ j. ground (arith, v.distinct j, lookup-insert k j [] b.timeout_refs);
            armed = λ j s. ground (
              arith,
              none_left,
              v.armed j s,
              e.equals_iff k j,
              lookup-insert k j [] b.timeout_refs,
            );
            fresh = v.fresh;
          })
    | inr (messages, h) ↦ rw (with_array, h) v
  ]

  pub push-IsTimed : (b : MessageBuffer K M) (k : K) (m : M) → IsTimed b → IsTimed (push b k m).0
  unfolding push contents
  push-IsTimed b k m v = elim (Option-cases (lookup k b.buffer)) [
    | inl h ↦ rw (push, h) v
    | inr (messages, h) ↦
        let r = b.next_ref in
        let unused : lookup r b.armed ≡ none = v.fresh r (omega arith) in
        let longer = refs b k ++ r ∷ [] in
        rw (push, h)
          (record {
            aligned = λ j. ground (
              arith,
              h,
              v.aligned k,
              v.aligned j,
              e.equals_iff k j,
              lookup-insert k j (messages ++ m ∷ []) b.buffer,
              lookup-insert k j longer b.timeout_refs,
              length-append (refs b k) (r ∷ []),
              length-append messages (m ∷ []),
            );
            distinct = λ j. ground (
              arith,
              v.distinct j,
              lookup-insert k j longer b.timeout_refs,
              e.equals_iff k j,
              snoc-Distinct (refs b k) r,
              v.distinct k,
              v.armed k r,
              unused,
            );
            armed = λ j s. ground (
              arith,
              v.armed j s,
              e.equals_iff k j,
              lookup-insert k j longer b.timeout_refs,
              lookup-insert r s k b.armed,
              contains-append (refs b k) (r ∷ []) s,
              number_eq.equals_iff r s,
              unused,
              v.armed k s,
            );
            fresh = λ s late.
                ground
                  (arith, v.fresh s, late, lookup-insert r s k b.armed, number_eq.equals_iff r s);
          })
  ]

  pub pop_all-IsTimed : (b : MessageBuffer K M) (k : K) → IsTimed b → IsTimed (pop_all b k).0
  unfolding pop_all contents
  pop_all-IsTimed b k v = elim (Option-cases (lookup k b.buffer)) [
    | inl h ↦ rw (pop_all, h) v
    | inr (messages, h) ↦
        rw (pop_all, h)
          (record {
            aligned = λ j. ground (
              arith,
              v.aligned j,
              e.equals_iff k j,
              lookup-remove k j b.buffer,
              lookup-remove k j b.timeout_refs,
            );
            distinct = λ j. ground (arith, v.distinct j, lookup-remove k j b.timeout_refs);
            armed = λ j s. ground (
              arith,
              v.armed j s,
              v.armed k s,
              e.equals_iff k j,
              lookup-remove k j b.timeout_refs,
              lookup-clear_all (refs b k) b.armed s,
              is_just-same (lookup s b.armed) k j,
            );
            fresh = λ s late. ground (arith, v.fresh s late, lookup-clear_all (refs b k) b.armed s);
          })
  ]
