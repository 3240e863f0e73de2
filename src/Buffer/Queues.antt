-- ===== src/Buffer/Queues.antt =====
-- Histories of the calls of src/helpers/MessageBuffer.ts for one id.
use network_old.Base.{
  ℕ, leb, ◌≡◌, if◌then◌else◌, List, [], ◌∷◌, length, Eq, ◌==◌, lookup, lookup-remove, arith,
  Option-cases, inl, inr,
}
use network_old.Buffer.{MessageBuffer, put, pop_all}
use network_old.Buffer.Contents.{contents}

module _ {M : Type 0} where
  -- The last messages, at most so many.
  abbrev pub newest : ℕ → List M → List M
  newest max [] = []
  newest max (x ∷ xs) = if leb (length (x ∷ xs)) max then x ∷ xs else newest max xs

module _ {K M : Type 0} ⦃e : Eq K⦄ where
  abbrev pub put_all : MessageBuffer K M → K → List M → MessageBuffer K M
  put_all b k [] = b
  put_all b k (m ∷ ms) = put_all (put b k m).0 k ms

  pub max_size-pop_all : (b : MessageBuffer K M) (k : K) → (pop_all b k).0.max_size ≡ b.max_size
  unfolding pop_all
  max_size-pop_all b k = elim (Option-cases (lookup k b.buffer)) [
    | inl h ↦ ground (arith, h)
    | inr (messages, h) ↦ ground (arith, h)
  ]

  -- `popAll` returns the messages that wait under the id, and takes them and no others away.
  pub pop_all_lem :
      (b : MessageBuffer K M) (k j : K)
      → ((pop_all b k).1 ≡ contents b k)
        × (contents (pop_all b k).0 j ≡ (if k == j then [] else contents b j))
  unfolding pop_all contents
  pop_all_lem b k j = elim (Option-cases (lookup k b.buffer)) [
    | inl h ↦ (ground (arith, h), ground (arith, h, e.equals_iff k j))
    | inr (messages, h) ↦
        (ground (arith, h), ground (arith, h, e.equals_iff k j, lookup-remove k j b.buffer))
  ]
