-- ===== src/Detector/Marks.antt =====
-- The loop of `markAndCheck` (src/logic/DuplicateMessageDetector.ts) against the set of unseen
-- numbers.
use network_old.Base.{
  ap, Bool-cases, ◌>>=◌, ◌≡◌, refl, inl, inr, Bool, true, false, not, ◌&&◌, List, [], ◌∷◌, ◌++◌,
  Result, ok, err, arith,
}
use network_old.Detector.{
  NumberPair, Gap, DetectorError, gap_mismatch, invalid_numbering, greater_than, narrow, scan,
}
use network_old.Detector.Order.{
  greater_than_asymm, greater_than_split, equal_to_iff, greater_than_or_equal_lem,
}
use network_old.Detector.Gaps.{
  within, unseen, IsStack, IsChain-IsStack, unseen_above, unseen-append,
}

-- What the loop may answer for (previous, number]: all of it was unseen, and is seen now; none of
-- it was unseen; or a part of it was.
abbrev pub Marks :
    NumberPair → NumberPair → List Gap → Result DetectorError (Bool × List Gap) → Type 0
Marks previous number gs (ok (true, hs)) =
    ((q : NumberPair) → within previous number q ≡ true → unseen gs q ≡ true)
    × ((q : NumberPair) → unseen hs q ≡ (unseen gs q && not (within previous number q)))
Marks previous number gs (ok (false, hs)) =
    (hs ≡ gs) × ((q : NumberPair) → within previous number q ≡ true → unseen gs q ≡ false)
Marks previous number gs (err invalid_numbering) = ⊥
Marks previous number gs (err gap_mismatch) =
    ((q : NumberPair) × (within previous number q ≡ true) × (unseen gs q ≡ true))
    × ((q : NumberPair) × (within previous number q ≡ true) × (unseen gs q ≡ false))

module _ (p n : NumberPair) (order : greater_than n p ≡ true) where
  -- The pieces of a gap around (p, n] hold what the gap holds outside it.
  unseen-narrow :
      (g : Gap)
      → greater_than g.lower p ≡ false
      → greater_than n g.upper ≡ false
      → (q : NumberPair)
      → unseen (narrow p n g) q ≡ (within g.lower g.upper q && not (within p n q))
  unfolding narrow unseen
  unseen-narrow g low high q = ground (
    arith,
    equal_to_iff p g.lower,
    equal_to_iff n g.upper,
    greater_than_asymm n p,
    greater_than_split q p g.lower,
    greater_than_split q g.lower p,
    greater_than_split q n g.upper,
    greater_than_split q g.upper n,
    greater_than_split n q p,
    greater_than_split q n p,
    greater_than_asymm q p,
    greater_than_asymm q n,
  )

  found-Marks :
      (g : Gap) (gs : List Gap)
      → IsStack (g ∷ gs)
      → greater_than g.lower p ≡ false
      → greater_than n g.upper ≡ false
      → Marks p n (g ∷ gs) (ok (true, narrow p n g ++ gs))
  unfolding unseen
  found-Marks g gs c low high = (
    λ q h. ground (
      arith,
      greater_than_split q g.lower p,
      greater_than_split q p g.lower,
      greater_than_asymm q p,
      greater_than_split q g.upper n,
      greater_than_split q n g.upper,
      greater_than_split n q g.upper,
      greater_than_split q p g.lower,
    ),
    λ q. ground (
      arith,
      unseen-append (narrow p n g) gs q,
      unseen-narrow g low high q,
      unseen_above g.lower q gs c.1,
      greater_than_split q g.lower p,
      greater_than_split q p g.lower,
      greater_than_asymm q g.lower,
    ),
  )

  missed-Marks :
      (g : Gap) (gs : List Gap)
      → IsStack (g ∷ gs)
      → greater_than g.upper p ≡ false
      → Marks p n (g ∷ gs) (ok (false, g ∷ gs))
  unfolding unseen
  missed-Marks g gs c above = (
    refl,
    λ q h. ground (
      arith,
      unseen_above g.lower q gs c.1,
      greater_than_split q g.upper p,
      greater_than_split q p g.upper,
      greater_than_split g.upper q g.lower,
      greater_than_split q g.lower g.upper,
      greater_than_split q g.upper g.lower,
      greater_than_asymm q g.lower,
      greater_than_asymm g.upper g.lower,
    ),
  )

  -- The gap lies above (p, n], and the loop goes on below it.
  below-Marks :
      (g : Gap) (gs : List Gap) (r : Result DetectorError (Bool × List Gap))
      → greater_than n g.lower ≡ false
      → Marks p n gs r
      → Marks p n (g ∷ gs) (r >>= λ r. ok (r.0, g ∷ r.1))
  unfolding unseen within
  below-Marks g gs (ok (true, hs)) low m = (
    λ q h. ground (arith, m.0 q),
    λ q. ground (
      arith,
      m.1 q,
      greater_than_split q n g.lower,
      greater_than_split q g.lower n,
      greater_than_asymm q n,
    ),
  )
  below-Marks g gs (ok (false, hs)) low m = (
    ap (◌∷◌ g) m.0,
    λ q h. ground (arith, m.1 q, greater_than_split q n g.lower, greater_than_asymm q n),
  )
  below-Marks g gs (err invalid_numbering) low m = m
  below-Marks g gs (err gap_mismatch) low ((q, inside, new), (r, inside', old)) = (
    (q, inside, ground arith),
    (r, inside', ground (arith, greater_than_split r n g.lower, greater_than_asymm r n)),
  )

  -- The number reaches over the upper end of the gap that holds its predecessor.
  over-Marks :
      (g : Gap) (gs : List Gap)
      → IsStack (g ∷ gs)
      → greater_than g.upper p ≡ true
      → greater_than n g.upper ≡ true
      → Marks p n (g ∷ gs) (err gap_mismatch)
  unfolding unseen within
  over-Marks g gs c low high = (
    (
      g.upper,
      ground (arith, greater_than_asymm n g.upper),
      ground (arith, greater_than_asymm g.upper g.upper),
    ),
    (
      n,
      ground (arith, greater_than_asymm n n),
      ground (
        arith,
        unseen_above g.lower n gs c.1,
        greater_than_split n g.lower g.upper,
        greater_than_asymm g.upper g.lower,
        greater_than_asymm n g.lower,
      ),
    ),
  )

  -- The predecessor is below the gap that holds the number, or a number above the gap.
  under-Marks :
      (g : Gap) (gs : List Gap)
      → IsStack (g ∷ gs)
      → greater_than g.lower p ≡ true
      → greater_than n g.lower ≡ true
      → Marks p n (g ∷ gs) (err gap_mismatch)
  unfolding unseen within
  under-Marks g gs c low high = (
    elim (Bool-cases (greater_than n g.upper)) [
      | inl over ↦ (
        g.upper,
        ground (
          arith,
          greater_than_asymm n g.upper,
          greater_than_split g.upper p g.lower,
          greater_than_asymm g.lower p,
        ),
        ground (arith, greater_than_asymm g.upper g.upper),
      )
      | inr inside ↦ (n, ground (arith, greater_than_asymm n n), ground arith)
    ],
    (
      g.lower,
      ground (arith, greater_than_asymm n g.lower),
      ground (arith, unseen_above g.lower g.lower gs c.1, greater_than_asymm g.lower g.lower),
    ),
  )

  -- The loop answers by the unseen numbers in (p, n].
  pub scan-Marks : (gs : List Gap) → IsStack gs → Marks p n gs (scan p n gs)
  unfolding scan unseen
  scan-Marks [] c = (refl, λ q h. refl)
  scan-Marks (g ∷ gs) c = elim (Bool-cases (greater_than g.upper p)) [
    | inr above ↦ rw (greater_than_or_equal_lem p g.upper, above) (missed-Marks g gs c above)
    | inl below ↦
        rw (greater_than_or_equal_lem p g.upper, below)
          (elim (Bool-cases (greater_than g.lower p)) [
            | inr inside ↦
                rw (greater_than_or_equal_lem p g.lower, inside)
                  (elim (Bool-cases (greater_than n g.upper)) [
                    | inl over ↦ rw over (over-Marks g gs c below over)
                    | inr fits ↦ rw fits (found-Marks g gs c inside fits)
                  ])
            | inl low ↦
                rw (greater_than_or_equal_lem p g.lower, low)
                  (elim (Bool-cases (greater_than n g.lower)) [
                    | inl high ↦ rw high (under-Marks g gs c low high)
                    | inr next ↦ rw next (
                        below-Marks g gs (scan p n gs) next
                          (scan-Marks gs (IsChain-IsStack g.lower gs c.1)))
                  ])
          ])
  ]
