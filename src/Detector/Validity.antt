-- ===== src/Detector/Validity.antt =====
-- The invariants of the gaps (src/logic/DuplicateMessageDetector.ts), kept by every call.
use network_old.Base.{
  ℕ, ◌+◌, ◌-◌, ◌≤◌, ◌<◌, ◌≡◌, refl, Bool, true, false, List, [], ◌∷◌, ◌++◌, Option, none, some,
  Result, ok, err, ◌>>=◌, arith, length, length-append,
}
use network_old.Detector.{
  NumberPair, Gap, DetectorError, DuplicateMessageDetector, new_detector, top, greater_than, narrow,
  scan, shift, drop_lowest_gap_if_over_max_number_of_gaps, drop_if_marked, mark_latest,
  mark_between, mark_gaps, is_invalid_numbering, mark_and_check,
}
use network_old.Detector.Order.{
  greater_than_asymm, greater_than_split, equal_to_iff, greater_than_or_equal_lem,
  greater_than_connex,
}
use network_old.Detector.Marks.{Marks, scan-Marks}
use network_old.Detector.Gaps.{IsChain, IsStack, shift-IsChain}

-- The last gap of the array reaches to infinity.
abbrev pub IsGaps : List Gap → Type 0
IsGaps [] = Unit
IsGaps (g ∷ gs) = (g.upper ≡ top) × IsStack (g ∷ gs)

pub record IsValid (d : DuplicateMessageDetector) : Type 0 where
  pub positive : 0 < d.max_number_of_gaps
  pub bounded : length d.gaps ≤ d.max_number_of_gaps
  pub ordered : IsGaps d.gaps

pub new_detector-IsValid : IsValid (new_detector 10000)
unfolding new_detector
new_detector-IsValid = record { positive = omega arith; bounded = omega arith; ordered = tt }

pub IsGaps-IsStack : (gs : List Gap) → IsGaps gs → IsStack gs
IsGaps-IsStack [] c = tt
IsGaps-IsStack (g ∷ gs) c = c.1

-- A property of the gaps that a call leaves, and nothing if it throws.
abbrev pub Leaves : (List Gap → Type 0) → Result DetectorError (Bool × List Gap) → Type 0
Leaves P (ok (fresh, gs)) = P gs
Leaves P (err e) = Unit

IsChain-mono :
    (b c : NumberPair) (gs : List Gap) → greater_than c b ≡ true → IsChain b gs → IsChain c gs
IsChain-mono b c [] h k = tt
IsChain-mono b c (g ∷ gs) h k =
    ground (arith, greater_than_split c g.upper b, greater_than_asymm b g.upper)

length-narrow-le : (p n : NumberPair) (g : Gap) → length (narrow p n g) ≤ 2
unfolding narrow
length-narrow-le p n g = ground arith

module _ (p n : NumberPair) (order : greater_than n p ≡ true) where
  narrow-IsChain :
      (b : NumberPair) (g : Gap) (gs : List Gap)
      → greater_than g.lower p ≡ false
      → greater_than n g.upper ≡ false
      → IsChain b (g ∷ gs)
      → IsChain b (narrow p n g ++ gs)
  unfolding narrow
  narrow-IsChain b g gs low high c = ground (
    arith,
    equal_to_iff p g.lower,
    equal_to_iff n g.upper,
    IsChain-mono g.lower n gs,
    IsChain-mono g.lower b gs,
    greater_than_split b g.lower g.upper,
    greater_than_asymm g.upper g.lower,
    greater_than_split n g.lower p,
    greater_than_split n p g.lower,
    greater_than_connex n g.upper,
    greater_than_connex g.lower p,
    equal_to_iff g.lower p,
    greater_than_connex p g.lower,
    greater_than_split b p g.upper,
    greater_than_split b n g.upper,
    greater_than_asymm n p,
  )

  narrow-IsGaps :
      (g : Gap) (gs : List Gap)
      → greater_than top n ≡ true
      → greater_than g.lower p ≡ false
      → greater_than n g.upper ≡ false
      → IsGaps (g ∷ gs)
      → IsGaps (narrow p n g ++ gs)
  unfolding narrow
  narrow-IsGaps g gs below low high c = ground (
    arith,
    equal_to_iff p g.lower,
    equal_to_iff n g.upper,
    greater_than_asymm top n,
    IsChain-mono g.lower n gs,
    greater_than_split n g.lower p,
    greater_than_connex n g.upper,
    greater_than_connex g.lower p,
    equal_to_iff g.lower p,
    greater_than_connex p g.lower,
  )

  scan-IsChain : (b : NumberPair) (gs : List Gap) → IsChain b gs → Leaves (IsChain b) (scan p n gs)
  unfolding scan
  scan-IsChain b [] c = tt
  scan-IsChain b (g ∷ gs) c = ground (
    arith,
    greater_than_or_equal_lem p g.upper,
    greater_than_or_equal_lem p g.lower,
    scan-IsChain g.lower gs c.2,
    narrow-IsChain b g gs,
  )

  scan-IsGaps :
      (gs : List Gap) → greater_than top n ≡ true → IsGaps gs → Leaves IsGaps (scan p n gs)
  unfolding scan
  scan-IsGaps [] below c = tt
  scan-IsGaps (g ∷ gs) below c = ground (
    arith,
    greater_than_or_equal_lem p g.upper,
    greater_than_or_equal_lem p g.lower,
    scan-IsChain g.lower gs c.1.1,
    narrow-IsGaps g gs,
  )

  length-scan-le : (gs : List Gap) → Leaves (λ hs. length hs ≤ length gs + 1) (scan p n gs)
  unfolding scan
  length-scan-le [] = omega arith
  length-scan-le (g ∷ gs) =
      ground (arith, length-scan-le gs, length-append (narrow p n g) gs, length-narrow-le p n g)

pub length-shift : (gs : List Gap) → length (shift gs) ≡ length gs - 1
unfolding shift
length-shift [] = refl
length-shift (g ∷ []) = refl
length-shift (g ∷ h ∷ gs) = omega (arith, length-shift (h ∷ gs))

-- The last gap stays where another one can go.
shift-IsGaps : (gs : List Gap) → 1 < length gs → IsGaps gs → IsGaps (shift gs)
unfolding shift
shift-IsGaps [] long c = tt
shift-IsGaps (g ∷ []) long c = absurd (omega arith)
shift-IsGaps (g ∷ h ∷ gs) long c = (c.0, (c.1.0, shift-IsChain g.lower (h ∷ gs) c.1.1))

-- The gaps that a call leaves are in order and within the limit.
abbrev pub IsKept : ℕ → List Gap → Type 0
IsKept limit gs = IsGaps gs × (length gs ≤ limit)

drop-IsKept :
    (limit : ℕ) (gs : List Gap)
    → 0 < limit
    → IsGaps gs
    → length gs ≤ limit + 1
    → IsKept limit (drop_lowest_gap_if_over_max_number_of_gaps limit gs)
unfolding drop_lowest_gap_if_over_max_number_of_gaps
drop-IsKept limit gs pos c short = ground (arith, shift-IsGaps gs, length-shift gs)

mark_latest-IsKept :
    (limit : ℕ) (n : NumberPair) (gs : List Gap)
    → greater_than top n ≡ true
    → IsKept limit gs
    → IsKept limit (mark_latest n gs).1
unfolding mark_latest
mark_latest-IsKept limit n [] below c = c
mark_latest-IsKept limit n (g ∷ gs) below c = ground (arith, IsChain-mono g.lower n gs)

mark_between-IsKept :
    (limit : ℕ) (p n : NumberPair) (gs : List Gap)
    → 0 < limit
    → greater_than n p ≡ true
    → greater_than top n ≡ true
    → IsKept limit gs
    → Leaves (IsKept limit) (mark_between limit p n gs)
unfolding mark_between
mark_between-IsKept limit p n gs pos order below c =
    go (scan p n gs) (scan-IsGaps p n order gs below c.0) (length-scan-le p n order gs)
      (scan-Marks p n order gs (IsGaps-IsStack gs c.0))
  where
    go :
        (r : Result DetectorError (Bool × List Gap))
        → Leaves IsGaps r
        → Leaves (λ hs. length hs ≤ length gs + 1) r
        → Marks p n gs r
        → Leaves (IsKept limit) (r >>= λ r. ok (drop_if_marked limit r))
    go (err e) k l m = tt
    go (ok (true, hs)) k l m = drop-IsKept limit hs pos k (omega arith)
    go (ok (false, hs)) k l m = rw m.0 c

pub mark_gaps-IsKept :
    (limit : ℕ) (previous : Option NumberPair) (n : NumberPair) (gs : List Gap)
    → 0 < limit
    → is_invalid_numbering previous n ≡ false
    → greater_than top n ≡ true
    → IsKept limit gs
    → Leaves (IsKept limit) (mark_gaps limit previous n gs)
unfolding mark_gaps is_invalid_numbering
mark_gaps-IsKept limit previous n [] pos order below c = ground arith
mark_gaps-IsKept limit none n (g ∷ gs) pos order below c =
    mark_latest-IsKept limit n (g ∷ gs) below c
mark_gaps-IsKept limit (some p) n (g ∷ gs) pos order below c =
    mark_between-IsKept limit p n (g ∷ gs) pos (ground (arith, greater_than_or_equal_lem p n)) below
      c

-- Every call that returns, with or without a previous number, leaves the gaps ascending, disjoint,
-- nonempty and within the limit, the last one reaching to infinity, if the number is below infinity.
pub mark_and_check-IsValid :
    (d : DuplicateMessageDetector) (previous : Option NumberPair) (n : NumberPair)
    → IsValid d
    → greater_than top n ≡ true
    → {fresh : Bool} {d' : DuplicateMessageDetector} → mark_and_check d previous n ≡ ok (fresh, d')
    → IsValid d'
unfolding mark_and_check
mark_and_check-IsValid d previous n v below e =
    ground (arith, mark_gaps-IsKept d.max_number_of_gaps previous n d.gaps v.positive)
