-- ===== src/Detector/Answers.antt =====
-- What `markAndCheck` (src/logic/DuplicateMessageDetector.ts) answers, by the numbers unseen so far.
use network_old.Base.{
  ℕ, ◌<◌, ◌≡◌, ◌≢◌, refl, Bool, true, false, List, [], ◌∷◌, Option, none, some, Result, ok, err,
  ◌>>=◌, arith, length, ap, ◌∙◌, not, ◌&&◌,
}
use network_old.Detector.{
  NumberPair, Gap, DetectorError, invalid_numbering, gap_mismatch, DuplicateMessageDetector, top,
  greater_than, drop_lowest_gap_if_over_max_number_of_gaps, scan, drop_if_marked, with_gaps,
  mark_latest, mark_between, mark_gaps, is_invalid_numbering, mark_and_check,
}
use network_old.Detector.Order.{greater_than_asymm, greater_than_or_equal_lem}
use network_old.Detector.Gaps.{IsStack, within, unseen, unseen-shift}
use network_old.Detector.Marks.{Marks, scan-Marks}
use network_old.Detector.Validity.{
  IsValid, IsGaps, IsGaps-IsStack, length-shift, mark_and_check-IsValid,
}

-- The answer for a number with its predecessor: the numbers of (previous, number] were all unseen
-- and are seen now, nothing new is unseen, and nothing else is seen while there is room for a gap;
-- or all of them had been seen, and nothing changes; or the call throws, since some had been seen
-- and some had not.
abbrev pub Answers :
    DuplicateMessageDetector
    → NumberPair
    → NumberPair
    → Result DetectorError (Bool × DuplicateMessageDetector)
    → Type 0
Answers d p n (ok (true, d')) =
    ((q : NumberPair) → within p n q ≡ true → unseen d.gaps q ≡ true)
    × ((q : NumberPair)
        → unseen d'.gaps q ≡ true
        → (unseen d.gaps q ≡ true) × (within p n q ≡ false))
    × (length d'.gaps < d.max_number_of_gaps
        → (q : NumberPair) → unseen d'.gaps q ≡ (unseen d.gaps q && not (within p n q)))
Answers d p n (ok (false, d')) =
    (d' ≡ d) × ((q : NumberPair) → within p n q ≡ true → unseen d.gaps q ≡ false)
Answers d p n (err invalid_numbering) = ⊥
Answers d p n (err gap_mismatch) =
    ((q : NumberPair) × (within p n q ≡ true) × (unseen d.gaps q ≡ true))
    × ((q : NumberPair) × (within p n q ≡ true) × (unseen d.gaps q ≡ false))

unseen-drop :
    (limit : ℕ) (gs : List Gap) (q : NumberPair)
    → unseen (drop_lowest_gap_if_over_max_number_of_gaps limit gs) q ≡ true
    → unseen gs q ≡ true
unfolding drop_lowest_gap_if_over_max_number_of_gaps
unseen-drop limit gs q h = ground (arith, unseen-shift gs q)

unseen_drop_false :
    (limit : ℕ) (gs : List Gap) (q : NumberPair)
    → unseen gs q ≡ false
    → unseen (drop_lowest_gap_if_over_max_number_of_gaps limit gs) q ≡ false
unseen_drop_false limit gs q h = ground (arith, unseen-drop limit gs q)

drop_with_room :
    (limit : ℕ) (gs : List Gap)
    → length (drop_lowest_gap_if_over_max_number_of_gaps limit gs) < limit
    → drop_lowest_gap_if_over_max_number_of_gaps limit gs ≡ gs
unfolding drop_lowest_gap_if_over_max_number_of_gaps
drop_with_room limit gs h = ground (arith, length-shift gs)

-- From the loop's answer to the method's.
Marks-Answers :
    (d : DuplicateMessageDetector) (p n : NumberPair) (r : Result DetectorError (Bool × List Gap))
    → Marks p n d.gaps r
    → Answers d p n
        ((r >>= λ r. ok (drop_if_marked d.max_number_of_gaps r)) >>= λ r. ok (with_gaps d r))
Marks-Answers d p n (ok (true, hs)) m = (
  m.0,
  λ q h. ground (arith, unseen-drop d.max_number_of_gaps hs q h, m.1 q),
  λ room q. rw (drop_with_room d.max_number_of_gaps hs room) (m.1 q),
)
Marks-Answers d p n (ok (false, hs)) m = (ap (λ gs. record d { gaps = gs }) m.0, m.1)
Marks-Answers d p n (err invalid_numbering) m = m
Marks-Answers d p n (err gap_mismatch) m = m

mark_gaps_started :
    (limit : ℕ) (p n : NumberPair) (gs : List Gap)
    → gs ≢ []
    → mark_gaps limit (some p) n gs ≡ mark_between limit p n gs
unfolding mark_gaps
mark_gaps_started limit p n [] h = absurd (h refl)
mark_gaps_started limit p n (g ∷ gs) h = refl

-- A call with a previous number below the number answers by the unseen numbers between the two, on
-- a valid detector that has seen a message.
pub mark_and_check-Answers :
    (d : DuplicateMessageDetector) (p n : NumberPair)
    → IsValid d
    → d.gaps ≢ []
    → greater_than n p ≡ true
    → Answers d p n (mark_and_check d (some p) n)
unfolding mark_and_check is_invalid_numbering mark_between
mark_and_check-Answers d p n v started order =
    rw
      (
        greater_than_or_equal_lem p n,
        order,
        mark_gaps_started d.max_number_of_gaps p n d.gaps started,
      )
      (Marks-Answers d p n (scan p n d.gaps)
        (scan-Marks p n order d.gaps (IsGaps-IsStack d.gaps v.ordered)))

pub nonempty_of_unseen : (gs : List Gap) (q : NumberPair) → unseen gs q ≡ true → 0 < length gs
unfolding unseen
nonempty_of_unseen [] q h = cc
nonempty_of_unseen (g ∷ gs) q h = omega arith

pub unseen-top : (gs : List Gap) → gs ≢ [] → IsGaps gs → unseen gs top ≡ true
unfolding unseen
unseen-top [] h c = absurd (h refl)
unseen-top (g ∷ gs) h c = ground (arith, greater_than_asymm top top)

pub drop_nonempty :
    (limit : ℕ) (gs : List Gap)
    → 0 < limit
    → 0 < length gs
    → drop_lowest_gap_if_over_max_number_of_gaps limit gs ≢ []
unfolding drop_lowest_gap_if_over_max_number_of_gaps
drop_nonempty limit gs pos h = ground (arith, length-shift gs)

module _ (p n : NumberPair) (order : greater_than n p ≡ true) where
  pub within_self : within p n n ≡ true
  unfolding within
  within_self = ground (arith, greater_than_asymm n n)

  within-top : greater_than top n ≡ true → within p n top ≡ false
  unfolding within
  within-top h = ground arith

  -- The loop finds nothing where all of (p, n] has been seen.
  scan_seen :
      (gs : List Gap)
      → IsStack gs
      → ((q : NumberPair) → within p n q ≡ true → unseen gs q ≡ false)
      → scan p n gs ≡ ok (false, gs)
  scan_seen gs c seen = go (scan p n gs) (scan-Marks p n order gs c)
    where
      go : (r : Result DetectorError (Bool × List Gap)) → Marks p n gs r → r ≡ ok (false, gs)
      go (ok (true, hs)) m = cc (seen n within_self, m.0 n within_self)
      go (ok (false, hs)) m = ground (arith, m.0)
      go (err invalid_numbering) m = absurd m
      go (err gap_mismatch) ((q, inside, new), old) = cc (seen q inside)

  -- The first message of a stream is a duplicate afterwards.
  mark_first :
      (limit : ℕ)
      → greater_than top n ≡ true
      → let gs : List Gap = record { lower = n; upper = top } ∷ [] in
        mark_gaps limit (some p) n gs ≡ ok (false, gs)
  unfolding mark_gaps mark_between
  mark_first limit below = rw (
      scan_seen (record { lower = n; upper = top } ∷ []) (below, tt)
        (unfold within unseen in λ q h. ground arith))

  between_twice :
      (limit : ℕ) (gs hs : List Gap)
      → 0 < limit
      → greater_than top n ≡ true
      → gs ≢ []
      → IsGaps gs
      → IsGaps hs
      → mark_between limit p n gs ≡ ok (true, hs)
      → (hs ≢ []) × (mark_between limit p n hs ≡ ok (false, hs))
  unfolding mark_between
  between_twice limit gs hs pos below started c k =
      go (scan p n gs) (scan-Marks p n order gs (IsGaps-IsStack gs c))
    where
      go :
          (r : Result DetectorError (Bool × List Gap))
          → Marks p n gs r
          → (r >>= λ r. ok (drop_if_marked limit r)) ≡ ok (true, hs)
          → (hs ≢ []) × ((scan p n hs >>= λ r. ok (drop_if_marked limit r)) ≡ ok (false, hs))
      go (ok (false, gs')) m e = cc
      go (err x) m e = cc
      go (ok (true, hs')) m e =
          let same : drop_lowest_gap_if_over_max_number_of_gaps limit hs' ≡ hs = ground arith in
          let open_end : unseen hs' top ≡ true =
            ground (arith, m.1 top, unseen-top gs started c, within-top below) in
          let kept : hs ≢ [] =
            rw (← same) (drop_nonempty limit hs' pos (nonempty_of_unseen hs' top open_end)) in
          let seen : (q : NumberPair) → within p n q ≡ true → unseen hs q ≡ false =
            λ q h. rw (← same) (unseen_drop_false limit hs' q (ground (arith, m.1 q))) in
          (kept, rw (scan_seen hs (IsGaps-IsStack hs k) seen))

pub numbering_order :
    (p n : NumberPair) → is_invalid_numbering (some p) n ≡ false → greater_than n p ≡ true
unfolding is_invalid_numbering
numbering_order p n h = ground (arith, greater_than_or_equal_lem p n)

gaps_twice :
    (limit : ℕ) (previous : Option NumberPair) (n : NumberPair) (gs hs : List Gap)
    → 0 < limit
    → is_invalid_numbering previous n ≡ false
    → greater_than top n ≡ true
    → IsGaps gs
    → IsGaps hs
    → mark_gaps limit previous n gs ≡ ok (true, hs)
    → mark_gaps limit previous n hs ≡ ok (false, hs)
unfolding mark_gaps mark_latest
gaps_twice limit none n [] hs pos order below c k e = ground (arith, greater_than_asymm n n)
gaps_twice limit none n (g ∷ gs) hs pos order below c k e = ground (arith, greater_than_asymm n n)
gaps_twice limit (some p) n [] hs pos order below c k e =
    rw (← first) (mark_first p n (numbering_order p n order) limit below)
  where
    first : record { lower = n; upper = top } ∷ [] ≡ hs
    first = ground arith
gaps_twice limit (some p) n (g ∷ gs) hs pos order below c k e =
    let (kept, again) =
      between_twice p n (numbering_order p n order) limit (g ∷ gs) hs pos below (λ e. cc) c k e in
    mark_gaps_started limit p n hs kept ∙ again

-- Once a call has said that a message is new, the same call says that it is a duplicate, and
-- changes nothing, also where a gap has been dropped and where no previous number is given.
pub mark_and_check_twice :
    (d d' : DuplicateMessageDetector) (previous : Option NumberPair) (n : NumberPair)
    → IsValid d
    → greater_than top n ≡ true
    → mark_and_check d previous n ≡ ok (true, d')
    → mark_and_check d' previous n ≡ ok (false, d')
unfolding mark_and_check
mark_and_check_twice d d' previous n v below e =
    let order : is_invalid_numbering previous n ≡ false = ground arith in
    let kept = mark_and_check-IsValid d previous n v below e in
    ground (
      arith,
      gaps_twice d.max_number_of_gaps previous n d.gaps d'.gaps v.positive order below v.ordered
          kept.ordered,
    )
