-- ===== src/Detector.antt =====
-- src/logic/DuplicateMessageDetector.ts: pairs of numbers, and the detector of a stream's duplicates.
pub mod Order
pub mod Gaps
pub mod Marks
pub mod Validity
pub mod Answers
pub mod Histories
mod Tests
use Prim.Native.Nat.{Ordering}
use network_old.Base.{
  ℕ, ltb, if◌then◌else◌, Bool, true, false, not, ◌&&◌, ◌||◌, List, [], ◌∷◌, ◌++◌, Option, none,
  some, Result, ok, err, ◌>>=◌, length,
}

-- A `number` of the code: a timestamp, a sequence number or `Infinity`.
pub data Number : Type 0 where
  finite : ℕ → Number
  infinity : Number

-- `>` on numbers.
pub gt : Number → Number → Bool
gt (finite m) (finite n) = ltb n m
gt infinity (finite n) = true
gt (finite m) infinity = false
gt infinity infinity = false

pub record NumberPair : Type 0 where
  pub a : Number
  pub b : Number

-- `compareTo`: 1 is `gt`, -1 is `lt` and 0 is `eq`.
pub compare_to : NumberPair → NumberPair → Ordering
unfolding gt
compare_to p q =
    if gt p.a q.a
    then Ordering.gt
    else if gt q.a p.a
    then Ordering.lt
    else if gt p.b q.b
    then Ordering.gt
    else if gt q.b p.b
    then Ordering.lt
    else Ordering.eq

unfoldable pub greater_than : NumberPair → NumberPair → Bool
unfolding compare_to
greater_than p q = elim (compare_to p q) [ Ordering.gt ↦ true | _ ↦ false ]

pub equal_to : NumberPair → NumberPair → Bool
unfolding compare_to
equal_to p q = elim (compare_to p q) [ Ordering.eq ↦ true | _ ↦ false ]

pub greater_than_or_equal : NumberPair → NumberPair → Bool
unfolding greater_than equal_to
greater_than_or_equal p q = greater_than p q || equal_to p q

pub data DetectorError : Type 0 where
  invalid_numbering gap_mismatch : DetectorError

-- The half-closed interval (lower, upper].
pub record Gap : Type 0 where
  pub lower : NumberPair
  pub upper : NumberPair

-- The array `gaps` ascends; the head of this list is the array's last entry.
pub record DuplicateMessageDetector : Type 0 where
  pub max_number_of_gaps : ℕ
  pub gaps : List Gap

unfoldable pub new_detector : ℕ → DuplicateMessageDetector
new_detector n = record { max_number_of_gaps = n; gaps = [] }

abbrev pub top : NumberPair
top = record { a = infinity; b = infinity }

-- What takes the place of a gap around (previous, number].
pub narrow : NumberPair → NumberPair → Gap → List Gap
narrow previous number g =
    if equal_to previous g.lower
    then (if equal_to number g.upper then [] else record { lower = number; upper = g.upper } ∷ [])
    else if equal_to number g.upper
    then record { lower = g.lower; upper = previous } ∷ []
    else record { lower = number; upper = g.upper }
      ∷ record { lower = g.lower; upper = previous }
      ∷ []

-- The loop over the gaps from the last to the first.
pub scan : NumberPair → NumberPair → List Gap → Result DetectorError (Bool × List Gap)
unfolding narrow
scan previous number [] = ok (false, [])
scan previous number (g ∷ gs) =
    let rest = scan previous number gs in
    if greater_than_or_equal previous g.upper
    then ok (false, g ∷ gs)
    else if greater_than_or_equal previous g.lower
    then (if greater_than number g.upper
        then err gap_mismatch
        else ok (true, narrow previous number g ++ gs))
    else if greater_than number g.lower
    then err gap_mismatch
    else (rest >>= λ r. ok (r.0, g ∷ r.1))

-- `shift` takes the lowest gap off, which stands last here.
pub shift : List Gap → List Gap
shift [] = []
shift (g ∷ []) = []
shift (g ∷ h ∷ gs) = g ∷ shift (h ∷ gs)

pub drop_lowest_gap_if_over_max_number_of_gaps : ℕ → List Gap → List Gap
unfolding shift
drop_lowest_gap_if_over_max_number_of_gaps n gs = if ltb n (length gs) then shift gs else gs

-- The case in which the previous number is not known.
unfoldable pub mark_latest : NumberPair → List Gap → Bool × List Gap
mark_latest number [] = (false, [])
mark_latest number (g ∷ gs) =
    if greater_than number g.lower
    then (true, record { lower = number; upper = g.upper } ∷ gs)
    else (false, g ∷ gs)

-- A gap is dropped where the loop has marked the number.
abbrev pub drop_if_marked : ℕ → Bool × List Gap → Bool × List Gap
drop_if_marked n (true, gs) = (true, drop_lowest_gap_if_over_max_number_of_gaps n gs)
drop_if_marked n (false, gs) = (false, gs)

-- The loop, and what follows it when it has found a gap.
pub mark_between : ℕ → NumberPair → NumberPair → List Gap → Result DetectorError (Bool × List Gap)
mark_between n previous number gs = scan previous number gs >>= λ r. ok (drop_if_marked n r)

unfoldable pub is_invalid_numbering : Option NumberPair → NumberPair → Bool
unfolding greater_than_or_equal
is_invalid_numbering none number = false
is_invalid_numbering (some previous) number = greater_than_or_equal previous number

-- The part of `markAndCheck` below its first test.
unfoldable pub mark_gaps :
    ℕ → Option NumberPair → NumberPair → List Gap → Result DetectorError (Bool × List Gap)
mark_gaps n previous number [] = ok (true, record { lower = number; upper = top } ∷ [])
mark_gaps n none number (g ∷ gs) = ok (mark_latest number (g ∷ gs))
mark_gaps n (some previous) number (g ∷ gs) = mark_between n previous number (g ∷ gs)

abbrev pub with_gaps : DuplicateMessageDetector → Bool × List Gap → Bool × DuplicateMessageDetector
with_gaps d (fresh, gs) = (fresh, record d { gaps = gs })

unfoldable pub mark_and_check :
    DuplicateMessageDetector
    → Option NumberPair
    → NumberPair
    → Result DetectorError (Bool × DuplicateMessageDetector)
mark_and_check d previous number =
    if is_invalid_numbering previous number
    then err invalid_numbering
    else (mark_gaps d.max_number_of_gaps previous number d.gaps >>= λ r. ok (with_gaps d r))
