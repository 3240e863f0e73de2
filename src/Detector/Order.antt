-- ===== src/Detector/Order.antt =====
-- The order of number pairs (src/logic/DuplicateMessageDetector.ts, NumberPair).
use network_old.Base.{◌≡◌, refl, ◌⊎◌, inl, inr, ◌↔◌, true, false, not, arith}
use network_old.Detector.{
  Number, NumberPair, finite, infinity, gt, greater_than, equal_to, greater_than_or_equal,
}

gt_asymm : (m n : Number) → gt m n ≡ true → gt n m ≡ false
unfolding gt
gt_asymm (finite m) (finite n) h = ground arith
gt_asymm (finite m) infinity h = cc
gt_asymm infinity (finite n) h = refl
gt_asymm infinity infinity h = cc

gt_split : (m k n : Number) → gt m n ≡ true → (gt m k ≡ true) ⊎ (gt k n ≡ true)
unfolding gt
gt_split (finite m) (finite k) (finite n) h = ground arith
gt_split (finite m) (finite k) infinity h = cc
gt_split (finite m) infinity (finite n) h = inr refl
gt_split (finite m) infinity infinity h = cc
gt_split infinity (finite k) n h = inl refl
gt_split infinity infinity (finite n) h = inr refl
gt_split infinity infinity infinity h = cc

gt_connex : (m n : Number) → gt m n ≡ false → gt n m ≡ false → m ≡ n
unfolding gt
gt_connex (finite m) (finite n) h k = ground arith
gt_connex (finite m) infinity h k = cc
gt_connex infinity (finite n) h k = cc
gt_connex infinity infinity h k = refl

pub greater_than_asymm : (p q : NumberPair) → greater_than p q ≡ true → greater_than q p ≡ false
unfolding greater_than
greater_than_asymm p q h = ground (arith, gt_asymm p.a q.a, gt_asymm p.b q.b)

pub greater_than_split :
    (p r q : NumberPair)
    → greater_than p q ≡ true
    → (greater_than p r ≡ true) ⊎ (greater_than r q ≡ true)
unfolding greater_than
greater_than_split p r q h = ground (
  arith,
  gt_split p.a r.a q.a,
  gt_split p.b r.b q.b,
  gt_connex p.a q.a,
  gt_connex p.a r.a,
  gt_connex r.a q.a,
  gt_asymm p.a q.a,
  gt_asymm p.a r.a,
  gt_asymm r.a q.a,
  gt_asymm q.a p.a,
)

pub equal_to_iff : (p q : NumberPair) → (equal_to p q ≡ true) ↔ (p ≡ q)
unfolding equal_to
equal_to_iff p q = ground (
  arith,
  gt_connex p.a q.a,
  gt_connex p.b q.b,
  gt_asymm p.a p.a,
  gt_asymm p.b p.b,
  gt_asymm q.a q.a,
  gt_asymm q.b q.b,
)

-- `greaterThanOrEqual` is the negation of the converse of `greaterThan`.
pub greater_than_or_equal_lem :
    (p q : NumberPair) → greater_than_or_equal p q ≡ not (greater_than q p)
unfolding greater_than_or_equal greater_than equal_to
greater_than_or_equal_lem p q =
    ground (arith, gt_asymm p.a q.a, gt_asymm p.b q.b, gt_asymm q.a p.a, gt_asymm q.b p.b)

-- Two pairs are equal, or one is greater.
pub greater_than_connex :
    (p q : NumberPair) → equal_to p q ≡ false → greater_than p q ≡ false → greater_than q p ≡ true
unfolding greater_than equal_to
greater_than_connex p q h k = ground arith
