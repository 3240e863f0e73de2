-- ===== src/Detector/Gaps.antt =====
-- What a list of gaps means: the numbers that are still unseen, and the order in which gaps stand
-- (the invariants that src/logic/DuplicateMessageDetector.ts lists in `markAndCheck`).
use network_old.Base.{◌≡◌, refl, Bool, true, false, not, ◌&&◌, ◌||◌, List, [], ◌∷◌, ◌++◌, arith}
use network_old.Detector.{NumberPair, Gap, greater_than, shift}
use network_old.Detector.Order.{greater_than_asymm, greater_than_split}

-- `q` lies in (previous, number].
unfoldable pub within : NumberPair → NumberPair → NumberPair → Bool
within previous number q = greater_than q previous && not (greater_than q number)

-- `q` is covered by a gap.
unfoldable pub unseen : List Gap → NumberPair → Bool
unfolding within
unseen [] q = false
unseen (g ∷ gs) q = within g.lower g.upper q || unseen gs q

-- No gap is empty, and each stands strictly below the bound and the gaps above it.
abbrev pub IsChain : NumberPair → List Gap → Type 0
IsChain b [] = Unit
IsChain b (g ∷ gs) =
    (greater_than b g.upper ≡ true) × (greater_than g.upper g.lower ≡ true) × IsChain g.lower gs

-- The same of the whole list, which nothing bounds.
abbrev pub IsStack : List Gap → Type 0
IsStack [] = Unit
IsStack (g ∷ gs) = (greater_than g.upper g.lower ≡ true) × IsChain g.lower gs

pub IsChain-IsStack : (b : NumberPair) (gs : List Gap) → IsChain b gs → IsStack gs
IsChain-IsStack b [] c = tt
IsChain-IsStack b (g ∷ gs) c = (c.1, c.2)

-- A number at or above the bound of a chain is in none of its gaps.
pub unseen_above :
    (b q : NumberPair) (gs : List Gap)
    → IsChain b gs
    → greater_than b q ≡ false
    → unseen gs q ≡ false
unfolding unseen
unseen_above b q [] c h = refl
unseen_above b q (g ∷ gs) c h = ground (
  arith,
  unseen_above g.lower q gs c.2,
  greater_than_split b q g.upper,
  greater_than_split q g.lower g.upper,
  greater_than_asymm g.upper g.lower,
  greater_than_asymm q g.lower,
)

pub shift-IsChain : (b : NumberPair) (gs : List Gap) → IsChain b gs → IsChain b (shift gs)
unfolding shift
shift-IsChain b [] c = tt
shift-IsChain b (g ∷ []) c = tt
shift-IsChain b (g ∷ h ∷ gs) c = (c.0, c.1, shift-IsChain g.lower (h ∷ gs) c.2)

-- Forgetting the lowest gap makes no number unseen.
pub unseen-shift :
    (gs : List Gap) (q : NumberPair) → unseen (shift gs) q ≡ true → unseen gs q ≡ true
unfolding shift unseen
unseen-shift [] q h = h
unseen-shift (g ∷ []) q h = cc
unseen-shift (g ∷ k ∷ gs) q h = ground (arith, unseen-shift (k ∷ gs) q)

pub unseen-append :
    (gs hs : List Gap) (q : NumberPair) → unseen (gs ++ hs) q ≡ (unseen gs q || unseen hs q)
unfolding unseen
unseen-append [] hs q = refl
unseen-append (g ∷ gs) hs q = ground (arith, unseen-append gs hs q)
