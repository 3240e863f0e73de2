-- ===== src/Overlay/Rounds.antt =====
-- The loop of `formInstructions` (src/logic/OverlayTopology.ts) ends: each round takes a target away.
use network_old.Base.{
  ℕ, zero, suc, ◌≤◌, ltb, ◌≡◌, refl, ap, List, [], ◌∷◌, arith, Eq, length, length-keep_if-le,
  if◌then◌else◌,
}
use network_old.Overlay.{
  Choices, Progress, num_of_missing_neighbors, exchange, reconnect_once, reconnect,
}

module _ {N : Type 0} ⦃e : Eq N⦄ where
  length-exchange-le :
      (c : Choices N) (id n1 : N) (ts : List N) (p : Progress N) (xs : List N)
      → length (exchange c id n1 ts p xs).1 ≤ length ts
  unfolding exchange
  length-exchange-le c id n1 ts (t, updated) [] = omega arith
  length-exchange-le c id n1 ts (t, updated) (x ∷ xs) = length-keep_if-le _ ts

  length-reconnect_once-le :
      (c : Choices N) (id n1 : N) (ts : List N) (p : Progress N)
      → length (reconnect_once c id n1 ts p).1 ≤ length ts
  unfolding reconnect_once
  length-reconnect_once-le c id n1 ts (t, updated) = length-exchange-le c id n1 ts (t, updated) _

  reconnect_same :
      (f g : ℕ) (c : Choices N) (id : N) (ts : List N) (p : Progress N)
      → length ts ≤ f
      → length ts ≤ g
      → reconnect f c id ts p ≡ reconnect g c id ts p
  unfolding reconnect
  reconnect_same zero zero c id ts p h k = refl
  reconnect_same zero (suc g) c id [] p h k = refl
  reconnect_same zero (suc g) c id (n1 ∷ ts) p h k = absurd (omega arith)
  reconnect_same (suc f) zero c id [] p h k = refl
  reconnect_same (suc f) zero c id (n1 ∷ ts) p h k = absurd (omega arith)
  reconnect_same (suc f) (suc g) c id [] p h k = refl
  reconnect_same (suc f) (suc g) c id (n1 ∷ ts) p h k =
      let r = reconnect_once c id n1 ts p in
      let shorter = length-reconnect_once-le c id n1 ts p in
      ap (λ rest. if ltb 1 (num_of_missing_neighbors p.0 id) then rest else p)
        (reconnect_same f g c id r.1 r.0 (omega arith) (omega arith))

  -- As many rounds as there are targets are enough: with more of them the loop ends alike.
  pub reconnect_enough :
      (fuel : ℕ) (c : Choices N) (id : N) (ts : List N) (p : Progress N)
      → length ts ≤ fuel
      → reconnect fuel c id ts p ≡ reconnect (length ts) c id ts p
  reconnect_enough fuel c id ts p h = reconnect_same fuel (length ts) c id ts p h (omega arith)
