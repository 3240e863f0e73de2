-- ===== src/Rtc/Descriptions.antt =====
-- What descriptions and candidates leave as it is in a connection of src/connection/Connection.ts.
use network_old.Base.{true, not, ◌||◌, ℕ, ◌≡◌, refl, number_eq, Bool, arith, if_elim}
use network_old.Rtc.{
  Reception, add_enqueued, Connection, set_remote_description, add_remote_candidate,
}

-- The peer of a connection and whether it is finished are as they were.
abbrev pub Keeps : {N : Type 0} → Connection N → Connection N → Type 0
Keeps c x = (x.peer_id ≡ c.peer_id) × (x.is_finished ≡ c.is_finished)

add_enqueued-Keeps :
    {N : Type 0} (takes_candidate : Bool) (c : Connection N)
    → Keeps c (add_enqueued takes_candidate c)
unfolding add_enqueued
add_enqueued-Keeps takes_candidate c = (ground arith, ground arith)

pub set_remote_description-Keeps :
    {N : Type 0} (reception : Reception) (c : Connection N)
    → Keeps c (set_remote_description reception c)
unfolding set_remote_description
set_remote_description-Keeps {N = N} reception c =
    let described : Connection N = record c { remote_description_set = true } in
    if_elim (λ (x : Connection N). Keeps c x) c.is_finished (refl, refl)
      (if_elim (λ (x : Connection N). Keeps c x) reception.takes_description
        (add_enqueued-Keeps reception.takes_candidate described) (refl, refl))

pub add_remote_candidate-Keeps :
    {N : Type 0} (takes_candidate : Bool) (candidate : ℕ) (c : Connection N)
    → Keeps c (add_remote_candidate takes_candidate candidate c)
unfolding add_remote_candidate
add_remote_candidate-Keeps {N = N} takes_candidate candidate c =
    if_elim (λ (x : Connection N). Keeps c x) (c.is_finished || not takes_candidate) (refl, refl)
      (refl, refl)
