-- ===== src/Resend/Stops.antt =====
-- What `stop` of src/resend/ResendHandler.ts does to the ongoing resends.
use network_old.Base.{◌≡◌, refl, string_eq, Bool, none, lookup}
use network_old.Resend.Bookkeeping.{get_contexts, pop_contexts}
use network_old.Resend.Handler.{ResendHandler, cancel_resends_of_node, stop_resends}

-- Unless a node has the id "resends", `stop` cancels no ongoing resend: it takes the names of the
-- bookkeeper's fields for ids of nodes.
pub stop_resends_cancels_none :
    {S R U : Type 0} (has_stop : S → Bool) (h : ResendHandler S R U)
    → lookup "resends" h.ongoing_resends ≡ none
    → (stop_resends has_stop h).contexts ≡ h.contexts
unfolding stop_resends cancel_resends_of_node pop_contexts get_contexts
stop_resends_cancels_none has_stop h absent = rw absent refl
