-- ===== src/Resend/Tests.antt =====
-- Runs of the resends (src/resend), and the theorems at concrete inputs.
use network_old.Base.{
  ℕ, ◌≡◌, refl, String, string_eq, number_eq, Bool, true, false, List, [], ◌∷◌, ◌++◌, none, some,
  err, lookup, insert, remove, delete, add, arith, has_key, map, ◌>>=◌,
}
use network_old.Resend.{ResendRequest, last}
use network_old.Resend.Proxy.{
  data_read, end_read, proxy_request_stream, on_events, on_event, once_data, responses,
  on_events_all,
}
use network_old.Resend.Bookkeeping.{
  add_context, get_contexts, pop_contexts, delete_context, bookkeeper_size,
}
use network_old.Resend.Handler.{
  ResendHandler, new_context, next_strategy, end_request, after_read, fail_read, on_read,
  with_context, handle_request, cancel_resends_of_node, stop_resends,
  on_resend_event as on_read_event,
}
use network_old.Resend.Delivery.{Script, read_all, play, drive, Ended, drive_all}
use network_old.Resend.Stops.{stop_resends_cancels_none}
use network_old.Resend.Proxied.{
  ProxiedResend, ProxiedEvent, sent, not_sent, timed_out, cancelled, new_proxied_resend, commence,
  ask_next_neighbor, ask_first, end_stream, on_proxied_event, on_sent, on_not_sent, on_timeout,
}
use network_old.Resend.Attempts.{proxied_steps, IsBounded, proxied_steps-IsBounded}
use network_old.Resend.Pending.{new_pending, clear_timers, add_entry, has_entries, pop_entries}
use network_old.Resend.Timers.{
  PendingEvent, requested, responded, timer_ran, Waits, Keeps, pending_steps, pending_steps-Keeps,
}
use network_old.Resend.Foreign.{
  no_pending_resends, new_foreign, on_request_sent, on_storage_nodes_response, first_connected,
  start_resend, on_resend_event, after_event, on_resend_done,
}

program : Unit {0}
unfolding on_events on_event once_data add_context get_contexts pop_contexts delete_context
    bookkeeper_size next_strategy end_request after_read fail_read on_read with_context
    handle_request cancel_resends_of_node stop_resends read_all play drive commence
    ask_next_neighbor ask_first end_stream on_proxied_event on_sent on_not_sent on_timeout
    proxied_steps clear_timers add_entry has_entries pop_entries on_request_sent
    on_storage_nodes_response first_connected start_resend on_resend_event after_event
    on_resend_done has_key lookup insert remove delete add on_read_event
program = tt

abbrev messages : List String
messages = "a" ∷ "b" ∷ []

on_events_all_example :
    (on_events proxy_request_stream (map data_read messages ++ end_read ∷ [])).sent
    ≡ responses messages
on_events_all_example = on_events_all messages

-- The first strategy fails after a message, the second finds two, and the third is not asked.
abbrev script : Bool → Script String
script true = record { messages = "a" ∷ []; fails = true }
script false = record { messages = "b" ∷ "c" ∷ []; fails = false }

abbrev strategies : List Bool
strategies = true ∷ false ∷ false ∷ []

abbrev node_request : String
node_request = "request"

drive_all_example :
    Ended
      (drive script strategies (next_strategy (new_context strategies node_request none)))
      (true ∷ false ∷ [])
      (some "a" ∷ some "b" ∷ some "c" ∷ none ∷ [])
drive_all_example = drive_all script strategies node_request none

abbrev handler : ResendHandler ℕ String String
unfolding handle_request with_context next_strategy end_request add_context delete_context lookup
    insert remove add delete
handler = handle_request "request" (some "node") (record {
  resend_strategies = 0 ∷ [];
  ongoing_resends = [];
  contexts = [];
  next_context = 0;
  stopped = [];
})

no_such_node : lookup "resends" handler.ongoing_resends ≡ none
unfolding program
no_such_node = refl

stop_resends_cancels_none_example : (stop_resends (λ s. true) handler).contexts ≡ handler.contexts
stop_resends_cancels_none_example = stop_resends_cancels_none (λ s. true) handler no_such_node

cancels : (cancel_resends_of_node "node" handler).1 ≡ "request" ∷ []
unfolding program
cancels = refl

abbrev proxied_events : List (ProxiedEvent String ℕ × List String)
proxied_events =
    (not_sent "a", "a" ∷ "b" ∷ "c" ∷ []) ∷ (sent "b", []) ∷ (timed_out, "a" ∷ "b" ∷ "c" ∷ []) ∷ []

abbrev commenced : ProxiedResend String ℕ
unfolding commence ask_next_neighbor ask_first end_stream add
commenced = commence ("a" ∷ "b" ∷ []) (new_proxied_resend "r" 2)

gives_up : (proxied_steps commenced proxied_events).pushed ≡ none ∷ []
unfolding program
gives_up = refl

asked_in_order : (proxied_steps commenced proxied_events).requests ≡ "a" ∷ "b" ∷ []
unfolding program
asked_in_order = refl

commenced-IsBounded : IsBounded commenced
unfolding IsBounded commenced
commenced-IsBounded = (omega arith, (refl, tt), refl, λ node there. there)

proxied_steps-IsBounded_example : IsBounded (proxied_steps commenced proxied_events)
proxied_steps-IsBounded_example =
    proxied_steps-IsBounded commenced proxied_events commenced-IsBounded

abbrev pending_events : List (PendingEvent String)
pending_events =
    requested "s::0" ∷ requested "s::0" ∷ timer_ran 0 ∷ responded "s::0" ∷ timer_ran 1 ∷ []

new-Waits : Waits (new_pending {K = String})
unfolding Waits lookup
new-Waits = λ entry stream there. ground (arith, there)

pending_steps-Keeps_example : Keeps (pending_steps new_pending pending_events)
pending_steps-Keeps_example = pending_steps-Keeps new_pending pending_events new-Waits

abbrev asks : ResendRequest String
asks = record { request_id = "r"; stream_key = "s::0"; kind = last 5 }

-- A resend that is cancelled while its request is being sent is done twice: when it is cancelled, and
-- when the timer that the send has set runs. The second time its callback throws.
done_twice :
    (on_resend_event
        (λ n. false)
        "storage"
        0
        cancelled
        (on_storage_nodes_response
          (λ n. true)
          "s::0"
          ("storage" ∷ [])
          (on_request_sent true asks (new_foreign {K = String} {N = String} {U = ℕ})))
      >>= λ s. on_resend_event (λ n. false) "storage" 0 (sent "storage") s >>= λ s'.
          on_resend_event (λ n. false) "storage" 0 timed_out s')
    ≡ err no_pending_resends
unfolding program
done_twice = refl
