-- ===== src/Resend/Handler.antt =====
-- src/resend/ResendHandler.ts: a request is given to one strategy after another, until one of them
-- finds messages.
use network_old.Base.{
  ℕ, suc, ltb, eqb, String, number_eq, Bool, true, false, not, is_empty, ◌||◌, List, [], ◌∷◌, ◌++◌,
  Option, none, some, if◌then◌else◌, keep_if, Dict, lookup, insert, update,
}
use network_old.Resend.Bookkeeping.{
  ResendBookkeeper, add_context, get_contexts, pop_contexts, delete_context,
}

-- One call of `loopThruResendStrategies`. `S` is the type of strategies, `R` that of requests and
-- `U` that of messages. `asked` are the strategies whose stream has been read, `current` is whether
-- there is one that is read now, `destroyed` whether the one that was read last is destroyed, and `pushed` is what the stream of the request has got, where
-- `none` is its end.
pub record Context (S R U : Type 0) : Type 0 where
  pub request : R
  pub source : Option String
  pub stop : Bool
  pub remaining : List S
  pub asked : List S
  pub current : Bool
  pub destroyed : Bool
  pub paused : Bool
  pub num_of_messages : ℕ
  pub last_check : ℕ
  pub errors : ℕ
  pub pushed : List (Option U)

-- What happens to the stream that is read, and the check for inactivity.
pub data ReadEvent (U : Type 0) : Type 0 where
  data_read : U → ReadEvent U
  ended closed failed interval_ran : ReadEvent U

module _ {S R U : Type 0} where
  abbrev pub new_context : List S → R → Option String → Context S R U
  new_context strategies request source = record {
    request = request;
    source = source;
    stop = false;
    remaining = strategies;
    asked = [];
    current = false;
    destroyed = false;
    paused = false;
    num_of_messages = 0;
    last_check = 0;
    errors = 0;
    pushed = [];
  }

  -- After the loop.
  unfoldable pub end_request : Context S R U → Context S R U
  end_request c = record c { current = false; pushed = c.pushed ++ none ∷ [] }

  -- The test of the loop, and the body up to its `await`.
  unfoldable pub next_strategy : Context S R U → Context S R U
  unfolding end_request
  next_strategy c = elim c.remaining [
    | [] ↦ end_request c
    | strategy ∷ strategies ↦ if c.stop then end_request c else record c {
      remaining = strategies;
      asked = c.asked ++ strategy ∷ [];
      current = true;
      destroyed = false;
      num_of_messages = 0;
      last_check = 0;
    }
  ]

  -- The promise of `readStreamUntilEndOrError` is resolved.
  unfoldable pub after_read : Bool → Context S R U → Context S R U
  unfolding next_strategy
  after_read found c = next_strategy (record c { stop = found || c.stop })

  unfoldable pub fail_read : Context S R U → Context S R U
  unfolding after_read
  fail_read c = after_read false (record c { errors = suc c.errors })

  unfoldable pub on_read : Context S R U → ReadEvent U → Context S R U
  unfolding after_read fail_read
  on_read c (data_read message) = record c {
    num_of_messages = suc c.num_of_messages;
    pushed = c.pushed ++ some message ∷ [];
  }
  on_read c ended = after_read (ltb 0 c.num_of_messages) c
  on_read c closed = after_read (ltb 0 c.num_of_messages) c
  on_read c failed = fail_read c
  on_read c interval_ran =
      if eqb c.num_of_messages c.last_check
      then fail_read c
      else record c { last_check = c.num_of_messages }

  abbrev pub pause : Context S R U → Context S R U
  pause c = record c { paused = true }

  abbrev pub resume : Context S R U → Context S R U
  resume c = record c { paused = false }

  -- The stream that was read last is destroyed, if there is one.
  abbrev pub cancel : Context S R U → Context S R U
  cancel c = record c { stop = true; destroyed = not (is_empty c.asked) || c.destroyed }

-- `contexts` are those of all calls of the loop, also of calls that have returned. `stopped` are the
-- strategies whose `stop` has been called.
pub record ResendHandler (S R U : Type 0) : Type 0 where
  pub resend_strategies : List S
  pub ongoing_resends : ResendBookkeeper
  pub contexts : Dict ℕ (Context S R U)
  pub next_context : ℕ
  pub stopped : List S

-- `Object.keys(this.ongoingResends)`: the names of the bookkeeper's fields.
abbrev pub bookkeeper_fields : List String
bookkeeper_fields = "resends" ∷ []

module _ {S R U : Type 0} where
  abbrev pub update_each :
      (Context S R U → Context S R U) → List ℕ → Dict ℕ (Context S R U) → Dict ℕ (Context S R U)
  update_each f [] contexts = contexts
  update_each f (ctx ∷ ctxs) contexts = update_each f ctxs (update ctx f contexts)

  -- The context is what the loop has made of it: when the loop has ended, it is no longer ongoing.
  unfoldable pub with_context : ℕ → Context S R U → ResendHandler S R U → ResendHandler S R U
  with_context ctx c h = record h {
    contexts = insert ctx c h.contexts;
    ongoing_resends =
        if c.current then h.ongoing_resends else delete_context c.source ctx h.ongoing_resends;
  }

  unfoldable pub handle_request : R → Option String → ResendHandler S R U → ResendHandler S R U
  unfolding with_context next_strategy
  handle_request request source h =
      with_context h.next_context (next_strategy (new_context h.resend_strategies request source))
        (record h {
          ongoing_resends = add_context source h.next_context h.ongoing_resends;
          next_context = suc h.next_context;
        })

  -- An event of the stream that a call of the loop reads. Those of streams that it
  -- has read before are left out.
  unfoldable pub on_resend_event : ℕ → ReadEvent U → ResendHandler S R U → ResendHandler S R U
  unfolding with_context on_read
  on_resend_event ctx x h = elim (lookup ctx h.contexts) [
    | none ↦ h
    | some c ↦ if c.current then with_context ctx (on_read c x) h else h
  ]

  -- The stream of the request is destroyed by who reads it.
  unfoldable pub on_request_destroyed : ℕ → ResendHandler S R U → ResendHandler S R U
  on_request_destroyed ctx h = record h { contexts = update ctx cancel h.contexts }

  unfoldable pub pause_resends_of_node : String → ResendHandler S R U → ResendHandler S R U
  pause_resends_of_node node h = record h {
    contexts = update_each pause (get_contexts (some node) h.ongoing_resends) h.contexts;
  }

  unfoldable pub resume_resends_of_node : String → ResendHandler S R U → ResendHandler S R U
  resume_resends_of_node node h = record h {
    contexts = update_each resume (get_contexts (some node) h.ongoing_resends) h.contexts;
  }

  abbrev pub requests_of : List ℕ → Dict ℕ (Context S R U) → List R
  requests_of [] contexts = []
  requests_of (ctx ∷ ctxs) contexts = elim (lookup ctx contexts) [
    | none ↦ requests_of ctxs contexts
    | some c ↦ c.request ∷ requests_of ctxs contexts
  ]

  unfoldable pub cancel_resends_of_node :
      String → ResendHandler S R U → ResendHandler S R U × List R
  unfolding pop_contexts
  cancel_resends_of_node node h =
      let (ongoing, ctxs) = pop_contexts (some node) h.ongoing_resends in
      (
        record h { ongoing_resends = ongoing; contexts = update_each cancel ctxs h.contexts },
        requests_of ctxs h.contexts,
      )

  abbrev pub cancel_each : List String → ResendHandler S R U → ResendHandler S R U
  cancel_each [] h = h
  cancel_each (node ∷ nodes) h = cancel_each nodes (cancel_resends_of_node node h).0

  -- `has_stop` is whether a strategy has the method `stop`.
  unfoldable pub stop_resends : (S → Bool) → ResendHandler S R U → ResendHandler S R U
  unfolding cancel_resends_of_node
  stop_resends has_stop h =
      let h' = cancel_each bookkeeper_fields h in
      record h' { stopped = h'.stopped ++ keep_if has_stop h'.resend_strategies }
