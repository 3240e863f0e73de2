-- ===== src/Resend/Delivery.antt =====
-- What a request gets from the strategies of src/resend/ResendHandler.ts.
use network_old.Base.{
  map-append, ◌&&◌, ◌+◌, length, ℕ, suc, ltb, ◌≡◌, refl, sym, ap, ◌∙◌, String, number_eq, string_eq,
  Bool, true, false, not, List, [], ◌∷◌, ◌++◌, Option, none, some, if◌then◌else◌, map, is_empty,
  arith, inl, inr, append_assoc, append_nil, Bool-cases,
}
use network_old.Resend.Handler.{
  Context, data_read, ended, failed, new_context, end_request, next_strategy, after_read, fail_read,
  on_read,
}

-- What the stream of a strategy does: it gives messages, and then it ends or fails.
pub record Script (U : Type 0) : Type 0 where
  pub messages : List U
  pub fails : Bool

abbrev pub finds : {U : Type 0} → Script U → Bool
finds s = not s.fails && not (is_empty s.messages)

-- The first strategy that finds messages ends the search, and those before it failed or are empty.
abbrev pub delivered : {S U : Type 0} → (S → Script U) → List S → List U
delivered script [] = []
delivered script (strategy ∷ strategies) =
    if finds (script strategy)
    then (script strategy).messages
    else (script strategy).messages ++ delivered script strategies

abbrev pub asked_until_found : {S U : Type 0} → (S → Script U) → List S → List S
asked_until_found script [] = []
asked_until_found script (strategy ∷ strategies) =
    strategy ∷ (if finds (script strategy) then [] else asked_until_found script strategies)

any_message : {U : Type 0} (us : List U) → ltb 0 (length us + 0) ≡ not (is_empty us)
any_message [] = refl
any_message (u ∷ us) = ground arith

finds-fails :
    {U : Type 0} (s : Script U) → finds s ≡ true → (s.fails ≡ false) × (is_empty s.messages ≡ false)
finds-fails s h = ground arith

finds_nothing :
    {U : Type 0} (s : Script U) → finds s ≡ false → s.fails ≡ false → is_empty s.messages ≡ true
finds_nothing s h f = ground arith

module _ {S R U : Type 0} where
  unfoldable pub read_all : List U → Context S R U → Context S R U
  unfolding on_read
  read_all [] c = c
  read_all (u ∷ us) c = read_all us (on_read c (data_read u))

  -- The events of a stream that does what the script says.
  unfoldable pub play : Script U → Context S R U → Context S R U
  unfolding read_all on_read
  play s c = on_read (read_all s.messages c) (if s.fails then failed else ended)

  -- The events of the streams of these strategies, as long as one is read.
  unfoldable pub drive : (S → Script U) → List S → Context S R U → Context S R U
  unfolding play
  drive script [] c = c
  drive script (strategy ∷ strategies) c =
      let rest = drive script strategies (play (script strategy) c) in if c.current then rest else c

  -- A strategy of the list has been asked, and its stream is read from its start.
  abbrev pub reading :
      R → Option String → Bool → List S → List S → ℕ → List (Option U) → Context S R U
  reading request source paused remaining asked errors pushed = record {
    request = request;
    source = source;
    stop = false;
    remaining = remaining;
    asked = asked;
    current = true;
    destroyed = false;
    paused = paused;
    num_of_messages = 0;
    last_check = 0;
    errors = errors;
    pushed = pushed;
  }

  read_all_lem :
      (us : List U) (c : Context S R U)
      → read_all us c ≡ record c {
        num_of_messages = length us + c.num_of_messages;
        pushed = c.pushed ++ map some us;
      }
  unfolding read_all on_read
  read_all_lem [] c =
      ap (λ n. record c { num_of_messages = n }) (omega arith)
      ∙ ap (λ xs. record c { num_of_messages = 0 + c.num_of_messages; pushed = xs })
          (sym (append_nil c.pushed))
  read_all_lem (u ∷ us) c =
      read_all_lem us (on_read c (data_read u))
      ∙ ap
          (λ n. record c { num_of_messages = n; pushed = (c.pushed ++ some u ∷ []) ++ map some us })
          (omega arith)
      ∙ ap (λ xs. record c { num_of_messages = suc (length us) + c.num_of_messages; pushed = xs })
          (append_assoc c.pushed (some u ∷ []) (map some us))

  -- The search has ended with these strategies asked and these things pushed.
  abbrev pub Ended : Context S R U → List S → List (Option U) → Type 0
  Ended c asked pushed = (c.current ≡ false) × (c.asked ≡ asked) × (c.pushed ≡ pushed)

  play-none_left :
      (s : Script U) (request : R) (source : Option String) (paused : Bool) (asked : List S)
      (errors : ℕ) (pushed : List (Option U))
      → Ended
          (play s (reading request source paused [] asked errors pushed))
          asked
          ((pushed ++ map some s.messages) ++ none ∷ [])
  unfolding play on_read fail_read after_read next_strategy end_request
  play-none_left s request source paused asked errors pushed =
      let c = reading request source paused [] asked errors pushed in
      elim (Bool-cases s.fails) [
        | inl h ↦ rw (read_all_lem s.messages c, h) (refl, refl, refl)
        | inr h ↦ rw (read_all_lem s.messages c, h) (refl, refl, refl)
      ]

  play_found :
      (s : Script U) (request : R) (source : Option String) (paused : Bool) (asked ss : List S)
      (errors : ℕ) (pushed : List (Option U))
      → finds s ≡ true
      → Ended
          (play s (reading request source paused ss asked errors pushed))
          asked
          ((pushed ++ map some s.messages) ++ none ∷ [])
  unfolding play on_read fail_read after_read next_strategy end_request
  play_found s request source paused asked [] errors pushed h =
      play-none_left s request source paused asked errors pushed
  play_found s request source paused asked (t ∷ ss) errors pushed h =
      let c = reading request source paused (t ∷ ss) asked errors pushed in
      let (f, some_there) = finds-fails s h in
      rw (read_all_lem s.messages c, f, any_message s.messages, some_there) (refl, refl, refl)

  play_next :
      (s : Script U) (request : R) (source : Option String) (paused : Bool) (asked ss : List S)
      (t : S) (errors : ℕ) (pushed : List (Option U))
      → finds s ≡ false
      → play s (reading request source paused (t ∷ ss) asked errors pushed)
        ≡ reading request source paused ss
            (asked ++ t ∷ [])
            (if s.fails then suc errors else errors)
            (pushed ++ map some s.messages)
  unfolding play on_read fail_read after_read next_strategy end_request
  play_next s request source paused asked ss t errors pushed h =
      let c = reading request source paused (t ∷ ss) asked errors pushed in
      elim (Bool-cases s.fails) [
        | inl f ↦ rw (read_all_lem s.messages c, f) refl
        | inr f ↦
            rw (read_all_lem s.messages c, f, any_message s.messages, finds_nothing s h f) refl
      ]

  drive_ended :
      (script : S → Script U) (ss : List S) (c : Context S R U)
      → c.current ≡ false
      → drive script ss c ≡ c
  unfolding drive
  drive_ended script [] c h = refl
  drive_ended script (s ∷ ss) c h = rw h refl

  drive-reading :
      (script : S → Script U) (request : R) (source : Option String) (paused : Bool)
      (asked : List S) (s : S) (ss : List S) (errors : ℕ) (pushed : List (Option U))
      → Ended
          (drive script (s ∷ ss) (reading request source paused ss (asked ++ s ∷ []) errors pushed))
          (asked ++ asked_until_found script (s ∷ ss))
          (pushed ++ (map some (delivered script (s ∷ ss)) ++ none ∷ []))
  unfolding drive
  drive-reading script request source paused asked s [] errors pushed =
      let us = (script s).messages in
      let (c, a, p) =
        play-none_left (script s) request source paused (asked ++ s ∷ []) errors pushed in
      elim (Bool-cases (finds (script s))) [
        | inl h ↦ rw h (c, a, p ∙ append_assoc pushed (map some us) (none ∷ []))
        | inr h ↦ rw (h, append_nil us) (c, a, p ∙ append_assoc pushed (map some us) (none ∷ []))
      ]
  drive-reading script request source paused asked s (t ∷ ss) errors pushed =
      let us = (script s).messages in
      elim (Bool-cases (finds (script s))) [
        | inl h ↦
            let (c, a, p) =
              play_found (script s) request source paused (asked ++ s ∷ []) (t ∷ ss) errors pushed
                h in
            rw
              (
                h,
                drive_ended script (t ∷ ss)
                    (play (script s)
                      (reading request source paused (t ∷ ss) (asked ++ s ∷ []) errors pushed))
                    c,
              )
              (c, a, p ∙ append_assoc pushed (map some us) (none ∷ []))
        | inr h ↦
            let (c, a, p) =
              drive-reading script request source paused (asked ++ s ∷ []) t ss
                (if (script s).fails then suc errors else errors) (pushed ++ map some us) in
            rw
              (h, play_next (script s) request source paused (asked ++ s ∷ []) ss t errors pushed h)
              (
                c,
                a ∙ append_assoc asked (s ∷ []) (asked_until_found script (t ∷ ss)),
                p
                    ∙ append_assoc pushed (map some us)
                        (map some (delivered script (t ∷ ss)) ++ none ∷ [])
                    ∙ ap (λ xs. pushed ++ xs)
                        (sym (
                            append_assoc (map some us) (map some (delivered script (t ∷ ss)))
                              (none ∷ []))
                          ∙ ap (λ xs. xs ++ none ∷ [])
                              (sym (map-append some us (delivered script (t ∷ ss))))),
              )
      ]

  -- A request that is not cancelled ends, and gets the messages of each strategy in turn, up to the
  -- first whose stream ends with at least one message, and then the end; the strategies after that
  -- one are not asked.
  pub drive_all :
      (script : S → Script U) (strategies : List S) (request : R) (source : Option String)
      → Ended
          (drive script strategies (next_strategy (new_context strategies request source)))
          (asked_until_found script strategies)
          (map some (delivered script strategies) ++ none ∷ [])
  unfolding next_strategy end_request drive
  drive_all script [] request source = (refl, refl, refl)
  drive_all script (s ∷ ss) request source = drive-reading script request source false [] s ss 0 []
