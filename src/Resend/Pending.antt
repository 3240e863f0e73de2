-- ===== src/Resend/Pending.antt =====
-- `PendingTrackerResponseBookkeeper` in src/resend/resendStrategies.ts: requests that wait for the
-- tracker's response, each with a timer.
use network_old.Base.{
  ℕ, suc, Eq, number_eq, Bool, List, [], ◌∷◌, ◌++◌, Option, none, some, Result, ok, err,
  if◌then◌else◌, is_empty, add, delete, Dict, values, lookup, insert, remove, has_key,
}

-- An entry is named by the number of its timer, and stands for its request and response stream.
-- `armed` are the timers that are set and neither cleared nor run, with the key of their stream.
-- `ended` are the entries whose response stream has been ended.
pub record PendingResponses (K : Type 0) : Type 0 where
  pub pending : Dict K (List ℕ)
  pub armed : Dict ℕ K
  pub ended : List ℕ
  pub next_entry : ℕ

-- The error of a call on `undefined`.
pub data PendingError : Type 0 where
  no_entries : PendingError

abbrev pub entries_or_none : Option (List ℕ) → List ℕ
entries_or_none none = []
entries_or_none (some entries) = entries

-- The timers of entries are cleared.
unfoldable pub clear_timers : {K : Type 0} → List ℕ → Dict ℕ K → Dict ℕ K
clear_timers [] armed = armed
clear_timers (entry ∷ entries) armed = clear_timers entries (remove entry armed)

abbrev pub all_entries : List (List ℕ) → List ℕ
all_entries [] = []
all_entries (entries ∷ rest) = entries ++ all_entries rest

module _ {K : Type 0} ⦃e : Eq K⦄ where
  abbrev pub new_pending : PendingResponses K
  new_pending = record { pending = []; armed = []; ended = []; next_entry = 0 }

  unfoldable pub has_entries : K → PendingResponses K → Bool
  has_entries stream p = has_key stream p.pending

  unfoldable pub add_entry : K → PendingResponses K → PendingResponses K
  add_entry stream p = record p {
    pending =
        insert stream (add (entries_or_none (lookup stream p.pending)) p.next_entry) p.pending;
    armed = insert p.next_entry stream p.armed;
    next_entry = suc p.next_entry;
  }

  -- The callback of an entry's timer, after the timer has run.
  unfoldable pub expire_from :
      K → ℕ → Option (List ℕ) → PendingResponses K → Result PendingError (PendingResponses K)
  expire_from stream entry none p = err no_entries
  expire_from stream entry (some entries) p = ok (record p {
    pending =
        if is_empty (delete entries entry)
        then remove stream p.pending
        else insert stream (delete entries entry) p.pending;
    ended = p.ended ++ entry ∷ [];
  })

  unfoldable pub run_entry_timer : ℕ → PendingResponses K → Result PendingError (PendingResponses K)
  unfolding expire_from
  run_entry_timer entry p = elim (lookup entry p.armed) [
    | none ↦ ok p
    | some stream ↦
        expire_from stream entry (lookup stream p.pending)
          (record p { armed = remove entry p.armed })
  ]

  unfoldable pub pop_entries : K → PendingResponses K → PendingResponses K × List ℕ
  unfolding has_entries
  pop_entries stream p =
      let entries = entries_or_none (lookup stream p.pending) in
      if has_entries stream p
      then (
        record p { pending = remove stream p.pending; armed = clear_timers entries p.armed },
        entries,
      )
      else (p, [])

  unfoldable pub clear_all_entries : PendingResponses K → PendingResponses K
  clear_all_entries p =
      let entries = all_entries (values p.pending) in
      record p { pending = []; armed = clear_timers entries p.armed; ended = p.ended ++ entries }
