-- ===== src/Tracker/Validity.antt =====
-- The overlays of src/logic/Tracker.ts stay valid, and none of its methods throws.
use mathlib.Core.Path.{subst}
use network_old.Base.{
  All-keys, has_key-insert, ◌≡◌, refl, true, false, ◌||◌, List, [], ◌∷◌, ◌++◌, ok, err, arith, Eq,
  ◌==◌, contains, of_list, keys, lookup, insert, has_key, IfSome, lookup-AllValues,
  insert-AllValues, keep_if-All, All, is_minus_one, if◌then◌else◌, if_elim, Option-cases, inl, inr,
  ℕ,
}
use network_old.Identifiers.{StreamStatus, StatusStreams}
use network_old.Counters.Laws.{filter_status-All}
use network_old.Overlay.{Choices, new_topology, update_node}
use network_old.Overlay.Updates.{IsValid, update_node-IsValid, new_topology-IsValid}
use network_old.Overlay.Instructions.{IsChoice}
use network_old.Tracker.{
  Tracker, Outcome, Status, create_new_overlay_topologies, leave_and_check_empty_overlay, update_on,
  other_overlays, update_on_all, leave_stream, update_node_on_stream, received, process_node_status,
  on_node_disconnected,
}
use network_old.Tracker.Outcomes.{Succeeds, and_then-Succeeds, for_each-Succeeds}
use network_old.Tracker.Steps.{
  IsValidOverlay, AreValid, form_and_send_instructions-AreValid,
  leave_and_check_empty_overlay-AreValid,
}

module _ {N K R : Type 0} ⦃en : Eq N⦄ ⦃ek : Eq K⦄ where
  -- Every overlay is valid, and every stream of a status has one.
  record IsReady (streams : List K) (t : Tracker N K R) : Type 0 where
    valid : AreValid t
    present : (k : K) → contains streams k ≡ true → has_key k t.overlay_per_stream ≡ true

  update_on-IsReady :
      (streams : List K) (n : N) (entry : K × StreamStatus N) (t : Tracker N K R)
      → contains streams entry.0 ≡ true
      → IsReady streams t
      → Succeeds (IsReady streams) (update_on n entry t)
  unfolding update_on
  update_on-IsReady streams n (k, entry) t named h =
      elim (Option-cases (lookup k t.overlay_per_stream)) [
        | inl none_there ↦ absurd (unfold has_key in cc (h.present k named, none_there))
        | inr (o, there) ↦
            let valid : IsValid o.nodes =
              subst (λ x. IfSome IsValidOverlay x) there
                (lookup-AllValues IsValidOverlay k t.overlay_per_stream h.valid) in
            let reported = of_list (entry.inbound_nodes ++ entry.outbound_nodes) in
            rw (Succeeds, there)
              (record {
                valid =
                    insert-AllValues IsValidOverlay k (update_node o n reported)
                      t.overlay_per_stream (update_node-IsValid o n reported valid) h.valid;
                present = λ j named'. ground (
                  arith,
                  has_key-insert k (update_node o n reported) t.overlay_per_stream j,
                  h.present j named',
                );
              })
      ]

  -- One step of the loop that makes the missing overlays.
  abbrev with_overlay : K → Tracker N K R → Tracker N K R
  with_overlay stream t = if has_key stream t.overlay_per_stream then t else record t {
    overlay_per_stream = insert stream (new_topology t.max_neighbors_per_node) t.overlay_per_stream;
  }

  has_key-with_overlay :
      (stream : K) (t : Tracker N K R) (k : K)
      → has_key k (with_overlay stream t).overlay_per_stream
        ≡ ((stream == k) || has_key k t.overlay_per_stream)
  has_key-with_overlay stream t k = ground (
    arith,
    has_key-insert stream (new_topology t.max_neighbors_per_node) t.overlay_per_stream k,
    ek.equals_iff stream k,
  )

  has_key-create :
      (streams : List K) (t : Tracker N K R) (k : K)
      → has_key k (create_new_overlay_topologies streams t).overlay_per_stream
        ≡ (contains streams k || has_key k t.overlay_per_stream)
  unfolding create_new_overlay_topologies
  has_key-create [] t k = refl
  has_key-create (stream ∷ streams) t k =
      ground
        (arith, has_key-create streams (with_overlay stream t) k, has_key-with_overlay stream t k)

  with_overlay-AreValid :
      (stream : K) (t : Tracker N K R) → AreValid t → AreValid (with_overlay stream t)
  with_overlay-AreValid stream t h =
      let max = t.max_neighbors_per_node in
      if_elim (λ (t' : Tracker N K R). AreValid t') (has_key stream t.overlay_per_stream) h
        (insert-AllValues IsValidOverlay stream (new_topology max) t.overlay_per_stream
          (new_topology-IsValid max) h)

  create-IsReady :
      (streams : List K) (t : Tracker N K R)
      → AreValid t
      → IsReady streams (create_new_overlay_topologies streams t)
  unfolding create_new_overlay_topologies
  create-IsReady [] t h = record { valid = h; present = λ k none_named. cc }
  create-IsReady (stream ∷ streams) t h =
      let t' = with_overlay stream t in
      let rest = create-IsReady streams t' (with_overlay-AreValid stream t h) in
      record {
        valid = rest.valid;
        present = λ k named. ground (
          arith,
          rest.present k,
          has_key-create streams t' k,
          has_key-with_overlay stream t k,
          named,
          ek.equals_iff stream k,
        );
      }

  received-IsReady :
      (source : N) (status : Status N K R) (t : Tracker N K R)
      → AreValid t
      → let (t', filtered) = received source status t in
        IsReady (keys status.streams) t'
        × All (λ entry. contains (keys status.streams) entry.0 ≡ true) filtered
  unfolding received
  received-IsReady source status t h = (
    create-IsReady (keys status.streams) _ h,
    filter_status-All (λ entry. contains (keys status.streams) entry.0 ≡ true) t.instruction_counter
        status.streams source (All-keys status.streams),
  )

  update_on_all-AreValid :
      (choose : ℕ → Choices N) (n : N) (filtered all : StatusStreams N K) (t : Tracker N K R)
      → ((i : ℕ) → IsChoice (choose i))
      → All (λ entry. contains (keys all) entry.0 ≡ true) filtered
      → IsReady (keys all) t
      → Succeeds AreValid (update_on_all choose n filtered all t)
  unfolding update_on_all other_overlays
  update_on_all-AreValid choose n filtered all t ch named h =
      and_then-Succeeds (IsReady (keys all)) AreValid _ _
        (for_each-Succeeds (λ entry. contains (keys all) entry.0 ≡ true) (IsReady (keys all))
          filtered (update_on n) (update_on-IsReady (keys all) n) named t h)
        (λ t' ready.
          for_each-Succeeds (λ entry. IsValidOverlay entry.1) AreValid _
            (leave_and_check_empty_overlay choose n)
            (λ entry t'' v valid.
              leave_and_check_empty_overlay-AreValid choose n entry t'' ch v valid)
            (keep_if-All (λ entry. IsValidOverlay entry.1) _ t'.overlay_per_stream ready.valid) t'
            ready.valid)

  Succeeds-valid :
      (streams : List K) (o : Outcome N K R) → Succeeds (IsReady streams) o → Succeeds AreValid o
  Succeeds-valid streams (ok r) h = h.valid
  Succeeds-valid streams (err e) h = h

  leave_stream-AreValid :
      (choose : ℕ → Choices N) (n : N) (stream : K) (t : Tracker N K R)
      → ((i : ℕ) → IsChoice (choose i))
      → has_key stream t.overlay_per_stream ≡ true
      → AreValid t
      → Succeeds AreValid (leave_stream choose n stream t)
  unfolding leave_stream
  leave_stream-AreValid choose n stream t ch here h =
      elim (Option-cases (lookup stream t.overlay_per_stream)) [
        | inl none_there ↦ absurd (unfold has_key in cc (here, none_there))
        | inr (o, there) ↦
            let valid : IsValid o.nodes =
              subst (λ x. IfSome IsValidOverlay x) there
                (lookup-AllValues IsValidOverlay stream t.overlay_per_stream h) in
            rw (Succeeds, there)
              (leave_and_check_empty_overlay-AreValid choose n (stream, o) t ch valid h)
      ]

  update_node_on_stream-AreValid :
      (choose : ℕ → Choices N) (n : N) (streams : List K) (filtered : StatusStreams N K)
      (t : Tracker N K R)
      → ((i : ℕ) → IsChoice (choose i))
      → All (λ entry. contains streams entry.0 ≡ true) filtered
      → IsReady streams t
      → Succeeds AreValid (update_node_on_stream choose n filtered t)
  unfolding update_node_on_stream
  update_node_on_stream-AreValid choose n streams [] t ch named h = h.valid
  update_node_on_stream-AreValid choose n streams ((stream, entry) ∷ []) t ch named h =
      if_elim (λ (r : Outcome N K R). Succeeds AreValid r) (is_minus_one entry.counter)
        (leave_stream-AreValid choose n stream t ch (h.present stream named.0) h.valid)
        (Succeeds-valid streams (update_on n (stream, entry) t)
          (update_on-IsReady streams n (stream, entry) t named.0 h))
  update_node_on_stream-AreValid choose n streams (_ ∷ _ ∷ _) t ch named h = h.valid

  -- A status of a node never makes the tracker throw, whatever it reports, and leaves the links of
  -- every overlay valid, if the random functions permute and pick and the links were valid.
  pub process_node_status-AreValid :
      (choose : ℕ → Choices N) (status : Status N K R) (source : N) (t : Tracker N K R)
      → ((i : ℕ) → IsChoice (choose i))
      → AreValid t
      → Succeeds AreValid (process_node_status choose status source t)
  unfolding process_node_status
  process_node_status-AreValid choose status source t ch h =
      let (t', filtered) = received source status t in
      let (ready, named) = received-IsReady source status t h in
      and_then-Succeeds AreValid AreValid _ _
        (if_elim (λ (r : Outcome N K R). Succeeds AreValid r) status.single_stream
          (update_node_on_stream-AreValid choose source (keys status.streams) filtered t' ch named
            ready)
          (update_on_all-AreValid choose source filtered status.streams t' ch named ready))
        (λ t'' v.
          form_and_send_instructions-AreValid choose source (keys status.streams) false t'' ch v)

  -- A node that disconnects never makes the tracker throw, and leaves the links of every overlay
  -- valid, if the random functions permute and pick and the links were valid.
  pub on_node_disconnected-AreValid :
      (choose : ℕ → Choices N) (node : N) (t : Tracker N K R)
      → ((i : ℕ) → IsChoice (choose i))
      → AreValid t
      → Succeeds AreValid (on_node_disconnected choose node t)
  unfolding on_node_disconnected
  on_node_disconnected-AreValid choose node t ch h =
      for_each-Succeeds (λ entry. IsValidOverlay entry.1) AreValid t.overlay_per_stream
        (leave_and_check_empty_overlay choose node)
        (λ entry t' v valid. leave_and_check_empty_overlay-AreValid choose node entry t' ch v valid)
        h _ h
