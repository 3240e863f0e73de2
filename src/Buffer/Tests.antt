-- ===== src/Buffer/Tests.antt =====
-- Runs of the message buffer (src/helpers/MessageBuffer.ts), and the theorems at concrete inputs.
use network_old.Base.{
  ℕ, ◌≡◌, refl, String, string_eq, number_eq, [], ◌∷◌, err, lookup, insert, remove,
}
use network_old.Buffer.{
  MessageBuffer, missing, new_buffer, pop_from, pop, push, with_array, with_room, put, run_timer,
  pop_all, clear, size,
}
use network_old.Buffer.Contents.{contents, put_into_one}
use network_old.Buffer.Queues.{put_all}
use network_old.Buffer.Timers.{IsTimed}
use network_old.Buffer.Histories.{pop_one, put_one, perform, perform-IsTimed}

program : Unit {0}
unfolding pop_from pop push with_array with_room put run_timer pop_all clear size lookup insert
    remove contents perform
program = tt

abbrev empty : MessageBuffer String ℕ
empty = new_buffer 2

abbrev two : MessageBuffer String ℕ
two = put_all empty "a" (1 ∷ 2 ∷ [])

-- A third message pushes the first one out, with its timer.
third_comes : (put two "a" 3).0 ≡ record {
  max_size = 2;
  buffer = ("a", 2 ∷ 3 ∷ []) ∷ [];
  timeout_refs = ("a", 1 ∷ 2 ∷ []) ∷ [];
  armed = (1, "a") ∷ (2, "a") ∷ [];
  next_ref = 3;
}
unfolding program
third_comes = refl

sizes : size (put two "b" 3).0 ≡ 3
unfolding program
sizes = refl

cleared : size (clear (put two "b" 3).0) ≡ 0
unfolding program
cleared = refl

empty-IsTimed : IsTimed empty
unfolding program
empty-IsTimed = record {
  aligned = λ k. refl;
  distinct = λ k. tt;
  armed = λ k r. refl;
  fresh = λ r late. refl;
}

two-IsTimed : IsTimed two
unfolding perform
two-IsTimed =
    perform-IsTimed (put empty "a" 1).0 (put_one "a" 2)
      (perform-IsTimed empty (put_one "a" 1) empty-IsTimed)

abbrev one : MessageBuffer String ℕ
one = record {
  max_size = 1;
  buffer = ("a", 1 ∷ []) ∷ [];
  timeout_refs = ("a", 0 ∷ []) ∷ [];
  armed = (0, "a") ∷ [];
  next_ref = 1;
}

full : contents one "a" ≡ 1 ∷ []
unfolding program
full = refl

put_into_one_example : ((put one "a" 2).1 ≡ err missing) × (contents (put one "a" 2).0 "a" ≡ [])
put_into_one_example = put_into_one one "a" 1 2 refl full

none_yet : contents empty "a" ≡ []
unfolding program
none_yet = refl

perform-IsTimed_example : IsTimed (perform two (pop_one "a"))
perform-IsTimed_example = perform-IsTimed two (pop_one "a") two-IsTimed
