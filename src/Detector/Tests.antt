-- ===== src/Detector/Tests.antt =====
-- Runs of the duplicate detector (src/logic/DuplicateMessageDetector.ts), and the theorems at
-- concrete inputs.
use network_old.Base.{ℕ, ◌≡◌, ◌≢◌, refl, true, List, [], ◌∷◌, none, some, ok, err, arith}
use network_old.Detector.{
  NumberPair, DuplicateMessageDetector, finite, top, new_detector, mark_and_check, mark_between,
  mark_gaps, is_invalid_numbering, scan, greater_than, invalid_numbering,
  drop_lowest_gap_if_over_max_number_of_gaps, gap_mismatch, mark_latest,
}
use network_old.Detector.Validity.{IsValid, mark_and_check-IsValid}
use network_old.Detector.Answers.{Answers, mark_and_check-Answers}
use network_old.Detector.Histories.{Call, run, run_never_new_again}

abbrev at : ℕ → NumberPair
at n = record { a = finite n; b = finite 0 }

-- What is left after the messages 1, 3 to 5 have come.
abbrev two_gaps : DuplicateMessageDetector
two_gaps = record {
  max_number_of_gaps = 2;
  gaps = record { lower = at 5; upper = top } ∷ record { lower = at 1; upper = at 3 } ∷ [];
}

-- Number 2 splits nothing: it narrows the lower gap.
abbrev filled : DuplicateMessageDetector
filled = record {
  max_number_of_gaps = 2;
  gaps = record { lower = at 5; upper = top } ∷ record { lower = at 2; upper = at 3 } ∷ [];
}

program : Unit {0}
unfolding mark_and_check mark_gaps mark_between is_invalid_numbering scan greater_than mark_latest
    drop_lowest_gap_if_over_max_number_of_gaps new_detector
program = tt

fills : mark_and_check two_gaps (some (at 1)) (at 2) ≡ ok (true, filled)
unfolding program
fills = refl

mismatch : mark_and_check two_gaps (some (at 0)) (at 2) ≡ err gap_mismatch
unfolding program
mismatch = refl

invalid : mark_and_check two_gaps (some (at 2)) (at 2) ≡ err invalid_numbering
unfolding program
invalid = refl

-- A third gap pushes the lowest one out.
drops :
    mark_and_check two_gaps (some (at 7)) (at 8)
    ≡ ok (
      true,
      record {
        max_number_of_gaps = 2;
        gaps = record { lower = at 8; upper = top } ∷ record { lower = at 5; upper = at 7 } ∷ [];
      },
    )
unfolding program
drops = refl

two_gaps-IsValid : IsValid two_gaps
unfolding greater_than
two_gaps-IsValid = record {
  positive = omega arith;
  bounded = omega arith;
  ordered = (refl, (refl, (refl, refl, tt)));
}

finite_two : greater_than top (at 2) ≡ true
unfolding greater_than
finite_two = refl

mark_and_check-IsValid_example : IsValid filled
mark_and_check-IsValid_example =
    mark_and_check-IsValid two_gaps (some (at 1)) (at 2) two_gaps-IsValid finite_two fills

mark_and_check-Answers_example :
    Answers two_gaps (at 1) (at 2) (mark_and_check two_gaps (some (at 1)) (at 2))
unfolding greater_than
mark_and_check-Answers_example =
    mark_and_check-Answers two_gaps (at 1) (at 2) two_gaps-IsValid (λ e. cc) refl

abbrev calls : List Call
calls = (none, at 9) ∷ (some (at 0), at 2) ∷ []

run_never_new_again_example : mark_and_check (run filled calls) none (at 2) ≢ ok (true, two_gaps)
unfolding greater_than
run_never_new_again_example =
    run_never_new_again two_gaps filled (some (at 1)) (at 2) two_gaps-IsValid finite_two fills calls
      (refl, (refl, tt)) none two_gaps
