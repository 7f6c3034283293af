-- ===== src/Replay/Tests.antt =====
-- Runs of the window of microtun-core/src/replay.rs.
use microtun.Prelude.{ℕ, ◌≡◌, refl, false, List, [], ◌∷◌, arith}
use microtun.Replay.{window, new, check_and_update, set_bit, clear_blocks, with_bit}
use microtun.Replay.Spec
use microtun.Replay.Guarantees.{run, verdicts, verdicts_refine, never_twice}

abbrev counters : List ℕ
counters = 5 ∷ 3 ∷ 5 ∷ 700 ∷ 650 ∷ 630 ∷ 700 ∷ []

verdicts_refine_example : verdicts 2 (new 2) counters ≡ Spec.verdicts (window 2) [] counters
verdicts_refine_example = verdicts_refine 2 (omega arith) counters

never_twice_example :
    let self = run 2 (new 2) (5 ∷ []) in
    let later = run 2 (check_and_update 2 self 70).0 (3 ∷ 200 ∷ []) in
    (check_and_update 2 later 70).1 ≡ false
unfolding run check_and_update new set_bit with_bit clear_blocks
never_twice_example = never_twice 2 (omega arith) (5 ∷ []) (3 ∷ 200 ∷ []) 70 refl
