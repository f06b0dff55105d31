-- ===== src/Examples/Engine.antt =====
-- The theorems on the custom engine, polling and the start of runs at concrete inputs.
use sisu_kodo.Prelude.{◌*◌, ◌≤◌, false, some, ◌≡◌, ◌⊎◌, refl, arith}
use sisu_kodo.Failure.{Result, ok}
use sisu_kodo.Engine.{
  s1, s2, mark_count, get_workflow_status, insert_workflow, insert_mark, set_step1_done,
  set_completed, take_phase, schedule, set_pc, finish,
}
use sisu_kodo.Engine.Steps.{System, insert, enlist, take, mark, complete, crash, Reach, stay, next}
use sisu_kodo.Engine.Exactly.{Reach-at_most_once, success-marks}
use sisu_kodo.Engine.Resumed.{resumed}
use sisu_kodo.Engine.Recovery.{Works, Reach-recovers}
use sisu_kodo.Engine.Stages.{stage, Advance, Step-Refines}
use sisu_kodo.Polling.{wait_until, Ended, wait_until-returns}

-- A workflow after the transaction of its first process.
abbrev sleeping : (s : System) × Reach s
unfolding insert_workflow schedule take_phase insert_mark set_step1_done set_pc
sleeping = (_, next (next (next stay (insert "w")) (enlist 0 "w" refl)) (take 0 "w" refl refl))

-- A second process takes the workflow over after the first one has crashed, and finishes it.
abbrev finished : (s : System) × Reach s
unfolding insert_workflow schedule take_phase insert_mark set_step1_done set_pc set_completed finish
finished = (
  _,
  next
      (next (next (next (next sleeping.1 (crash 0)) (enlist 1 "w" refl)) (take 1 "w" refl refl))
        (mark 1 "w" refl))
      (complete 1 "w" refl),
)

Reach-at_most_once_example :
    (mark_count finished.0.tables "w" s1 ≤ 1)
    × (mark_count finished.0.tables "w" s2 ≤ mark_count finished.0.tables "w" s1)
Reach-at_most_once_example = Reach-at_most_once finished.1 "w"

success-marks_example :
    (mark_count finished.0.tables "w" s1 ≡ 1) × (mark_count finished.0.tables "w" s2 ≡ 1)
unfolding get_workflow_status finished
success-marks_example = success-marks finished.1 "w" refl

Reach-recovers_example :
    Reach (resumed sleeping.0 0)
    × (t : System) × Works 0 (resumed sleeping.0 0) t
    × (get_workflow_status t.tables "w" ≡ some "SUCCESS")
unfolding sleeping
Reach-recovers_example = Reach-recovers 0 "w" sleeping.1 refl

Step-Refines_example :
    (stage (insert_workflow sleeping.0.tables "v") "v" ≡ stage sleeping.0.tables "v")
    ⊎ Advance (stage sleeping.0.tables "v") (stage (insert_workflow sleeping.0.tables "v") "v")
Step-Refines_example = Step-Refines sleeping.1 (insert "v") "v"

wait_until-returns_example :
    (r : Result (Unit {0})) × (wait_until (λ _. ok false) (λ n. n * 10) 25 4 0 ≡ some r)
    × Ended (λ _. ok false) (λ n. n * 10) 25 r
wait_until-returns_example =
    wait_until-returns (λ _. ok false) (λ n. n * 10) 25 10 (λ n. omega arith) 3 (omega arith)
