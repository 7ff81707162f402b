-- ===== src/Controller/Watch/Results.antt =====
-- packerbuilder_controller.go: what the watcher of a job sends.
use Prim.Native.Nat.{ℕ, ◌+◌}
use opsy_ami_operator.Prelude.{Bool, true, false, Option, none, some, List, [], ◌∷◌, if◌then◌else◌}
use opsy_ami_operator.Prelude.Int.{pos, ltb_ℤ}
use opsy_ami_operator.Env.{WatchEvent, build_result}
use opsy_ami_operator.Env.Kube.{Job}
use opsy_ami_operator.Controller.Watch.{JobEvent, job_event, other_object, channel_closed}

-- The number of results among the events.
abbrev pub result_count : List WatchEvent → ℕ
result_count [] = 0
result_count (build_result c s r ∷ es) = 1 + result_count es
result_count (_ ∷ es) = result_count es

-- The outcome of a job: has it succeeded, or failed, or neither so far?
abbrev pub verdict : Job → Option Bool
verdict job =
    if ltb_ℤ (pos 0) job.status.succeeded
    then some true
    else if ltb_ℤ (pos 0) job.status.failed
    then some false
    else none

-- The first outcome that the events report, before the watcher's channel ends.
abbrev pub first_verdict : List JobEvent → Option Bool
first_verdict [] = none
first_verdict (channel_closed ∷ es) = none
first_verdict (other_object t ∷ es) = first_verdict es
first_verdict (job_event job ∷ es) =
    let rest = first_verdict es in elim (verdict job) [ some b ↦ some b | none ↦ rest ]

-- The first result that is sent, as its flag of success.
abbrev pub sent_result : List WatchEvent → Option Bool
sent_result [] = none
sent_result (build_result c s r ∷ es) = some s
sent_result (_ ∷ es) = sent_result es
