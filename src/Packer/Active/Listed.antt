-- ===== src/Packer/Active/Listed.antt =====
-- manager.go: which builds count as active.
use opsy_ami_operator.Prelude.{String, Bool, not, List, [], ◌∷◌, ◌++◌, ◌≡◌, refl, arith}
use opsy_ami_operator.Prelude.{keep_if}
use opsy_ami_operator.Env.Kube.{Job}
use opsy_ami_operator.Packer.Active.{is_build_finished, active_from, get_active_builds}

abbrev pub is_running : Job → Bool
is_running job = not (is_build_finished job)

-- The name of the last job, or `name` if there is none.
abbrev pub last_name : String → List Job → String
last_name name [] = name
last_name name (job ∷ jobs) = last_name job.name jobs

append_nil : {A : Type 0} (xs : List A) → xs ++ [] ≡ xs
append_nil [] = refl
append_nil (x ∷ xs) = rw (append_nil xs) refl

append_assoc : {A : Type 0} (xs ys zs : List A) → (xs ++ ys) ++ zs ≡ xs ++ (ys ++ zs)
append_assoc [] ys zs = refl
append_assoc (x ∷ xs) ys zs = rw (append_assoc xs ys zs) refl

active_from_lem :
    (active : List Job) (name : String) (jobs : List Job)
    → active_from active name jobs
      ≡ (active ++ keep_if is_running jobs, last_name name (keep_if is_running jobs))
unfolding active_from
active_from_lem active name [] = rw (append_nil active) refl
active_from_lem active name (job ∷ jobs) = ground (
  arith,
  active_from_lem active name jobs,
  active_from_lem (active ++ (job ∷ [])) job.name jobs,
  append_assoc active (job ∷ []) (keep_if is_running jobs),
)

-- The active builds are the jobs that have not finished, in the order listed, with the name of
-- the last of them.
pub get_active_builds_lem :
    (jobs : List Job)
    → get_active_builds jobs ≡ (keep_if is_running jobs, last_name "" (keep_if is_running jobs))
unfolding get_active_builds
get_active_builds_lem jobs = active_from_lem [] "" jobs
