-- ===== src/Packer/Commands/Moves.antt =====
-- command.go: where `ensureCommandAt` puts a command, and that it loses none.
use mathlib.Core.Option
use mathlib.Core.List.{Perm}
use mathlib.Core.List.Perm
use opsy_ami_operator.Prelude.{
  ℕ, zero, suc, String, ◌≡◌, refl, inl, inr, Option, none, some, List, [], ◌∷◌, ◌++◌, arith,
  get_elem?, take, drop, Option-cases, eq_iff,
}
use opsy_ami_operator.Go.{ok}
use opsy_ami_operator.Api.Commands.{Command}
use opsy_ami_operator.Packer.Commands.{
  find_command_index, move_command_to_index, default_command, ensure_command_at, place_at,
}

-- Taking an element out and putting it in front keeps the elements.
pub remove_at-perm {ℓ} :
    {A : Type ℓ} (xs : List A) (i : ℕ) {x : A}
    → get_elem? xs i ≡ some x
    → Perm (x ∷ (take i xs ++ drop (suc i) xs)) xs
remove_at-perm [] i h = cc
remove_at-perm (y ∷ ys) zero {x} h = let e : y ≡ x = cc in rw e Perm.rfl
remove_at-perm (y ∷ ys) (suc i) {x} h =
    Perm.trans (Perm.swap y x (take i ys ++ drop (suc i) ys)) (Perm.cons y (remove_at-perm ys i h))

-- The command that the search finds stands at its index and has the subcommand.
pub find_command_index-get_elem? :
    (cmds : List Command) (s : String) (i : ℕ)
    → find_command_index cmds s ≡ some i
    → (c : Command) × (get_elem? cmds i ≡ some c) × (c.sub_command ≡ s)
unfolding find_command_index
find_command_index-get_elem? [] s i h = cc
find_command_index-get_elem? (cmd ∷ cmds) s zero h =
    (cmd, refl, ground (arith, eq_iff cmd.sub_command s))
find_command_index-get_elem? (cmd ∷ cmds) s (suc i) h =
    find_command_index-get_elem? cmds s i (ground arith)

-- The default command that `ensureCommandAt` adds to commands that lack it.
abbrev pub missing_if : Option ℕ → String → List Command
missing_if none s = default_command s ∷ []
missing_if (some _) s = []

abbrev pub missing : List Command → String → List Command
missing cmds s = missing_if (find_command_index cmds s) s

place_at-zero :
    (cmds : List Command) (s : String) (i : ℕ) {c : Command}
    → get_elem? cmds i ≡ some c
    → place_at cmds 0 s (some i) ≡ ok (c ∷ (take i cmds ++ drop (suc i) cmds))
unfolding move_command_to_index
place_at-zero [] s i h = cc
place_at-zero (y ∷ ys) s zero h = cc
place_at-zero (y ∷ ys) s (suc i) h = rw h (ground arith)

place_at-one :
    (a : Command) (cmds : List Command) (s : String) (i : ℕ) {c : Command}
    → get_elem? cmds i ≡ some c
    → place_at (a ∷ cmds) 1 s (some (suc i)) ≡ ok (a ∷ c ∷ (take i cmds ++ drop (suc i) cmds))
unfolding move_command_to_index
place_at-one a [] s i h = cc
place_at-one a (y ∷ ys) s zero h = cc
place_at-one a (y ∷ ys) s (suc i) h = rw h (ground arith)

place_at-zero_none :
    (cmds : List Command) (s : String) → place_at cmds 0 s none ≡ ok (default_command s ∷ cmds)
place_at-zero_none [] s = refl
place_at-zero_none (y ∷ ys) s = ground arith

place_at-one_none :
    (a : Command) (cmds : List Command) (s : String)
    → place_at (a ∷ cmds) 1 s none ≡ ok (a ∷ default_command s ∷ cmds)
place_at-one_none a [] s = refl
place_at-one_none a (y ∷ ys) s = ground arith

-- Some command of the subcommand stands next, and none of `cmds` is lost: `out` is its result.
abbrev pub Places : (Command → List Command → Type 0) → List Command → String → Type 0
Places out cmds s =
    (c : Command) × (rest : List Command) × out c rest
    × (c.sub_command ≡ s)
    × Perm (c ∷ rest) (missing cmds s ++ cmds)

-- `ensureCommandAt` at index 0 puts a command of the subcommand in front.
pub ensure_command_at-zero :
    (cmds : List Command) (s : String)
    → Places (λ c rest. ensure_command_at cmds 0 s ≡ ok (c ∷ rest)) cmds s
unfolding ensure_command_at default_command
ensure_command_at-zero cmds s = elim (Option-cases (find_command_index cmds s)) [
  | inl e ↦ (default_command s, cmds, rw e (place_at-zero_none cmds s), refl, rw e Perm.rfl)
  | inr (i, e) ↦
      let (c, found, named) = find_command_index-get_elem? cmds s i e in
      (
        c,
        take i cmds ++ drop (suc i) cmds,
        rw e (place_at-zero cmds s i found),
        named,
        rw e (remove_at-perm cmds i found),
      )
]

pub find_command_index-cons :
    (a : Command) (cmds : List Command) (s : String)
    → ¬ (a.sub_command ≡ s)
    → find_command_index (a ∷ cmds) s ≡ Option.map suc (find_command_index cmds s)
unfolding find_command_index
find_command_index-cons a cmds s n = ground (arith, eq_iff a.sub_command s)

-- `ensureCommandAt` at index 1 puts one behind a first command of another subcommand.
pub ensure_command_at-one :
    (a : Command) (cmds : List Command) (s : String)
    → ¬ (a.sub_command ≡ s)
    → Places (λ c rest. ensure_command_at (a ∷ cmds) 1 s ≡ ok (a ∷ c ∷ rest)) cmds s
unfolding ensure_command_at default_command
ensure_command_at-one a cmds s n = elim (Option-cases (find_command_index cmds s)) [
  | inl e ↦ (
    default_command s,
    cmds,
    rw (find_command_index-cons a cmds s n, e) (place_at-one_none a cmds s),
    refl,
    rw e Perm.rfl,
  )
  | inr (i, e) ↦
      let (c, found, named) = find_command_index-get_elem? cmds s i e in
      (
        c,
        take i cmds ++ drop (suc i) cmds,
        rw (find_command_index-cons a cmds s n, e) (place_at-one a cmds s i found),
        named,
        rw e (remove_at-perm cmds i found),
      )
]
