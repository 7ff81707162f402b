-- ===== src/Packer/Commands/Defaults.antt =====
-- command.go: what `ensureDefaultCommands` makes of the commands of a builder.
use mathlib.Core.HLevel.{⊥_prop}
use mathlib.Core.Logic.Or
use mathlib.Core.List.{
  Mem, Perm, mem-append, mem-cons, not-mem-nil, perm_append_comm, perm_middle, append-nil,
}
use mathlib.Core.List.Perm
use opsy_ami_operator.Prelude.{
  String, ◌≡◌, refl, sym, ap, ◌∙◌, inl, inr, none, List, [], ◌∷◌, ◌++◌, arith, map, Option-cases,
  eq_iff, ◌≢◌,
}
use opsy_ami_operator.Go.{ok}
use opsy_ami_operator.Api.{PackerBuilder}
use opsy_ami_operator.Api.Commands.{Command}
use opsy_ami_operator.Packer.Commands.{
  find_command_index, default_command, place_build, update_command, ensure_default_commands,
}
use opsy_ami_operator.Packer.Commands.Moves.{
  missing, find_command_index-cons, ensure_command_at-zero, ensure_command_at-one,
}

-- The search fails exactly when no command has the subcommand.
abbrev Lacks : List Command → String → Type 0
Lacks cmds s = (c : Command) → Mem c cmds → c.sub_command ≢ s

head_ne_of_find :
    (x : Command) (xs : List Command) (s : String)
    → find_command_index (x ∷ xs) s ≡ none
    → x.sub_command ≢ s
unfolding find_command_index
head_ne_of_find x xs s h e = ground (arith, eq_iff x.sub_command s)

tail_of_find :
    (x : Command) (xs : List Command) (s : String)
    → find_command_index (x ∷ xs) s ≡ none
    → find_command_index xs s ≡ none
unfolding find_command_index
tail_of_find x xs s h = ground arith

absent_of_find :
    (cmds : List Command) (s : String) → find_command_index cmds s ≡ none → Lacks cmds s
absent_of_find [] s h c m e = not-mem-nil m
absent_of_find (x ∷ xs) s h c m e =
    Or.elim ⊥_prop (mem-cons.0 m)
      (λ p. head_ne_of_find x xs s h (ap (λ (d : Command). d.sub_command) (sym p) ∙ e))
      (λ m'. absent_of_find xs s (tail_of_find x xs s h) c m' e)

find_of_absent :
    (cmds : List Command) (s : String) → Lacks cmds s → find_command_index cmds s ≡ none
find_of_absent [] s h = unfold find_command_index in refl
find_of_absent (x ∷ xs) s h =
    rw
      (
        find_command_index-cons x xs s (h x (mem-cons.1 (Or.inl refl))),
        find_of_absent xs s (λ c m. h c (mem-cons.1 (Or.inr m))),
      )
      refl

find_none_perm :
    {xs ys : List Command} (s : String)
    → Perm xs ys
    → find_command_index xs s ≡ none
    → find_command_index ys s ≡ none
find_none_perm {xs} {ys} s p h =
    find_of_absent ys s (λ c m. absent_of_find xs s h c ((Perm.mem_iff p).1 m))

-- Which default commands are missing depends on the commands alone and not on their order.
pub missing_perm : {xs ys : List Command} (s : String) → Perm xs ys → missing xs s ≡ missing ys s
missing_perm {xs} {ys} s p = elim (Option-cases (find_command_index xs s)) [
  | inl e ↦ rw (e, find_none_perm s p e) refl
  | inr (i, e) ↦ elim (Option-cases (find_command_index ys s)) [
    | inl f ↦ cc (find_none_perm s (Perm.symm p) f)
    | inr (j, f) ↦ rw (e, f) refl
  ]
]

missing-cons :
    (a : Command) (cmds : List Command) (s : String)
    → a.sub_command ≢ s
    → missing (a ∷ cmds) s ≡ missing cmds s
missing-cons a cmds s n = elim (Option-cases (find_command_index cmds s)) [
  | inl e ↦ rw (find_command_index-cons a cmds s n, e) refl
  | inr (i, e) ↦ rw (find_command_index-cons a cmds s n, e) refl
]

missing-missing :
    (xs ys : List Command) (s t : String) → t ≢ s → missing (missing xs t ++ ys) s ≡ missing ys s
missing-missing xs ys s t n = elim (Option-cases (find_command_index xs t)) [
  | inl e ↦ rw e (missing-cons (default_command t) ys s (unfold default_command in n))
  | inr (i, e) ↦ rw e refl
]

place_build_lem :
    (a b : Command) (cmds : List Command)
    → a.sub_command ≢ "build"
    → b.sub_command ≢ "build"
    → place_build (a ∷ b ∷ cmds) (find_command_index (a ∷ b ∷ cmds) "build")
      ≡ ok (a ∷ b ∷ (cmds ++ missing cmds "build"))
place_build_lem a b cmds na nb = elim (Option-cases (find_command_index cmds "build")) [
  | inl e ↦
      rw
        (
          find_command_index-cons a (b ∷ cmds) "build" na,
          find_command_index-cons b cmds "build" nb,
          e,
        )
        refl
  | inr (i, e) ↦
      rw
        (
          find_command_index-cons a (b ∷ cmds) "build" na,
          find_command_index-cons b cmds "build" nb,
          e,
        )
        (rw append-nil (ground arith))
]

build_ne_none :
    (cmds : List Command) → find_command_index (cmds ++ missing cmds "build") "build" ≢ none
build_ne_none cmds h = elim (Option-cases (find_command_index cmds "build")) [
  | inl e ↦
      absent_of_find (cmds ++ (default_command "build" ∷ [])) "build" (rw e at h)
        (default_command "build") (mem-append.1 (Or.inr (mem-cons.1 (Or.inl refl))))
        (unfold default_command in refl)
  | inr (i, e) ↦ let f : find_command_index cmds "build" ≡ none = rw (e, append-nil) at h in cc
]

-- The commands with the defaults that they lack in front.
abbrev pub with_missing : List Command → List Command
with_missing cmds =
    missing cmds "build" ++ (missing cmds "validate" ++ (missing cmds "init" ++ cmds))

init≢validate : (c : Command) → c.sub_command ≡ "init" → c.sub_command ≢ "validate"
init≢validate c e f = ground (arith, eq_iff "init" "validate")

init≢build : (c : Command) → c.sub_command ≡ "init" → c.sub_command ≢ "build"
init≢build c e f = ground (arith, eq_iff "init" "build")

validate≢build : (c : Command) → c.sub_command ≡ "validate" → c.sub_command ≢ "build"
validate≢build c e f = ground (arith, eq_iff "validate" "build")

-- What the two calls of `ensureCommandAt` leave has the commands and the defaults they lack.
module _ (cmds : List Command) {r₁ r₂ : List Command} {i v : Command}
    (named₁ : i.sub_command ≡ "init") (named₂ : v.sub_command ≡ "validate")
    (p₁ : Perm (i ∷ r₁) (missing cmds "init" ++ cmds))
    (p₂ : Perm (v ∷ r₂) (missing r₁ "validate" ++ r₁)) where
  validate_missing : missing r₁ "validate" ≡ missing cmds "validate"
  validate_missing =
      sym (missing-cons i r₁ "validate" (init≢validate i named₁))
      ∙ missing_perm "validate" p₁
      ∙ missing-missing cmds cmds "validate" "init" (λ e.
        init≢validate (default_command "init") (unfold default_command in refl)
          (unfold default_command in e))

  two_placed : Perm (i ∷ v ∷ r₂) (missing cmds "validate" ++ (missing cmds "init" ++ cmds))
  two_placed = Perm.trans (Perm.cons i (rw validate_missing at p₂)) (
      Perm.trans (Perm.symm (perm_middle (missing cmds "validate") r₁))
        (Perm.append_left (missing cmds "validate") p₁))

  build_missing : missing r₂ "build" ≡ missing cmds "build"
  build_missing =
      sym (missing-cons v r₂ "build" (validate≢build v named₂))
      ∙ sym (missing-cons i (v ∷ r₂) "build" (init≢build i named₁))
      ∙ missing_perm "build" two_placed
      ∙ missing-missing cmds (missing cmds "init" ++ cmds) "build" "validate"
          (λ e. ground (arith, eq_iff "validate" "build"))
      ∙ missing-missing cmds cmds "build" "init" (λ e. ground (arith, eq_iff "init" "build"))

  all_placed : Perm (i ∷ v ∷ (r₂ ++ missing r₂ "build")) (with_missing cmds)
  all_placed = rw build_missing (
      Perm.trans (perm_append_comm (i ∷ v ∷ r₂) (missing cmds "build"))
        (Perm.append_left (missing cmds "build") two_placed))

-- For every builder the defaults are put in without a panic. The commands are then updated ones
-- of: an `init`, a `validate`, and others with a `build` among them; and these are the builder's
-- commands and the defaults that they lack, each once, in some order.
pub ensure_default_commands_lem :
    (pb : PackerBuilder)
    → let cmds = pb.spec.builder.commands in
      (i v : Command) × (rest : List Command) × (ensure_default_commands pb
        ≡ ok (map (update_command pb) (i ∷ v ∷ rest)))
      × (i.sub_command ≡ "init")
      × (v.sub_command ≡ "validate")
      × (find_command_index rest "build" ≢ none)
      × Perm (i ∷ v ∷ rest) (with_missing cmds)
unfolding ensure_default_commands
ensure_default_commands_lem pb =
    let cmds = pb.spec.builder.commands in
    let (i, r₁, e₁, named₁, p₁) = ensure_command_at-zero cmds "init" in
    let (v, r₂, e₂, named₂, p₂) = ensure_command_at-one i r₁ "validate" (init≢validate i named₁) in
    (
      i,
      v,
      r₂ ++ missing r₂ "build",
      rw (e₁, e₂, place_build_lem i v r₂ (init≢build i named₁) (validate≢build v named₂)) refl,
      named₁,
      named₂,
      build_ne_none r₂,
      all_placed cmds named₁ named₂ p₁ p₂,
    )
