-- ===== src/Packer/Logs/Stream/Read.antt =====
-- logstream.go: what a whole stream does to the fields of the status.
use opsy_ami_operator.Prelude.{
  ℕ, suc, String, Bool, true, false, Option, none, some, List, [], ◌∷◌, ◌≡◌, refl, sym, ap, ◌∙◌,
  arith, if◌then◌else◌, take, ◌||◌, ◌⊎◌, inl, inr,
}
use opsy_ami_operator.Go.{Exec, Error, Result, ok, err, panics, pure, raise, total, ◌>>=◌}
use opsy_ami_operator.Api.{PackerBuilder}
use opsy_ami_operator.Env.{Env, Pattern, base_ami, latest_ami, security_group, key_pair}
use opsy_ami_operator.Packer.Manager.{ManagerPacker, Held}
use opsy_ami_operator.Packer.Logs.{
  Found, nothing_found, found_flag, field_of, match_line, all_found, process_log_line,
}
use opsy_ami_operator.Packer.Logs.Match.{first_match, now_found, match_line_lem}
use opsy_ami_operator.Packer.Logs.Stream.{
  LogStream, after_scan, on_line, scan_lines, process_log_stream,
}

-- The first text that a pattern matches in the lines, or the old one.
abbrev pub first_in : (String → Option String) → List String → String → String
first_in match [] old = old
first_in match (line ∷ lines) old = elim (match line) [
  | none ↦ first_in match lines old
  | some v ↦ v
]

-- Does a pattern match one of the lines?
abbrev pub any_match : (String → Option String) → List String → Bool
any_match match [] = false
any_match match (line ∷ lines) =
    let rest = any_match match lines in elim (match line) [ none ↦ rest | some v ↦ true ]

now_found-any :
    (b : Bool) (o : Option String) (rest : Bool)
    → (now_found b o || rest) ≡ (b || (elim o [ none ↦ rest | some v ↦ true ]))
now_found-any b o rest = ground arith

all_found-flag : (f : Found) (p : Pattern) → all_found f ≡ true → found_flag p f ≡ true
all_found-flag f p h = ground arith

module _ (submatch : Pattern → String → Option String) where
  abbrev match_lines : List String → Found × PackerBuilder → Found × PackerBuilder
  match_lines [] x = x
  match_lines (line ∷ lines) x = match_lines lines (match_line submatch line x)

  found_stays :
      (p : Pattern) (lines : List String) (x : Found × PackerBuilder)
      → found_flag p x.0 ≡ true
      → field_of p (match_lines lines x).1 ≡ field_of p x.1
  found_stays p [] x h = refl
  found_stays p (line ∷ lines) x h =
      let (field, flag) = match_line_lem submatch line p x.0 x.1 in
      found_stays p lines (match_line submatch line x)
        (flag ∙ ap (λ b. now_found b (submatch p line)) h)
      ∙ field
      ∙ ap (λ b. first_match b (submatch p line) (field_of p x.1)) h

  next_line :
      (p : Pattern) (line : String) (lines : List String) (x : Found × PackerBuilder)
      (o : Option String)
      → submatch p line ≡ o
      → found_flag p x.0 ≡ false
      → (found_flag p (match_line submatch line x).0 ≡ false
          → field_of p (match_lines (line ∷ lines) x).1
            ≡ first_in (submatch p) lines (field_of p (match_line submatch line x).1))
      → field_of p (match_lines (line ∷ lines) x).1
        ≡ elim o [ none ↦ first_in (submatch p) lines (field_of p x.1) | some v ↦ v ]
  next_line p line lines x none e h rest =
      let (field, flag) = match_line_lem submatch line p x.0 x.1 in
      rest (flag ∙ (λ i. now_found (h i) (e i)))
      ∙ ap (first_in (submatch p) lines) (field ∙ (λ i. first_match (h i) (e i) (field_of p x.1)))
  next_line p line lines x (some v) e h rest =
      let (field, flag) = match_line_lem submatch line p x.0 x.1 in
      found_stays p lines (match_line submatch line x) (flag ∙ (λ i. now_found (h i) (e i)))
      ∙ field
      ∙ (λ i. first_match (h i) (e i) (field_of p x.1))

  match_lines_lem :
      (p : Pattern) (lines : List String) (x : Found × PackerBuilder)
      → found_flag p x.0 ≡ false
      → field_of p (match_lines lines x).1 ≡ first_in (submatch p) lines (field_of p x.1)
  match_lines_lem p [] x h = refl
  match_lines_lem p (line ∷ lines) x h =
      next_line p line lines x (submatch p line) refl h
        (match_lines_lem p lines (match_line submatch line x))

  -- Every pattern is found after some lines exactly if it was before, or matches one of them.
  match_lines-flag :
      (p : Pattern) (lines : List String) (x : Found × PackerBuilder)
      → found_flag p (match_lines lines x).0 ≡ (found_flag p x.0 || any_match (submatch p) lines)
  match_lines-flag p [] x = ground arith
  match_lines-flag p (line ∷ lines) x =
      match_lines-flag p lines (match_line submatch line x)
      ∙ ap (λ b. b || any_match (submatch p) lines) (match_line_lem submatch line p x.0 x.1).1
      ∙ now_found-any (found_flag p x.0) (submatch p line) (any_match (submatch p) lines)

module _ {W : Type 0} (env : Env W) where
  -- Some of the lines, from the first on, were matched, and nothing else was done to the builder;
  -- where the result is no error, they are all the lines, or all the patterns were found in them.
  abbrev HasMatched : List String → Found → PackerBuilder → Result (Unit {0}) × Held W → Type 0
  HasMatched lines f pb x =
      (n : ℕ) × ((match_lines env.submatch (take n lines) (f, pb)).1 ≡ x.1.0)
      × (x.0 ≡ ok tt
          → (take n lines ≡ lines)
            ⊎ (all_found (match_lines env.submatch (take n lines) (f, pb)).0 ≡ true))

  after_scan-pb : (e : Option Error) (s : Held W) → (after_scan env e s).1.0 ≡ s.0
  unfolding after_scan pure raise ◌>>=◌ total
  after_scan-pb e s = ground arith

  process_log_line-pb :
      (m : ManagerPacker) (line : String) (f : Found) (s : Held W)
      → (process_log_line env m line f s).1.0 ≡ (match_line env.submatch line (f, s.0)).1
  unfolding process_log_line ◌>>=◌ pure
  process_log_line-pb m line f s = ground arith

  process_log_line-flags :
      (m : ManagerPacker) (line : String) (f f' : Found) (b : Bool) (s t : Held W)
      → process_log_line env m line f s ≡ (ok (f', b), t)
      → f' ≡ (match_line env.submatch line (f, s.0)).0
  unfolding process_log_line ◌>>=◌ pure
  process_log_line-flags m line f f' b s t h = ground arith

  process_log_line-finished :
      (m : ManagerPacker) (line : String) (f f' : Found) (s t : Held W)
      → process_log_line env m line f s ≡ (ok (f', true), t)
      → all_found f' ≡ true
  unfolding process_log_line ◌>>=◌ pure
  process_log_line-finished m line f f' s t h = ground arith

  -- After the context was found to be live.
  abbrev line_read :
      (Found → Exec (Held W) (Unit {0}))
      → Result (Found × Bool) × Held W
      → Result (Unit {0}) × Held W
  line_read rest x =
      ((λ (_ : Held W). x) >>= λ (f', finished). if finished then pure tt else rest f') x.1

  after_line :
      (m : ManagerPacker) (line : String) (lines : List String) (f : Found)
      (rest : Found → Exec (Held W) (Unit {0})) (s : Held W) (x : Result (Found × Bool) × Held W)
      → process_log_line env m line f s ≡ x
      → ((f' : Found) (t : Held W) → HasMatched lines f' t.0 (rest f' t))
      → HasMatched (line ∷ lines) f s.0 (line_read rest x)
  unfolding ◌>>=◌ pure
  after_line m line lines f rest s (ok (f', true), t) e k =
      let flags = process_log_line-flags m line f f' true s t e in
      (
        1,
        sym (process_log_line-pb m line f s) ∙ (λ i. (e i).1.0),
        λ _. inr (sym (ap all_found flags) ∙ process_log_line-finished m line f f' s t e),
      )
  after_line m line lines f rest s (ok (f', false), t) e k =
      let (n, matched, ends) = k f' t in
      let flags = process_log_line-flags m line f f' false s t e in
      let held = sym (process_log_line-pb m line f s) ∙ (λ i. (e i).1.0) in
      (
        suc n,
        (λ i. (match_lines env.submatch (take n lines) (sym flags i, held i)).1) ∙ matched,
        λ succeeded. elim (ends succeeded) [
          | inl all ↦ inl (ap (λ l. line ∷ l) all)
          | inr found ↦ inr (
              (λ i. all_found (match_lines env.submatch (take n lines) (sym flags i, held i)).0)
              ∙ found)
        ],
      )
  after_line m line lines f rest s (err e', t) e k =
      (1, sym (process_log_line-pb m line f s) ∙ (λ i. (e i).1.0), λ h. ground arith)
  after_line m line lines f rest s (panics, t) e k =
      (1, sym (process_log_line-pb m line f s) ∙ (λ i. (e i).1.0), λ h. ground arith)

  after_context :
      (m : ManagerPacker) (line : String) (lines : List String) (f : Found)
      (rest : Found → Exec (Held W) (Unit {0})) (s : Held W) (e : Option Error)
      → ((f' : Found) (t : Held W) → HasMatched lines f' t.0 (rest f' t))
      → HasMatched (line ∷ lines) f s.0 (on_line env m line f rest e s)
  unfolding raise ◌>>=◌
  after_context m line lines f rest s (some e) k = (0, refl, λ h. ground arith)
  after_context m line lines f rest s none k =
      after_line m line lines f rest s (process_log_line env m line f s) refl k

  scan_lines-HasMatched :
      (m : ManagerPacker) (scan_error : Option Error) (lines : List String) (f : Found) (s : Held W)
      → HasMatched lines f s.0 (scan_lines env m scan_error lines f s)
  unfolding scan_lines ◌>>=◌ total
  scan_lines-HasMatched m scan_error [] f s = (0, sym (after_scan-pb scan_error s), λ _. inl refl)
  scan_lines-HasMatched m scan_error (line ∷ lines) f s =
      let (e, w₁) = env.context_error s.1 in
      after_context m line lines f (λ f'. scan_lines env m scan_error lines f') (s.0, w₁) e
        (λ f' t. scan_lines-HasMatched m scan_error lines f' t)

  -- However the stream ends, each of the four fields of the status has the first text that its
  -- pattern matches in the lines that were read, and what it had before if there is none. Where it
  -- ends with no error, all the lines were read, or each pattern matches one of those that were.
  pub process_log_stream_lem :
      (m : ManagerPacker) (stream : LogStream) (s : Held W)
      → (n : ℕ) × ((p : Pattern)
          → field_of p (process_log_stream env m stream s).1.0
            ≡ first_in (env.submatch p) (take n stream.lines) (field_of p s.0))
        × ((process_log_stream env m stream s).0 ≡ ok tt
            → (take n stream.lines ≡ stream.lines)
              ⊎ ((p : Pattern) → any_match (env.submatch p) (take n stream.lines) ≡ true))
  unfolding process_log_stream
  process_log_stream_lem m stream s =
      let (n, matched, ends) =
        scan_lines-HasMatched m stream.scan_error stream.lines nothing_found s in
      (
        n,
        λ p.
            sym (ap (field_of p) matched)
            ∙ match_lines_lem env.submatch p (take n stream.lines) (nothing_found, s.0) (unfound p),
        λ succeeded. elim (ends succeeded) [
          | inl all ↦ inl all
          | inr found ↦ inr λ p.
              sym (ap (λ b. b || any_match (env.submatch p) (take n stream.lines)) (unfound p))
              ∙ sym (match_lines-flag env.submatch p (take n stream.lines) (nothing_found, s.0))
              ∙ all_found-flag _ p found
        ],
      )
    where
      unfound : (p : Pattern) → found_flag p nothing_found ≡ false
      unfound base_ami = refl
      unfound latest_ami = refl
      unfound security_group = refl
      unfound key_pair = refl
