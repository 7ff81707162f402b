-- ===== src/Packer/Logs/Match.antt =====
-- logstream.go: what one line of the log does to the fields of the status.
use opsy_ami_operator.Prelude.{
  String, Bool, true, false, Option, none, some, ◌≡◌, arith, if◌then◌else◌,
}
use opsy_ami_operator.Api.{PackerBuilder}
use opsy_ami_operator.Env.{Pattern, base_ami, latest_ami, security_group, key_pair}
use opsy_ami_operator.Packer.Logs.{Found, found_flag, field_of, match_pattern, match_line}

-- The field after a line, from whether it was found before and what the line has for it.
abbrev pub first_match : Bool → Option String → String → String
first_match true found old = old
first_match false none old = old
first_match false (some new) old = new

abbrev pub now_found : Bool → Option String → Bool
now_found true found = true
now_found false none = false
now_found false (some new) = true

abbrev same : Pattern → Pattern → Bool
same base_ami base_ami = true
same latest_ami latest_ami = true
same security_group security_group = true
same key_pair key_pair = true
same _ _ = false

module _ (submatch : Pattern → String → Option String) where
  match_pattern-field :
      (line : String) (q p : Pattern) (x : Found × PackerBuilder)
      → field_of p (match_pattern submatch line q x).1 ≡ (
          if same q p
          then first_match (found_flag p x.0) (submatch p line) (field_of p x.1)
          else field_of p x.1)
  unfolding match_pattern
  match_pattern-field line q p (f, pb) = ground arith

  match_pattern-flag :
      (line : String) (q p : Pattern) (x : Found × PackerBuilder)
      → found_flag p (match_pattern submatch line q x).0
        ≡ (if same q p then now_found (found_flag p x.0) (submatch p line) else found_flag p x.0)
  unfolding match_pattern
  match_pattern-flag line q p (f, pb) = ground arith

  -- A line sets the field of each pattern that it matches for the first time and touches none
  -- that was found before: the four patterns do not interfere.
  pub match_line_lem :
      (line : String) (p : Pattern) (f : Found) (pb : PackerBuilder)
      → (field_of p (match_line submatch line (f, pb)).1
          ≡ first_match (found_flag p f) (submatch p line) (field_of p pb))
        × (found_flag p (match_line submatch line (f, pb)).0
            ≡ now_found (found_flag p f) (submatch p line))
  unfolding match_line
  match_line_lem line base_ami f pb = (simp (match_pattern-field), simp (match_pattern-flag))
  match_line_lem line latest_ami f pb =
      (simp (match_pattern-field, match_pattern-flag), simp (match_pattern-flag))
  match_line_lem line security_group f pb =
      (simp (match_pattern-field, match_pattern-flag), simp (match_pattern-flag))
  match_line_lem line key_pair f pb =
      (simp (match_pattern-field, match_pattern-flag), simp (match_pattern-flag))
