-- ===== src/Dotenv/Loaded.antt =====
-- backend/db.py: the variables after a file has been loaded.
use Prim.Native.Char.{Char, code}
use Prim.Native.String.{◌++◌}
use text.Mathlib.TextLemmas.{nil-append, cons-append, cons≢nil}
use ghpulse.Prelude.{
  String, Bool, true, false, ◌||◌, ◌≡◌, refl, ◌∙◌, Option, none, some, List, [], ◌∷◌, str_eq,
  eq_iff, ◌==◌, arith, Bool-cases, Option-cases, inl, inr,
}
use ghpulse.Prelude.Dict.{Dict, lookup, insert, lookup-insert}
use ghpulse.Dotenv.{Rules, Environ, is_comment, split_once, assignment, load_lines, load_dotenv}

unfoldable pub has_equals : String → Bool
has_equals String.[] = false
has_equals (String.◌∷◌ c s) = (code c == b'=') || has_equals s

-- A line `a=b`, of which the first sign splits: `a` has none.
pub record IsAssignment (rules : Rules) (line a b : String) : Type 0 where
  pub text : rules.strip line ≡ a ++ ("=" ++ b)
  pub one_key : has_equals a ≡ false
  pub no_comment : is_comment a ≡ false
  pub taken : rules.settable (rules.strip a) (rules.strip b) ≡ true

-- The lines list the entries; among them stand blank lines, comments, and lines without the sign.
pub data Lists (rules : Rules) : List String → Dict String → Type 0 where
  done : Lists rules [] []
  passes :
      {lines : List String} {d : Dict String} (line : String)
      → (str_eq (rules.strip line) "" || is_comment (rules.strip line)) ≡ true
      → Lists rules lines d
      → Lists rules (line ∷ lines) d
  lacks :
      {lines : List String} {d : Dict String} (line : String)
      → has_equals (rules.strip line) ≡ false
      → Lists rules lines d
      → Lists rules (line ∷ lines) d
  assigns :
      {lines : List String} {d : Dict String} (line a b : String)
      → IsAssignment rules line a b
      → Lists rules lines d
      → Lists rules (line ∷ lines) ((rules.strip a, rules.strip b) ∷ d)

abbrev pub or_else : Option String → Option String → Option String
or_else (some v) _ = some v
or_else none w = w

left_or_none : (x : Option String) → x ≡ or_else x none
left_or_none none = refl
left_or_none (some v) = refl

split_once-join : (a b : String) → has_equals a ≡ false → split_once (a ++ ("=" ++ b)) ≡ some (a, b)
unfolding split_once has_equals
split_once-join String.[] b h = rw (nil-append, cons-append, nil-append) refl
split_once-join (String.◌∷◌ c a) b h =
    let e : (code c == 61) ≡ false = ground arith in
    rw (cons-append c a ("=" ++ b), e, split_once-join a b (ground arith)) refl

split_once-lacks : (s : String) → has_equals s ≡ false → split_once s ≡ none
unfolding split_once has_equals
split_once-lacks String.[] h = refl
split_once-lacks (String.◌∷◌ c s) h =
    let e : (code c == 61) ≡ false = ground arith in rw (e, split_once-lacks s (ground arith)) refl

not_blank : (c : Char) (s : String) → str_eq (String.◌∷◌ c s) "" ≡ false
not_blank c s = elim (Bool-cases (str_eq (String.◌∷◌ c s) "")) [
  | inl e ↦ elim (cons≢nil ((eq_iff (String.◌∷◌ c s) "").0 e)) [ ]
  | inr e ↦ e
]

-- The joined line is neither blank nor a comment.
kept_line :
    (a b : String)
    → is_comment a ≡ false
    → (str_eq (a ++ ("=" ++ b)) "" || is_comment (a ++ ("=" ++ b))) ≡ false
unfolding is_comment
kept_line String.[] b h = rw (nil-append, cons-append, not_blank) refl
kept_line (String.◌∷◌ c a) b h = rw (cons-append c a ("=" ++ b), not_blank) h

-- Every variable is what it was, or else what the first line for it assigns.
pub record IsLoaded (before d : Dict String) (r : Environ) : Type 0 where
  pub quiet : r.raised ≡ false
  pub variables : (k : String) → lookup k r.environ ≡ or_else (lookup k before) (lookup k d)

module _ (rules : Rules) where
  assignment-passes :
      (line : String)
      → (str_eq (rules.strip line) "" || is_comment (rules.strip line)) ≡ true
      → assignment rules line ≡ none
  unfolding assignment
  assignment-passes line h = rw h refl

  assignment-lacks :
      (line : String) → has_equals (rules.strip line) ≡ false → assignment rules line ≡ none
  unfolding assignment
  assignment-lacks line h = rw (split_once-lacks (rules.strip line) h) (ground arith)

  assignment-IsAssignment :
      (line a b : String)
      → IsAssignment rules line a b
      → assignment rules line ≡ some (rules.strip a, rules.strip b)
  unfolding assignment
  assignment-IsAssignment line a b is =
      rw (is.text, kept_line a b is.no_comment, split_once-join a b is.one_key) refl

  -- A variable that is set hides its line, and one that is not takes its value.
  set_before :
      (j v old : String) (before d : Dict String) (k : String)
      → lookup j before ≡ some old
      → or_else (lookup k before) (lookup k d) ≡ or_else (lookup k before) (lookup k ((j, v) ∷ d))
  unfolding lookup
  set_before j v old before d k e = ground (arith, e, eq_iff j k)

  set_now :
      (j v : String) (before d : Dict String) (k : String)
      → lookup j before ≡ none
      → or_else (lookup k (insert j v before)) (lookup k d)
        ≡ or_else (lookup k before) (lookup k ((j, v) ∷ d))
  unfolding lookup
  set_now j v before d k e = rw lookup-insert (ground (arith, e, eq_iff j k))

  load_lines-IsLoaded :
      (lines : List String) (d before : Dict String)
      → Lists rules lines d
      → IsLoaded before d (load_lines rules lines before)
  unfolding load_lines lookup
  load_lines-IsLoaded _ _ before done = record {
    quiet = refl;
    variables = λ k. left_or_none (lookup k before);
  }
  load_lines-IsLoaded _ d before (passes {lines} line h l) =
      rw (load_lines, assignment-passes line h) (load_lines-IsLoaded lines d before l)
  load_lines-IsLoaded _ d before (lacks {lines} line h l) =
      rw (load_lines, assignment-lacks line h) (load_lines-IsLoaded lines d before l)
  load_lines-IsLoaded _ _ before (assigns {lines} {d} line a b is l) =
      elim (Option-cases (lookup (rules.strip a) before)) [
        | inl e ↦
            let rest =
              load_lines-IsLoaded lines d (insert (rules.strip a) (rules.strip b) before) l in
            rw (load_lines, assignment-IsAssignment line a b is, e, is.taken)
              (record {
                quiet = rest.quiet;
                variables =
                    λ k. rest.variables k ∙ set_now (rules.strip a) (rules.strip b) before d k e;
              })
        | inr (old, e) ↦
            let rest = load_lines-IsLoaded lines d before l in
            rw (load_lines, assignment-IsAssignment line a b is, e)
              (record {
                quiet = rest.quiet;
                variables = λ k.
                    rest.variables k ∙ set_before (rules.strip a) (rules.strip b) old before d k e;
              })
      ]

  -- For a file whose lines are blank, comments, lines without a sign, or each an assignment whose
  -- key, before the first sign, does not begin a comment and with its value makes a variable that
  -- the system takes: loading does not raise, and every variable has afterwards what it had
  -- before, if it was set, and else the value that its first line assigns.
  pub load_dotenv-IsLoaded :
      (lines : List String) (d before : Dict String)
      → Lists rules lines d
      → IsLoaded before d (load_dotenv rules (some lines) before)
  unfolding load_dotenv
  load_dotenv-IsLoaded lines d before l = load_lines-IsLoaded lines d before l
