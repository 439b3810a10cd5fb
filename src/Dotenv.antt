-- ===== src/Dotenv.antt =====
-- backend/db.py, `load_dotenv`: what a file of assignments adds to `os.environ`. The file is the list
-- of its lines, decoded; one that is not there is none.
pub mod Loaded
mod Tests
use Prim.Native.Char.{Char, code}
use ghpulse.Prelude.{
  String, Bool, true, false, ◌||◌, Option, none, some, List, [], ◌∷◌, str_eq, ◌==◌, if◌then◌else◌,
}
use ghpulse.Prelude.Dict.{Dict, lookup, insert}

-- Python's `strip`, and which names and values the system takes as a variable.
pub record Rules : Type 0 where
  pub strip : String → String
  pub settable : String → String → Bool

-- `os.environ` after the call, and whether it raised.
pub record Environ : Type 0 where
  pub environ : Dict String
  pub raised : Bool

-- `line.startswith("#")`
unfoldable pub is_comment : String → Bool
is_comment String.[] = false
is_comment (String.◌∷◌ c s) = code c == b'#'

abbrev pub push_key : Char → Option (String × String) → Option (String × String)
push_key c none = none
push_key c (some (k, v)) = some (String.◌∷◌ c k, v)

-- `line.split("=", 1)`, or none of a line without the sign.
unfoldable pub split_once : String → Option (String × String)
split_once String.[] = none
split_once (String.◌∷◌ c s) =
    let rest = split_once s in if code c == b'=' then some ("", s) else push_key c rest

module _ (rules : Rules) where
  abbrev pub stripped : Option (String × String) → Option (String × String)
  stripped none = none
  stripped (some (k, v)) = some (rules.strip k, rules.strip v)

  -- What a line assigns, if it is not passed over.
  unfoldable pub assignment : String → Option (String × String)
  assignment raw =
      let line = rules.strip raw in
      if str_eq line "" || is_comment line then none else stripped (split_once line)

  -- `os.environ.setdefault(k, v)` goes on with the other lines, unless it raises.
  unfoldable pub load_lines : List String → Dict String → Environ
  load_lines [] environ = record { environ = environ; raised = false }
  load_lines (raw ∷ lines) environ = elim (assignment raw) [
    | none ↦ load_lines lines environ
    | some (k, v) ↦ elim (lookup k environ) [
      | some old ↦ load_lines lines environ
      | none ↦ elim (rules.settable k v) [
        | false ↦ record { environ = environ; raised = true }
        | true ↦ load_lines lines (insert k v environ)
      ]
    ]
  ]

  unfoldable pub load_dotenv : Option (List String) → Dict String → Environ
  load_dotenv none environ = record { environ = environ; raised = false }
  load_dotenv (some lines) environ = load_lines lines environ
