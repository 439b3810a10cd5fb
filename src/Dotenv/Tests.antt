-- ===== src/Dotenv/Tests.antt =====
-- backend/db.py: a comment, a variable that is new, with a sign in its value, and one that is set.
use ghpulse.Prelude.{true, refl, some, [], ◌∷◌}
use ghpulse.Dotenv.{Rules, load_dotenv, is_comment}
use ghpulse.Dotenv.Loaded.{Lists, done, passes, assigns, has_equals, IsLoaded, load_dotenv-IsLoaded}

-- A stand-in for `strip`: the lines have nothing around them, and every variable is taken.
abbrev bare : Rules
bare = record { strip = λ s. s; settable = λ k v. true }

lists : Lists bare ("# tokens" ∷ "A=x=y" ∷ "B=2" ∷ []) (("A", "x=y") ∷ ("B", "2") ∷ [])
unfolding is_comment has_equals
lists = passes "# tokens" refl (
    assigns "A=x=y" "A" "x=y"
      record { text = refl; one_key = refl; no_comment = refl; taken = refl }
      (assigns "B=2" "B" "2" record { text = refl; one_key = refl; no_comment = refl; taken = refl }
        done))

load_dotenv-IsLoaded_example :
    IsLoaded
      (("B", "1") ∷ [])
      (("A", "x=y") ∷ ("B", "2") ∷ [])
      (load_dotenv bare (some ("# tokens" ∷ "A=x=y" ∷ "B=2" ∷ [])) (("B", "1") ∷ []))
load_dotenv-IsLoaded_example =
    load_dotenv-IsLoaded bare ("# tokens" ∷ "A=x=y" ∷ "B=2" ∷ []) (("A", "x=y") ∷ ("B", "2") ∷ [])
      (("B", "1") ∷ []) lists
