-- ===== src/Graph/StepName.antt =====
-- ui/src/lib/graph-layout.ts, `validateStepName`, with the regular expression
-- /^[a-z0-9]([-a-z0-9]*[a-z0-9])?$/ read as a backtracking matcher over code units.
pub mod Grammar
use jobrunner.Prelude.{
  ℕ, JsString, codes, List, [], ◌∷◌, Option, none, some, Bool, true, false, ◌&&◌, ◌||◌, leb, ltb,
  ◌==◌, if◌then◌else◌, length,
}

-- [a-z0-9]
unfoldable pub is_alnum : ℕ → Bool
is_alnum c = leb b'a' c && leb c b'z' || leb b'0' c && leb c b'9'

-- [-a-z0-9]
unfoldable pub is_name_char : ℕ → Bool
unfolding is_alnum
is_name_char c = c == b'-' || is_alnum c

abbrev pub at_end : JsString → Bool
at_end [] = true
at_end (c ∷ s) = false

-- [-a-z0-9]*[a-z0-9]$
unfoldable pub matches_group : JsString → Bool
unfolding is_name_char
matches_group [] = false
matches_group (c ∷ s) = is_alnum c && at_end s || is_name_char c && matches_group s

-- ^[a-z0-9]([-a-z0-9]*[a-z0-9])?$
unfoldable pub matches_name : JsString → Bool
unfolding matches_group
matches_name [] = false
matches_name (c ∷ s) = is_alnum c && (at_end s || matches_group s)

pub record Validation : Type 0 where
  pub valid : Bool
  pub error : Option JsString

abbrev pub required_error : JsString
required_error = codes "Name is required"

abbrev pub length_error : JsString
length_error = codes "Name must be 63 characters or less"

abbrev pub chars_error : JsString
chars_error =
    codes "Name must be lowercase alphanumeric with hyphens, starting and ending with alphanumeric"

unfoldable pub validate_step_name : JsString → Validation
unfolding matches_name
validate_step_name name =
    if at_end name
    then record { valid = false; error = some required_error }
    else if ltb 63 (length name)
    then record { valid = false; error = some length_error }
    else if matches_name name
    then record { valid = true; error = none }
    else record { valid = false; error = some chars_error }
