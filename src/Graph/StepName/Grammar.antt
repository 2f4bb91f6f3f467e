-- ===== src/Graph/StepName/Grammar.antt =====
-- The names that `validateStepName` accepts are the labels of RFC 1123.
use jobrunner.Prelude.{
  ℕ, ◌≤◌, JsString, [], ◌∷◌, Option, none, some, true, false, ◌≡◌, ◌≢◌, ◌↔◌, ◌⊎◌, refl, arith,
  length, All,
}
use jobrunner.Graph.StepName.{
  is_alnum, is_name_char, at_end, matches_group, matches_name, validate_step_name,
}

abbrev pub first : JsString → Option ℕ
first [] = none
first (c ∷ s) = some c

abbrev pub last : JsString → Option ℕ
last [] = none
last (c ∷ []) = some c
last (c ∷ d ∷ s) = last (d ∷ s)

-- A lower-case letter, a digit or a hyphen.
abbrev pub IsNameChar : ℕ → Type 0
IsNameChar c = (b'a' ≤ c) × (c ≤ b'z') ⊎ (b'0' ≤ c) × (c ≤ b'9') ⊎ (c ≡ b'-')

-- 1 to 63 letters, digits and hyphens, with no hyphen at either end.
pub record IsLabel (name : JsString) : Type 0 where
  pub positive : 1 ≤ length name
  pub short : length name ≤ 63
  pub chars : All IsNameChar name
  pub first_char : first name ≢ some b'-'
  pub last_char : last name ≢ some b'-'

is_name_char_iff : (c : ℕ) → (is_name_char c ≡ true) ↔ IsNameChar c
unfolding is_name_char
is_name_char_iff c = ground arith

is_alnum_iff : (c : ℕ) → (is_alnum c ≡ true) ↔ (IsNameChar c × (c ≢ b'-'))
unfolding is_alnum
is_alnum_iff c = ground arith

matches_group_iff :
    (c : ℕ) (s : JsString)
    → (matches_group (c ∷ s) ≡ true) ↔ (All IsNameChar (c ∷ s) × (last (c ∷ s) ≢ some b'-'))
unfolding matches_group
matches_group_iff c [] = ground (arith, is_alnum_iff c, is_name_char_iff c)
matches_group_iff c (d ∷ s) = ground (arith, is_name_char_iff c, matches_group_iff d s)

matches_name_iff :
    (name : JsString)
    → (matches_name name ≡ true) ↔ (
        (1 ≤ length name)
        × All IsNameChar name
        × (first name ≢ some b'-')
        × (last name ≢ some b'-'))
unfolding matches_name
matches_name_iff [] = ground arith
matches_name_iff (c ∷ []) = ground (arith, is_alnum_iff c)
matches_name_iff (c ∷ d ∷ s) = ground (arith, is_alnum_iff c, matches_group_iff d s)

IsLabel-iff :
    (name : JsString)
    → IsLabel name ↔ ((at_end name ≡ false) × (length name ≤ 63) × (matches_name name ≡ true))
IsLabel-iff [] = ground arith
IsLabel-iff (c ∷ s) = (
  λ h. (
    refl,
    h.short,
    (matches_name_iff (c ∷ s)).1 (h.positive, h.chars, h.first_char, h.last_char),
  ),
  λ (_, short, m).
      let (positive, chars, first_char, last_char) = (matches_name_iff (c ∷ s)).0 m in
      record {
        positive = positive;
        short = short;
        chars = chars;
        first_char = first_char;
        last_char = last_char;
      },
)

verdict :
    (name : JsString)
    → (((validate_step_name name).valid ≡ true)
        ↔ ((at_end name ≡ false) × (length name ≤ 63) × (matches_name name ≡ true)))
      × (((validate_step_name name).error ≡ none)
          ↔ ((at_end name ≡ false) × (length name ≤ 63) × (matches_name name ≡ true)))
unfolding validate_step_name
verdict name = ground arith

-- The verdict is valid, and no error is given, exactly for the labels.
pub validate_step_name_iff :
    (name : JsString)
    → (((validate_step_name name).valid ≡ true) ↔ IsLabel name)
      × (((validate_step_name name).error ≡ none) ↔ IsLabel name)
validate_step_name_iff name =
    let (valid, error) = verdict name in
    let (to, from) = IsLabel-iff name in
    ((λ e. from (valid.0 e), λ h. valid.1 (to h)), (λ e. from (error.0 e), λ h. error.1 (to h)))
