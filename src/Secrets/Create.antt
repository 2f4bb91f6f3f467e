-- ===== src/Secrets/Create.antt =====
-- When the create form of ui/src/components/storage/secret-list.ts sends a secret, and which.
use mathlib.Core.Path.{ap₂}
use jobrunner.Prelude.{
  ℕ, JsString, List, [], ◌∷◌, Option, none, some, true, false, ok, failed, ◌≡◌, ◌≢◌, refl, sym, ap,
  ◌∙◌, subst, arith, map, AreDistinct, has_text, trim, trim_start, trim_end, is_space, not, ◌||◌,
  any, Bool-cases, inl, inr, ◌⊎◌, List-cases,
}
use jobrunner.Graph.StepName.{is_alnum, matches_group, matches_name}
use jobrunner.Secrets.{KeyValuePair, SecretList, valid_pairs, keys_of, has_duplicates}
use jobrunner.Secrets.Forms.{
  SecretWrite, no_pair, duplicate_keys, name_required, name_chars, check_valid, check_pairs,
  check_name, create_checked, submit_create,
}
use jobrunner.Secrets.Entries.{entry_of, has_duplicates_iff, put_pairs-AreDistinct}

-- The pairs with a key, of which there is one, have different keys.
pub record ArePairs (pairs : List KeyValuePair) : Type 0 where
  pub some_pair : valid_pairs pairs ≢ []
  pub distinct : AreDistinct (keys_of (valid_pairs pairs))

check_valid-ok :
    (valid : List KeyValuePair)
    → valid ≢ []
    → AreDistinct (keys_of valid)
    → check_valid valid ≡ ok valid
check_valid-ok [] full d = absurd (full refl)
check_valid-ok (pair ∷ pairs) full d = rw ((has_duplicates_iff (keys_of (pair ∷ pairs))).1 d) refl

pub check_pairs-ok :
    (pairs : List KeyValuePair) → ArePairs pairs → check_pairs pairs ≡ ok (valid_pairs pairs)
unfolding check_pairs
check_pairs-ok pairs h = check_valid-ok (valid_pairs pairs) h.some_pair h.distinct

check_valid-failed :
    (valid : List KeyValuePair)
    → ¬ ((valid ≢ []) × AreDistinct (keys_of valid))
    → (message : JsString) × (check_valid valid ≡ failed message)
check_valid-failed [] h = (no_pair, refl)
check_valid-failed (pair ∷ pairs) h = elim (Bool-cases (has_duplicates (keys_of (pair ∷ pairs)))) [
  | inl twice ↦ (duplicate_keys, rw twice refl)
  | inr once ↦ absurd (h (λ e. cc, (has_duplicates_iff (keys_of (pair ∷ pairs))).0 once))
]

pub check_pairs-failed :
    (pairs : List KeyValuePair)
    → ¬ ArePairs pairs
    → (message : JsString) × (check_pairs pairs ≡ failed message)
unfolding check_pairs
check_pairs-failed pairs h =
    check_valid-failed (valid_pairs pairs)
      (λ (full, distinct). h (record { some_pair = full; distinct = distinct }))

-- The name matches the pattern, and the pairs are right.
pub record IsCreatable (s : SecretList) : Type 0 where
  pub name : matches_name s.new_secret_name ≡ true
  pub pairs : ArePairs s.new_secret_pairs

is_alnum-is_space : (c : ℕ) → is_alnum c ≡ true → is_space c ≡ false
unfolding is_alnum is_space
is_alnum-is_space c h = ground arith

is_alnum-has_text : (c : ℕ) (s : JsString) → is_alnum c ≡ true → has_text (c ∷ s) ≡ true
unfolding has_text
is_alnum-has_text c s h = rw (is_alnum-is_space c h) refl

-- A text that keeps its end keeps it behind another character.
trim_end-cons :
    (c : ℕ) (s : JsString)
    → (trim_end s ≡ s) × (has_text s ≡ true)
    → (trim_end (c ∷ s) ≡ c ∷ s) × (has_text (c ∷ s) ≡ true)
unfolding trim_end has_text
trim_end-cons c s (same, text) =
    let more : (not (is_space c) || any (λ d. not (is_space d)) s) ≡ true = ground (arith, text) in
    (rw more (ap (λ r. c ∷ r) same), more)

trim_end-last :
    (c : ℕ) → is_alnum c ≡ true → (trim_end (c ∷ []) ≡ c ∷ []) × (has_text (c ∷ []) ≡ true)
unfolding trim_end
trim_end-last c h = let text = is_alnum-has_text c [] h in (rw text refl, text)

matches_group-tail :
    (c d : ℕ) (s : JsString) → matches_group (c ∷ d ∷ s) ≡ true → matches_group (d ∷ s) ≡ true
unfolding matches_group
matches_group-tail c d s h = ground arith

matches_group-last : (c : ℕ) → matches_group (c ∷ []) ≡ true → is_alnum c ≡ true
unfolding matches_group
matches_group-last c h = ground arith

-- The rest of a name has no space at its end.
trim_end-matches_group :
    (s : JsString) → matches_group s ≡ true → (trim_end s ≡ s) × (has_text s ≡ true)
trim_end-matches_group [] h = absurd (unfold matches_group in (ground arith))
trim_end-matches_group (c ∷ []) h = trim_end-last c (matches_group-last c h)
trim_end-matches_group (c ∷ d ∷ s) h =
    trim_end-cons c (d ∷ s) (trim_end-matches_group (d ∷ s) (matches_group-tail c d s h))

trim_start-is_alnum : (c : ℕ) (s : JsString) → is_alnum c ≡ true → trim_start (c ∷ s) ≡ c ∷ s
unfolding trim_start
trim_start-is_alnum c s h = rw (is_alnum-is_space c h) refl

matches_name-cases :
    (c : ℕ) (s : JsString)
    → matches_name (c ∷ s) ≡ true
    → (is_alnum c ≡ true) × ((s ≡ []) ⊎ (matches_group s ≡ true))
unfolding matches_name
matches_name-cases c [] h = (ground arith, inl refl)
matches_name-cases c (d ∷ s) h = (ground arith, inr (ground arith))

-- A name has no space at either end.
pub trim-matches_name :
    (name : JsString) → matches_name name ≡ true → (trim name ≡ name) × (has_text name ≡ true)
unfolding trim
trim-matches_name [] h = absurd (unfold matches_name in (ground arith))
trim-matches_name (c ∷ s) h =
    let (first, rest) = matches_name-cases c s h in
    let (same, text) = elim rest as (λ r. (trim_end (c ∷ s) ≡ c ∷ s) × (has_text (c ∷ s) ≡ true)) [
      | inl alone ↦
          subst (λ t. (trim_end (c ∷ t) ≡ c ∷ t) × (has_text (c ∷ t) ≡ true)) (sym alone)
            (trim_end-last c first)
      | inr group ↦ trim_end-cons c s (trim_end-matches_group s group)
    ] in
    (ap trim_end (trim_start-is_alnum c s first) ∙ same, text)

check_name-none : (name : JsString) → matches_name name ≡ true → check_name name ≡ none
unfolding check_name
check_name-none name h = rw ((trim-matches_name name h).1, h) refl

check_name-some :
    (name : JsString)
    → matches_name name ≡ false
    → (message : JsString) × (check_name name ≡ some message)
unfolding check_name
check_name-some name h = elim (Bool-cases (has_text name)) [
  | inl text ↦ (name_chars, rw (text, h) refl)
  | inr blank ↦ (name_required, rw blank refl)
]

-- The secret as it was filled in: each pair with a key is one entry, its key trimmed.
abbrev pub filled_secret : SecretList → SecretWrite
filled_secret s = record {
  namespace = s.namespace;
  name = s.new_secret_name;
  entries = map entry_of (valid_pairs s.new_secret_pairs);
}

submit_create-sent : (s : SecretList) → IsCreatable s → (submit_create s).1 ≡ some (filled_secret s)
unfolding submit_create
submit_create-sent s h =
    ap₂ (λ message checked. (create_checked message checked s).1)
      (check_name-none s.new_secret_name h.name) (check_pairs-ok s.new_secret_pairs h.pairs)
    ∙ ap₂
        (λ name entries. some (record { namespace = s.namespace; name = name; entries = entries }))
        (trim-matches_name s.new_secret_name h.name).0
        (put_pairs-AreDistinct (valid_pairs s.new_secret_pairs) h.pairs.distinct)

-- Nothing is sent, and the form shows an error.
abbrev pub IsRefusal : SecretList × Option SecretWrite → Type 0
IsRefusal r = (r.1 ≡ none) × (r.0.create_error ≢ none)

submit_create-refused : (s : SecretList) → ¬ IsCreatable s → IsRefusal (submit_create s)
unfolding submit_create
submit_create-refused s h = elim (Bool-cases (matches_name s.new_secret_name)) [
  | inl good ↦
      let (message, wrong) =
        check_pairs-failed s.new_secret_pairs (λ p. h (record { name = good; pairs = p })) in
      let checks =
        ap₂ (λ error checked. create_checked error checked s)
          (check_name-none s.new_secret_name good) wrong in
      subst IsRefusal (sym checks) (refl, λ e. cc)
  | inr bad ↦
      let (message, wrong) = check_name-some s.new_secret_name bad in
      subst IsRefusal
        (sym (ap (λ error. create_checked error (check_pairs s.new_secret_pairs) s) wrong))
        (refl, λ e. cc)
]

ArePairs-cases : (pairs : List KeyValuePair) → ArePairs pairs ⊎ (¬ ArePairs pairs)
ArePairs-cases pairs = elim (List-cases (valid_pairs pairs)) [
  | inl none_valid ↦ inr (λ h. h.some_pair none_valid)
  | inr (pair, rest, valid) ↦ elim (Bool-cases (has_duplicates (keys_of (valid_pairs pairs)))) [
    | inl twice ↦ inr (λ h.
        let once : has_duplicates (keys_of (valid_pairs pairs)) ≡ false =
          (has_duplicates_iff (keys_of (valid_pairs pairs))).1 h.distinct in
        cc)
    | inr once ↦ inl (record {
      some_pair = λ e. (cc (valid, e));
      distinct = (has_duplicates_iff (keys_of (valid_pairs pairs))).0 once;
    })
  ]
]

IsCreatable-cases : (s : SecretList) → IsCreatable s ⊎ (¬ IsCreatable s)
IsCreatable-cases s = elim (Bool-cases (matches_name s.new_secret_name)) [
  | inl good ↦ elim (ArePairs-cases s.new_secret_pairs) [
    | inl right ↦ inl (record { name = good; pairs = right })
    | inr wrong ↦ inr (λ h. wrong h.pairs)
  ]
  | inr bad ↦ inr (λ h. let good = h.name in cc)
]

-- If the name matches the pattern of names, some pair has a key and the keys are different but for
-- the spaces around them, then the form sends the secret: the name as it was typed, and each pair
-- with a key as one entry, its key trimmed, in the order of the form. Otherwise it sends nothing and
-- shows an error.
pub submit_create_lem :
    (s : SecretList)
    → (IsCreatable s × ((submit_create s).1 ≡ some (filled_secret s)))
      ⊎ ((¬ IsCreatable s) × IsRefusal (submit_create s))
submit_create_lem s = elim (IsCreatable-cases s) [
  | inl good ↦ inl (good, submit_create-sent s good)
  | inr bad ↦ let refused = submit_create-refused s bad in inr (bad, refused)
]
