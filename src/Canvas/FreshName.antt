-- ===== src/Canvas/FreshName.antt =====
-- The loops for a unique name end, with a name that is free.
use jobrunner.Prelude.{
  ok, has-delete, ℕ, zero, suc, ◌+◌, ◌≤◌, ◌<◌, JsString, codes, List, [], ◌∷◌, ◌++◌, some, true,
  false, not, ◌≡◌, refl, arith, inl, inr, ◌⊎◌, length, length-filter-le, map, Bool-cases, str_eq,
  str_eq_iff, has, delete, set_of, has-set_of, to_decimal-injective, ◌==◌, ==_iff,
}
use mathlib.Core.List.{append_cancel_left}
use jobrunner.Types.Pipeline.{Pipeline}
use jobrunner.Canvas.{
  Canvas, set_name, set_namespace, load_steps, unique_name_from, unique_name, numbered,
  copy_numbered, strip_copy, load_existing_pipelines, load_from_copied_pipeline,
}

length-delete :
    (xs : List JsString) (x : JsString) → has xs x ≡ true → length (delete xs x) < length xs
unfolding has delete
length-delete [] x h = cc
length-delete (y ∷ xs) x h =
    ground (arith, length-delete xs x, length-filter-le (λ z. not (str_eq z x)) xs)

-- The first free name: the base, or the base's first numbered candidate that is free, from 2 on.
pub record IsFirstFree (candidate : ℕ → JsString) (taken : List JsString) (base name : JsString)
    : Type 0 where
  pub free : has taken name ≡ false
  pub first :
      (name ≡ base)
      ⊎ ((has taken base ≡ true)
          × ((k : ℕ) × (2 ≤ k)
              × (name ≡ candidate k)
              × ((i : ℕ) → 2 ≤ i → i < k → has taken (candidate i) ≡ true)))

module _ (candidate : ℕ → JsString) (injective : (i j : ℕ) → candidate i ≡ candidate j → i ≡ j)
    (taken : List JsString) where
  -- `xs` holds the taken names that a later round can still meet.
  rounds :
      (fuel k : ℕ) (xs : List JsString)
      → length xs < fuel
      → ((j : ℕ) → k ≤ j → has taken (candidate j) ≡ true → has xs (candidate j) ≡ true)
      → (j : ℕ) × (k ≤ j)
        × (unique_name_from candidate taken fuel k (candidate k) ≡ some (candidate j))
        × (has taken (candidate j) ≡ false)
        × ((i : ℕ) → k ≤ i → i < j → has taken (candidate i) ≡ true)
  unfolding unique_name_from
  rounds zero k xs room later = absurd (omega arith)
  rounds (suc fuel) k xs room later = elim (Bool-cases (has taken (candidate k))) [
    | inr free ↦ (k, omega arith, rw free, free, λ i a b. absurd (omega arith))
    | inl met ↦
        let inside = later k (omega arith) met in
        let (j, above, found, free, before) =
          rounds fuel (k + 1) (delete xs (candidate k))
            (omega (arith, length-delete xs (candidate k) inside))
            (λ i a b. still i a (later i (omega arith) b)) in
        (
          j,
          omega arith,
          rw met found,
          free,
          λ i a b. elim (Bool-cases (i == k)) [
            | inl same ↦ rw ((==_iff i k).0 same) met
            | inr past ↦ before i (ground arith) b
          ],
        )
  ]
    where
      still :
          (i : ℕ)
          → k + 1 ≤ i
          → has xs (candidate i) ≡ true
          → has (delete xs (candidate k)) (candidate i) ≡ true
      still i above inside = ground (
        arith,
        has-delete xs (candidate k) (candidate i),
        str_eq_iff (candidate k) (candidate i),
        injective k i,
      )

  unique_name_lem :
      (base : JsString)
      → (name : JsString) × (unique_name candidate taken base ≡ some name)
        × IsFirstFree candidate taken base name
  unfolding unique_name unique_name_from
  unique_name_lem base = elim (Bool-cases (has taken base)) [
    | inr free ↦ (base, rw free, record { free = free; first = inl refl })
    | inl met ↦
        let (k, above, found, free, before) =
          rounds (suc (length taken)) 2 taken (omega arith) (λ j a b. b) in
        (
          candidate k,
          rw met found,
          record { free = free; first = inr (met, (k, above, refl, before)) },
        )
  ]

numbered-injective : (base : JsString) (i j : ℕ) → numbered base i ≡ numbered base j → i ≡ j
numbered-injective base i j e =
    to_decimal-injective i j (append_cancel_left (base ++ codes "-") _ _ e)

copy_numbered-injective :
    (base : JsString) (i j : ℕ) → copy_numbered base i ≡ copy_numbered base j → i ≡ j
copy_numbered-injective base i j e =
    to_decimal-injective i j (append_cancel_left (strip_copy base ++ codes "-copy-") _ _ e)

abbrev pub listed_names : List Pipeline → List JsString
listed_names pipelines = map (λ p. p.metadata.name) pipelines

-- What holds of the canvas once the listing of the namespace has come.
pub record IsNamed (candidate : ℕ → JsString) (base : JsString) (pipelines : List Pipeline)
    (d : Canvas) : Type 0 where
  pub known :
      (name : JsString) → has d.existing_pipeline_names name ≡ has (listed_names pipelines) name
  pub name : IsFirstFree candidate d.existing_pipeline_names base d.pipeline.metadata.name

-- Whatever pipelines exist, a new pipeline gets the first free name among new-pipeline,
-- new-pipeline-2, new-pipeline-3 and so on, in the namespace that was listed.
pub load_existing_pipelines-IsNamed :
    (namespace : JsString) (pipelines : List Pipeline) (c : Canvas)
    → (d : Canvas) × (load_existing_pipelines namespace (ok pipelines) c ≡ some d)
      × (d.pipeline.metadata.namespace ≡ some namespace)
      × IsNamed (numbered (codes "new-pipeline")) (codes "new-pipeline") pipelines d
unfolding load_existing_pipelines
load_existing_pipelines-IsNamed namespace pipelines c =
    let base = codes "new-pipeline" in
    let (name, found, first) =
      unique_name_lem (numbered base) (numbered-injective base) (set_of (listed_names pipelines))
        base in
    (
      record c {
        existing_pipeline_names = set_of (listed_names pipelines);
        pipeline = set_namespace (set_name c.pipeline name) namespace;
      },
      rw found,
      refl,
      record { known = has-set_of (listed_names pipelines); name = first },
    )

-- A copied pipeline keeps its name if that is free, and gets the first free name among x-copy-2,
-- x-copy-3 and so on if not, where x is its name without the ending -copy or -copy-n; the rest of
-- the copy is kept.
pub load_from_copied_pipeline-IsNamed :
    (copied : Pipeline) (pipelines : List Pipeline) (c : Canvas)
    → (d : Canvas) × (load_from_copied_pipeline copied (ok pipelines) c ≡ some d)
      × (d.pipeline ≡ set_name copied d.pipeline.metadata.name)
      × IsNamed (copy_numbered copied.metadata.name) copied.metadata.name pipelines d
unfolding load_from_copied_pipeline
load_from_copied_pipeline-IsNamed copied pipelines c =
    let base = copied.metadata.name in
    let (name, found, first) =
      unique_name_lem (copy_numbered base) (copy_numbered-injective base)
        (set_of (listed_names pipelines)) base in
    (
      record c {
        existing_pipeline_names = set_of (listed_names pipelines);
        pipeline = set_name copied name;
        canvas_steps = load_steps copied.spec.steps c.canvas_steps;
      },
      rw found,
      refl,
      record { known = has-set_of (listed_names pipelines); name = first },
    )
