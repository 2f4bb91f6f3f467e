-- ===== src/Pipelines/Copy.antt =====
-- A pipeline that is copied in the list and loaded by the builder.
use mathlib.Core.Path.{fun_ext}
use jobrunner.Prelude.{
  ℕ, JsString, codes, List, [], ◌∷◌, ◌++◌, none, some, false, ok, Answer, Option, or_else, ◌≢◌, ◌∙◌,
  ◌≡◌, refl, ap, arith, subst, to_decimal,
}
use jobrunner.Types.Pipeline.{Pipeline}
use jobrunner.Canvas.{
  Canvas, load_pipeline_data, strip_copy, copy_suffix, copy_number, all_digits, is_digit,
  load_from_copied_pipeline,
}
use jobrunner.Canvas.FreshName.{IsNamed, load_from_copied_pipeline-IsNamed}
use jobrunner.Pipelines.{PipelineList}
use jobrunner.Pipelines.Menu.{copied_pipeline, copy_pipeline}

abbrev pub ending : JsString
ending = codes "-copy"

all_digits-copy : (s : JsString) → all_digits (s ++ ending) ≡ false
unfolding all_digits is_digit
all_digits-copy [] = refl
all_digits-copy (c ∷ s) = ground (arith, all_digits-copy s)

copy_number-copy : (s : JsString) → copy_number (s ++ ending) ≡ false
unfolding copy_number is_digit
copy_number-copy [] = refl
copy_number-copy (c ∷ []) = ground arith
copy_number-copy (c ∷ d ∷ s) = ground (arith, all_digits-copy s)

copy_suffix-copy : (c : ℕ) (s : JsString) → copy_suffix (c ∷ s ++ ending) ≡ false
unfolding copy_suffix
copy_suffix-copy c [] = ground arith
copy_suffix-copy c (b ∷ []) = ground arith
copy_suffix-copy c (b ∷ d ∷ []) = ground arith
copy_suffix-copy c (b ∷ d ∷ e ∷ []) = ground arith
copy_suffix-copy c (b ∷ d ∷ e ∷ f ∷ s) = ground (arith, copy_number-copy s)

-- The ending that a copy gets is the one that is cut off again.
strip_copy-copy : (name : JsString) → strip_copy (name ++ ending) ≡ name
unfolding strip_copy
strip_copy-copy [] = unfold copy_suffix copy_number in refl
strip_copy-copy (c ∷ name) = rw (copy_suffix-copy c name) (ap (λ s. c ∷ s) (strip_copy-copy name))

-- The candidates for the name of a copy of `x`: x-copy-2, x-copy-3 and so on.
abbrev pub copy_candidate : JsString → ℕ → JsString
copy_candidate name k = name ++ codes "-copy-" ++ to_decimal k

-- What the builder makes of a copy of a pipeline when it has the names in the namespace.
pub load_from_copied_pipeline-copied_pipeline :
    (p : Pipeline) (listed : List Pipeline) (c : Canvas)
    → (d : Canvas) × (load_from_copied_pipeline (copied_pipeline p) (ok listed) c ≡ some d)
      × (d.pipeline.spec ≡ p.spec)
      × (d.pipeline.status ≡ none)
      × IsNamed (copy_candidate p.metadata.name) (p.metadata.name ++ ending) listed d
unfolding copied_pipeline
load_from_copied_pipeline-copied_pipeline p listed c =
    let name = p.metadata.name in
    let (d, loaded, kept, named) = load_from_copied_pipeline-IsNamed (copied_pipeline p) listed c in
    (
      d,
      loaded,
      ap (λ (q : Pipeline). q.spec) kept,
      ap (λ (q : Pipeline). q.status) kept,
      subst (λ candidate. IsNamed candidate (name ++ ending) listed d)
          (fun_ext (λ k. ap (λ s. s ++ codes "-copy-" ++ to_decimal k) (strip_copy-copy name)))
          named,
    )

load_pipeline_data-stored :
    (parse : JsString → Option Pipeline) (listing : JsString → Answer (List Pipeline))
    (shell text : JsString) (copied : Pipeline) (c : Canvas)
    → text ≢ []
    → parse text ≡ some copied
    → load_pipeline_data parse listing shell (some text) c ≡ (
      load_from_copied_pipeline copied
          (listing (or_else copied.metadata.namespace (codes "default")))
          c,
      none,
    )
unfolding load_pipeline_data
load_pipeline_data-stored parse listing shell [] copied c full parses = absurd (full refl)
load_pipeline_data-stored parse listing shell (x ∷ text) copied c full parses = rw parses refl

-- A pipeline x that is copied in the list comes up in the builder, when that loads, with the steps and
-- settings that it had and no status, under the first free name among x-copy, x-copy-2, x-copy-3 and
-- so on, and the copy is taken from the session storage. The conditions are that `JSON.parse`
-- reads of the copy what `JSON.stringify` wrote, which is not the empty text, and that the pipelines
-- are listed.
pub load_pipeline_data-copy_pipeline :
    (stringify : Pipeline → JsString) (parse : JsString → Option Pipeline)
    → (listing : JsString → Answer (List Pipeline)) (p : Pipeline) (listed : List Pipeline)
    → stringify (copied_pipeline p) ≢ []
    → parse (stringify (copied_pipeline p)) ≡ some (copied_pipeline p)
    → listing (or_else p.metadata.namespace (codes "default")) ≡ ok listed
    → (s : PipelineList) (shell : JsString) (c : Canvas)
    → (d : Canvas) × (load_pipeline_data parse listing shell
          (some ((copy_pipeline stringify p s).1.0))
          c
        ≡ (some d, none))
      × (d.pipeline.spec ≡ p.spec)
      × (d.pipeline.status ≡ none)
      × IsNamed (copy_candidate p.metadata.name) (p.metadata.name ++ ending) listed d
unfolding copy_pipeline copied_pipeline
load_pipeline_data-copy_pipeline stringify parse listing p listed full parses answers s shell c =
    let (d, loaded, spec, status, named) = load_from_copied_pipeline-copied_pipeline p listed c in
    (
      d,
      load_pipeline_data-stored parse listing shell (stringify (copied_pipeline p))
            (copied_pipeline p) c full parses
          ∙ ap (λ answer. (load_from_copied_pipeline (copied_pipeline p) answer c, none)) answers
          ∙ ap (λ e. (e, none)) loaded,
      spec,
      status,
      named,
    )
