-- ===== src/Pipelines/Tests.antt =====
-- The list of pipelines at concrete inputs.
use jobrunner.Prelude.{
  JsString, codes, List, [], ◌∷◌, ◌++◌, Option, none, some, Answer, ok, ◌≡◌, refl, length,
  to_decimal,
}
use jobrunner.Types.Pipeline.{Pipeline}
use jobrunner.Graph.{create_empty_pipeline}
use jobrunner.Canvas.{Canvas, new_canvas, load_pipeline_data}
use jobrunner.Canvas.FreshName.{IsNamed}
use jobrunner.Sorting.{Sign, difference, asc}
use jobrunner.Paging.Rows.{format_time}
use jobrunner.Pipelines.{PipelineList, new_pipelines, by_name}
use jobrunner.Pipelines.Menu.{copied_pipeline, copy_pipeline}
use jobrunner.Pipelines.Copy.{ending, copy_candidate, load_pipeline_data-copy_pipeline}

-- Texts compared by their lengths.
abbrev by_length : JsString → JsString → Sign
by_length a b = difference (length a) (length b)

abbrev named : JsString → Pipeline
named name = create_empty_pipeline name (codes "ci")

abbrev two_pipelines : PipelineList
two_pipelines = record new_pipelines {
  pipelines = named (codes "nightly") ∷ named (codes "build") ∷ [];
  sort_column = by_name;
  sort_direction = asc;
}

two_hours : format_time 7200000 0 (codes "1/1/1970") ≡ codes "2h ago"
unfolding format_time to_decimal
two_hours = refl

-- A stand-in for JSON that knows the one pipeline that is copied.
abbrev brackets : Pipeline → JsString
brackets p = codes "{}"

abbrev the_copy : JsString → Option Pipeline
the_copy text = some (copied_pipeline (named (codes "nightly")))

abbrev one_listed : JsString → Answer (List Pipeline)
one_listed namespace = ok (named (codes "nightly") ∷ [])

load_pipeline_data-copy_pipeline_example :
    (d : Canvas) × (load_pipeline_data the_copy one_listed
        (codes "ci")
        (some ((copy_pipeline brackets (named (codes "nightly")) new_pipelines).1.0))
        new_canvas
      ≡ (some d, none))
    × (d.pipeline.spec ≡ (named (codes "nightly")).spec)
    × (d.pipeline.status ≡ none)
    × IsNamed
        (copy_candidate (named (codes "nightly")).metadata.name)
        ((named (codes "nightly")).metadata.name ++ ending)
        (named (codes "nightly") ∷ [])
        d
load_pipeline_data-copy_pipeline_example =
    load_pipeline_data-copy_pipeline brackets the_copy one_listed (named (codes "nightly"))
      (named (codes "nightly") ∷ []) (λ h. cc) refl refl new_pipelines (codes "ci") new_canvas
