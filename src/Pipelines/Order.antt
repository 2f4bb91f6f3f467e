-- ===== src/Pipelines/Order.antt =====
-- The list of pipelines as it is shown: the ones that match the search, in order.
use jobrunner.Prelude.{ℕ, JsString}
use jobrunner.Types.Pipeline.{Pipeline}
use jobrunner.Sorting.{Sign, directed}
use jobrunner.Pipelines.{PipelineList, comparison}

module _ (to_lower : JsString → JsString) (locale_compare : JsString → JsString → Sign)
    (time_of : JsString → ℕ) where
  -- The order that a column and a direction ask for.
  abbrev pub chosen : PipelineList → Pipeline → Pipeline → Sign
  chosen s a b =
      directed s.sort_direction (comparison to_lower locale_compare time_of s.sort_column a b)
