-- ===== src/Detail/Loading.antt =====
-- What the page of a pipeline shows once it has been loaded.
use jobrunner.Prelude.{
  List, [], ◌∷◌, ◌++◌, Option, none, some, Bool, true, false, ◌≡◌, refl, Answer, ok, failed,
}
use jobrunner.Types.Pipeline.{Pipeline}
use jobrunner.Types.Graph.{PipelineGraph}
use jobrunner.Graph.{pipeline_to_graph}
use jobrunner.Detail.{
  PipelineDetail, pipeline_loaded, graph_laid_out, load_with, Shown, problem, details, render,
}

-- An error with a message, if any.
abbrev pub speaks : {A : Type 0} → Answer A → Bool
speaks (failed []) = false
speaks _ = true

abbrev pub latest : {A : Type 0} → Answer A → Option A → Option A
latest (ok a) old = some a
latest (failed message) old = old

abbrev page_laid_out : Pipeline → Answer PipelineGraph → Shown
page_laid_out p (ok graph) = details p
page_laid_out p (failed message) = problem message

module _ (layout : PipelineGraph → Answer PipelineGraph) where
  -- The page that the two answers call for.
  abbrev pub page_for : Answer Pipeline → Shown
  page_for (ok p) = page_laid_out p (layout (pipeline_to_graph p))
  page_for (failed message) = problem message

  abbrev pub graph_of : Answer Pipeline → Option PipelineGraph → Option PipelineGraph
  graph_of (ok p) old = latest (layout (pipeline_to_graph p)) old
  graph_of (failed message) old = old

  load_with_lem :
      (answer : Answer Pipeline) (s : PipelineDetail)
      → speaks answer ≡ true
      → ((graph : PipelineGraph) → speaks (layout graph) ≡ true)
      → (render (load_with layout answer s) ≡ page_for answer)
        × ((load_with layout answer s).pipeline ≡ latest answer s.pipeline)
        × ((load_with layout answer s).graph ≡ graph_of answer s.graph)
  unfolding load_with pipeline_loaded graph_laid_out render
  load_with_lem (ok p) s h k = by_layout (layout (pipeline_to_graph p)) (k (pipeline_to_graph p))
    where
      by_layout :
          (laid_out : Answer PipelineGraph)
          → speaks laid_out ≡ true
          → (render (graph_laid_out laid_out (pipeline_loaded (ok p) s).0)
              ≡ page_laid_out p laid_out)
            × ((graph_laid_out laid_out (pipeline_loaded (ok p) s).0).pipeline ≡ some p)
            × ((graph_laid_out laid_out (pipeline_loaded (ok p) s).0).graph
                ≡ latest laid_out s.graph)
      by_layout (ok graph) e = (refl, refl, refl)
      by_layout (failed (c ∷ message)) e = (refl, refl, refl)
      by_layout (failed []) e = absurd (cc)
  load_with_lem (failed (c ∷ message)) s h k = (by_pipeline s.pipeline, refl, refl)
    where
      by_pipeline :
          (o : Option Pipeline)
          → ◌≡◌ {A = Shown}
              (elim o [ none ↦ problem (c ∷ message) | some q ↦ problem (c ∷ message) ])
              (problem (c ∷ message))
      by_pipeline none = refl
      by_pipeline (some q) = refl
  load_with_lem (failed []) s h k = absurd (cc)

  -- The polls of the page, one answer after the other.
  abbrev pub polls : List (Answer Pipeline) → PipelineDetail → PipelineDetail
  polls [] s = s
  polls (answer ∷ answers) s = polls answers (load_with layout answer s)

  -- However the polls before it went, the page shows what the last one calls for: after any number
  -- of errors the first poll that succeeds brings the pipeline back. Behind an error of that poll the
  -- page keeps the pipeline and the graph of the polls before. Errors have a message.
  pub polls_lem :
      (earlier : List (Answer Pipeline)) (answer : Answer Pipeline) (s : PipelineDetail)
      → speaks answer ≡ true
      → ((graph : PipelineGraph) → speaks (layout graph) ≡ true)
      → (render (polls (earlier ++ answer ∷ []) s) ≡ page_for answer)
        × ((polls (earlier ++ answer ∷ []) s).pipeline ≡ latest answer (polls earlier s).pipeline)
        × ((polls (earlier ++ answer ∷ []) s).graph ≡ graph_of answer (polls earlier s).graph)
  polls_lem [] answer s h k = load_with_lem answer s h k
  polls_lem (first ∷ earlier) answer s h k = polls_lem earlier answer (load_with layout first s) h k
