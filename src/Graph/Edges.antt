-- ===== src/Graph/Edges.antt =====
-- The edges of `pipelineToGraph` are the dependencies that the pipeline states.
use mathlib.Core.List.{Memᴰ}
use mathlib.Core.List.Memᴰ
use mathlib.Core.Path.{subst₂, subst₃}
use jobrunner.Prelude.{
  ℕ, zero, suc, sym, subst, ◌∙◌, Option-cases, ◌↔◌, JsString, List, [], ◌∷◌, Option, none, some,
  map, filter, ◌≡◌, refl, inl, inr, true, arith, ap, has, set_of, has-set_of, get_elem?,
}
use jobrunner.Types.Pipeline.{PipelineStep, RunIfCondition, Pipeline}
use jobrunner.Types.Graph.{EdgeType, PipelineEdge}
use jobrunner.Graph.Depends.{
  before_from, before_from-cons, DependsFrom, IsTypeOf-run_edge_type, IsTypeOf-eq, HasEdge,
  DependsFrom_names,
}
use jobrunner.Graph.RunEdges.{run_edges, run_edges_sound, run_edges_complete}
use jobrunner.Graph.{
  run_edge_type, run_edge, sequential_edge, step_edges, edges_from, step_names, pipeline_to_graph,
}

module _ (names : List JsString) where
  abbrev DependsOn : Option PipelineStep → List PipelineStep → PipelineEdge → Type 0
  DependsOn prev steps e = DependsFrom names prev steps e.source e.target e.type

  step_edges_sound :
      (prev : Option PipelineStep) (step : PipelineStep) (steps : List PipelineStep)
      (e : PipelineEdge)
      → Memᴰ e (step_edges names prev step)
      → DependsOn prev (step ∷ steps) e
  unfolding step_edges
  step_edges_sound prev step steps e m = elim (Option-cases step.run_if) [
    | inl none_stated ↦ elim (Option-cases prev) [
      | inl first ↦ absurd (Memᴰ.not-nil (rw (none_stated, first) at m))
      | inr (p, second) ↦
          let same = Memᴰ.eq_of_singleton (rw (none_stated, second) at m) in
          DependsFrom.sequential 0 p step second refl none_stated (ground arith) (ground arith)
            (ground arith)
    ]
    | inr (run, stated) ↦
        let (d, listed, known, same) =
          run_edges_sound run step.name (has names) run.steps e
            (unfold run_edges in rw stated at m) in
        subst (DependsOn prev (step ∷ steps)) (sym same) (
          DependsFrom.conditional 0 step run refl stated listed known refl
            (IsTypeOf-run_edge_type run.condition))
  ]

  DependsFrom-cons :
      (prev : Option PipelineStep) (step : PipelineStep) (steps : List PipelineStep)
      {source target : JsString} {type : EdgeType}
      → DependsFrom names (some step) steps source target type
      → DependsFrom names prev (step ∷ steps) source target type
  DependsFrom-cons prev step steps
        (DependsFrom.conditional i s run at_i stated listed known name t) =
      DependsFrom.conditional (suc i) s run at_i stated listed known name t
  DependsFrom-cons prev step steps (DependsFrom.sequential i p s before_i at_i stated from to t) =
      DependsFrom.sequential (suc i) p s (before_from-cons prev step steps i ∙ before_i) at_i stated
        from to t

  edges_from_sound :
      (prev : Option PipelineStep) (steps : List PipelineStep) (e : PipelineEdge)
      → Memᴰ e (edges_from names prev steps)
      → DependsOn prev steps e
  unfolding edges_from
  edges_from_sound prev [] e m = absurd (Memᴰ.not-nil m)
  edges_from_sound prev (step ∷ steps) e m =
      elim (Memᴰ.append_cases (step_edges names prev step) m) [
        | inl now ↦ step_edges_sound prev step steps e now
        | inr later ↦ DependsFrom-cons prev step steps (edges_from_sound (some step) steps e later)
      ]

  HasEdge-tail :
      (prev : Option PipelineStep) (step : PipelineStep) (steps : List PipelineStep)
      (source target : JsString) (type : EdgeType)
      → HasEdge (edges_from names (some step) steps) source target type
      → HasEdge (edges_from names prev (step ∷ steps)) source target type
  unfolding edges_from
  HasEdge-tail prev step steps source target type (e, m, from, to, kind) =
      (e, Memᴰ.append_right (step_edges names prev step) m, from, to, kind)

  edges_from_head :
      (prev : Option PipelineStep) (step : PipelineStep) (steps : List PipelineStep)
      {e : PipelineEdge} {es : List PipelineEdge}
      → step_edges names prev step ≡ es
      → Memᴰ e es
      → Memᴰ e (edges_from names prev (step ∷ steps))
  unfolding edges_from
  edges_from_head prev step steps {e} same m =
      Memᴰ.append_left (edges_from names (some step) steps) (subst (Memᴰ e) (sym same) m)

  step_edges_conditional :
      (prev : Option PipelineStep) (step : PipelineStep) (run : RunIfCondition)
      → step.run_if ≡ some run
      → step_edges names prev step ≡ run_edges run step.name (has names) run.steps
  unfolding step_edges run_edges
  step_edges_conditional prev step run stated =
      ap
        (λ o. elim o [
          | some r ↦ map (run_edge r step.name) (filter (has names) r.steps)
          | none ↦ elim prev [ none ↦ [] | some p ↦ sequential_edge p.name step.name ∷ [] ]
        ])
        stated

  step_edges_sequential :
      (p step : PipelineStep)
      → step.run_if ≡ none
      → step_edges names (some p) step ≡ sequential_edge p.name step.name ∷ []
  unfolding step_edges
  step_edges_sequential p step stated =
      ap
        (λ o. elim o [
          | some r ↦ map (run_edge r step.name) (filter (has names) r.steps)
          | none ↦ sequential_edge p.name step.name ∷ []
        ])
        stated

  conditional_complete :
      (prev : Option PipelineStep) (steps : List PipelineStep) (source : JsString) (i : ℕ)
      (step : PipelineStep) (run : RunIfCondition)
      → get_elem? steps i ≡ some step
      → step.run_if ≡ some run
      → has run.steps source ≡ true
      → has names source ≡ true
      → HasEdge (edges_from names prev steps) source step.name (run_edge_type run.condition)
  conditional_complete prev [] source i step run at_i stated listed known = cc
  conditional_complete prev (s ∷ steps) source zero step run at_i stated listed known =
      let m =
        edges_from_head prev step steps (step_edges_conditional prev step run stated)
          (run_edges_complete run step.name (has names) run.steps source listed known) in
      let here : s ≡ step = cc in
      (
        run_edge run step.name source,
        subst (λ x. Memᴰ (run_edge run step.name source) (edges_from names prev (x ∷ steps)))
            (sym here) m,
        refl,
        refl,
        refl,
      )
  conditional_complete prev (s ∷ steps) source (suc i) step run at_i stated listed known =
      HasEdge-tail prev s steps source step.name (run_edge_type run.condition)
        (conditional_complete (some s) steps source i step run at_i stated listed known)

  sequential_complete :
      (prev : Option PipelineStep) (steps : List PipelineStep) (i : ℕ) (p step : PipelineStep)
      → before_from prev steps i ≡ some p
      → get_elem? steps i ≡ some step
      → step.run_if ≡ none
      → HasEdge (edges_from names prev steps) p.name step.name EdgeType.sequential
  sequential_complete prev [] i p step before_i at_i stated = cc
  sequential_complete prev (s ∷ steps) zero p step before_i at_i stated =
      let m =
        edges_from_head (some p) step steps (step_edges_sequential p step stated)
          (Memᴰ.head {xs = []} refl) in
      let here : s ≡ step = cc in
      (
        sequential_edge p.name step.name,
        subst₂ (λ q x. Memᴰ (sequential_edge p.name step.name) (edges_from names q (x ∷ steps)))
            (sym before_i) (sym here) m,
        refl,
        refl,
        refl,
      )
  sequential_complete prev (s ∷ steps) (suc i) p step before_i at_i stated =
      HasEdge-tail prev s steps p.name step.name EdgeType.sequential (
        sequential_complete (some s) steps i p step
          (sym (before_from-cons prev s steps i) ∙ before_i) at_i stated)

  edges_from_complete :
      (prev : Option PipelineStep) (steps : List PipelineStep) {source target : JsString}
      {type : EdgeType}
      → DependsFrom names prev steps source target type
      → HasEdge (edges_from names prev steps) source target type
  edges_from_complete prev steps {source}
        (DependsFrom.conditional i step run at_i stated listed known name t) =
      let (e, m, from, to, kind) =
        conditional_complete prev steps source i step run at_i stated listed known in
      (e, m, from, to ∙ name, kind ∙ IsTypeOf-eq run.condition _ t)
  edges_from_complete prev steps (DependsFrom.sequential i p step before_i at_i stated from to t) =
      let (e, m, from', to', kind) = sequential_complete prev steps i p step before_i at_i stated in
      (e, m, from' ∙ from, to' ∙ to, kind ∙ sym t)

-- An edge with the given ends and type is drawn exactly if the pipeline states that dependency:
-- the target's condition names the source and the source is a step of the pipeline, and the type
-- says whether the condition is 'fail'; or the target has no condition and stands right behind the
-- source.
pub pipeline_to_graph-edges_iff :
    (pipeline : Pipeline) (source target : JsString) (type : EdgeType)
    → HasEdge (pipeline_to_graph pipeline).edges source target type
      ↔ DependsFrom (step_names pipeline) none pipeline.spec.steps source target type
unfolding pipeline_to_graph
pipeline_to_graph-edges_iff pipeline source target type =
    let names = step_names pipeline in
    let steps = pipeline.spec.steps in
    (
      λ (e, m, from, to, kind). DependsFrom_names (set_of names) names (has-set_of names) steps (
          subst₃ (λ a b t. DependsFrom (set_of names) none steps a b t) from to kind
            (edges_from_sound (set_of names) none steps e m)),
      λ d.
          edges_from_complete (set_of names) none steps
            (DependsFrom_names names (set_of names) (λ x. sym (has-set_of names x)) steps d),
    )
