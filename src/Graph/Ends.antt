-- ===== src/Graph/Ends.antt =====
-- The ends of the edges of a graph are nodes of it.
use mathlib.Core.List.{Memᴰ}
use jobrunner.Prelude.{
  ℕ, zero, suc, ◌+◌, JsString, List, [], ◌∷◌, Option, none, some, true, ◌≡◌, refl, sym, ap, ◌∙◌,
  subst, arith, All, has, str_eq, str_eq_refl, map, get_elem?,
}
use jobrunner.Types.Pipeline.{PipelineStep, Pipeline}
use jobrunner.Types.Status.{PipelineStatus}
use jobrunner.Types.Graph.{PipelineNode, PipelineEdge, PipelineGraph}
use jobrunner.Graph.{
  ElkGraph, ElkPlaced, step_names, nodes_from, pipeline_to_graph, elk_graph, layout_graph,
}
use jobrunner.Graph.Depends.{DependsFrom}
use jobrunner.Graph.Edges.{pipeline_to_graph-edges_iff}
use jobrunner.Graph.Layout.{fixed, layout_graph_lem}

has_at :
    (steps : List PipelineStep) (i : ℕ) (step : PipelineStep)
    → get_elem? steps i ≡ some step
    → has (map (λ s. s.name) steps) step.name ≡ true
unfolding has
has_at [] i step e = cc
has_at (s ∷ steps) zero step e =
    let same : s ≡ step = cc in
    let named : str_eq s.name step.name ≡ true =
      ap (λ (x : PipelineStep). str_eq s.name x.name) (sym same) ∙ str_eq_refl s.name in
    rw named refl
has_at (s ∷ steps) (suc i) step e = rw (has_at steps i step e) (ground arith)

ends_known :
    (pipeline : Pipeline) (e : PipelineEdge)
    → Memᴰ e (pipeline_to_graph pipeline).edges
    → (has (step_names pipeline) e.source ≡ true) × (has (step_names pipeline) e.target ≡ true)
ends_known pipeline e m =
    known
      ((pipeline_to_graph-edges_iff pipeline e.source e.target e.type).0 (e, m, refl, refl, refl))
  where
    known :
        DependsFrom (step_names pipeline) none pipeline.spec.steps e.source e.target e.type
        → (has (step_names pipeline) e.source ≡ true) × (has (step_names pipeline) e.target ≡ true)
    known (DependsFrom.conditional i step run at_i stated listed here name t) =
        (here, subst (λ x. has (step_names pipeline) x ≡ true) name (has_at _ i step at_i))
    known (DependsFrom.sequential zero p step before_i at_i stated from to t) = absurd (cc)
    known (DependsFrom.sequential (suc i) p step before_i at_i stated from to t) = (
      subst (λ x. has (step_names pipeline) x ≡ true) from (has_at _ i p before_i),
      subst (λ x. has (step_names pipeline) x ≡ true) to (has_at _ (suc i) step at_i),
    )

abbrev pub ids : List PipelineNode → List JsString
ids nodes = map (λ n. n.id) nodes

ids-nodes_from :
    (status : Option PipelineStatus) (index : ℕ) (steps : List PipelineStep)
    → ids (nodes_from status index steps) ≡ map (λ s. s.name) steps
unfolding nodes_from
ids-nodes_from status index [] = refl
ids-nodes_from status index (step ∷ steps) =
    ap (λ r. step.name ∷ r) (ids-nodes_from status (index + 1) steps)

ids-fixed : (nodes : List PipelineNode) → ids (map fixed nodes) ≡ ids nodes
ids-fixed [] = refl
ids-fixed (n ∷ nodes) = ap (λ r. n.id ∷ r) (ids-fixed nodes)

edges-All :
    (P : PipelineEdge → Type 0) (edges : List PipelineEdge)
    → ((e : PipelineEdge) → Memᴰ e edges → P e)
    → All P edges
edges-All P [] h = tt
edges-All P (e ∷ edges) h =
    (h e (Memᴰ.head {xs = edges} refl), edges-All P edges (λ x m. h x (Memᴰ.tail m)))

-- Both ends of the edge are among the names.
abbrev pub Known : List JsString → PipelineEdge → Type 0
Known names e = (has names e.source ≡ true) × (has names e.target ≡ true)

-- The laid out graph of a pipeline has an edge for each of its dependencies, between two of its own
-- nodes.
pub layout_graph-Known :
    (elk : ElkGraph → Option (Option (List ElkPlaced))) (pipeline : Pipeline)
    (answer : Option (List ElkPlaced))
    → elk (elk_graph (pipeline_to_graph pipeline)) ≡ some answer
    → (g : PipelineGraph) × (layout_graph elk (pipeline_to_graph pipeline) ≡ some g)
      × (g.edges ≡ (pipeline_to_graph pipeline).edges)
      × All (Known (ids g.nodes)) g.edges
unfolding pipeline_to_graph
layout_graph-Known elk pipeline answer e =
    let (g, laid_out, edges, nodes, _) =
      layout_graph_lem elk (pipeline_to_graph pipeline) answer e in
    let same : ids g.nodes ≡ step_names pipeline =
      sym (ids-fixed g.nodes)
      ∙ ap ids nodes
      ∙ ids-fixed (pipeline_to_graph pipeline).nodes
      ∙ ids-nodes_from pipeline.status 0 pipeline.spec.steps in
    (
      g,
      laid_out,
      edges,
      rw (same, edges)
          (edges-All (Known (step_names pipeline)) (pipeline_to_graph pipeline).edges
            (ends_known pipeline)),
    )
