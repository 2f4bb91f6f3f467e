-- ===== src/Detail/Drawing/Complete.antt =====
-- Every edge of a pipeline is drawn: both of its ends are nodes.
use jobrunner.Prelude.{
  ℕ, suc, ◌+◌, JsString, List, [], ◌∷◌, Option, none, some, true, ◌≡◌, ◌≢◌, refl, ap, ◌∙◌, All, has,
  str_eq, length, length-map, map, Option-cases, Bool-cases, inl, inr,
}
use jobrunner.Types.Pipeline.{Pipeline}
use jobrunner.Types.Graph.{Position, PipelineNode, PipelineEdge, PipelineGraph}
use jobrunner.Graph.{ElkGraph, ElkPlaced, pipeline_to_graph, elk_graph, layout_graph}
use jobrunner.Graph.Ends.{ids, Known, layout_graph-Known}
use jobrunner.Detail.Drawing.{node_position, numbered_from, Arrow, arrow_of, draw_edge, draw_edges}

node_position_known :
    (nodes : List PipelineNode) (id : JsString)
    → has (ids nodes) id ≡ true
    → node_position nodes id ≢ none
unfolding has node_position
node_position_known [] id h = cc
node_position_known (node ∷ nodes) id h = elim (Option-cases (node_position nodes id)) [
  | inl no_later ↦ elim (Bool-cases (str_eq node.id id)) [
    | inl here ↦ rw (no_later, here) (λ e. cc)
    | inr other ↦ absurd (node_position_known nodes id (rw other at h) no_later)
  ]
  | inr (position, later) ↦ rw later (λ e. cc)
]

module _ (nodes : List PipelineNode) (all_numbered : List (ℕ × PipelineEdge)) where
  arrow_of_known :
      (e : ℕ × PipelineEdge) (source target : Option Position)
      → source ≢ none
      → target ≢ none
      → arrow_of all_numbered e source target ≢ none
  arrow_of_known e (some s) (some t) h k = λ p. cc
  arrow_of_known e none target h k = absurd (h refl)
  arrow_of_known e (some s) none h k = absurd (k refl)

  arrows-Known :
      (i : ℕ) (edges : List PipelineEdge)
      → All (Known (ids nodes)) edges
      → All
          (λ (a : Option Arrow). a ≢ none)
          (map (draw_edge nodes all_numbered) (numbered_from i edges))
  unfolding draw_edge numbered_from
  arrows-Known i [] h = tt
  arrows-Known i (e ∷ edges) ((from, to), h) = (
    arrow_of_known (i, e) _ _ (node_position_known nodes e.source from)
        (node_position_known nodes e.target to),
    arrows-Known (i + 1) edges h,
  )

length-numbered_from :
    (i : ℕ) (edges : List PipelineEdge) → length (numbered_from i edges) ≡ length edges
unfolding numbered_from
length-numbered_from i [] = refl
length-numbered_from i (e ∷ edges) = ap suc (length-numbered_from (i + 1) edges)

-- Once its graph is laid out, every edge of a pipeline is drawn as one arrow: none is left out for
-- the want of a node at one of its ends, whatever places the layout gives.
pub draw_edges_complete :
    (elk : ElkGraph → Option (Option (List ElkPlaced))) (pipeline : Pipeline)
    (answer : Option (List ElkPlaced))
    → elk (elk_graph (pipeline_to_graph pipeline)) ≡ some answer
    → (g : PipelineGraph) × (layout_graph elk (pipeline_to_graph pipeline) ≡ some g)
      × (length (draw_edges g) ≡ length (pipeline_to_graph pipeline).edges)
      × All (λ (a : Option Arrow). a ≢ none) (draw_edges g)
unfolding draw_edges
draw_edges_complete elk pipeline answer e =
    let (g, laid_out, edges, known) = layout_graph-Known elk pipeline answer e in
    (
      g,
      laid_out,
      length-map _ _ ∙ length-numbered_from 0 g.edges ∙ ap length edges,
      arrows-Known g.nodes (numbered_from 0 g.edges) 0 g.edges known,
    )
