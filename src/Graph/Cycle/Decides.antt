-- ===== src/Graph/Cycle/Decides.antt =====
-- `wouldCreateCycle` decides whether the edges with the new one contain a cycle.
use mathlib.Core.Logic.{∥∥₁_elim, ∥∥₁_map}
use mathlib.Core.Bool.{So-prop}
use jobrunner.Prelude.{
  JsString, List, [], some, Bool, true, false, ◌≡◌, refl, ◌⊎◌, ◌↔◌, arith, length, str_eq_iff, has,
}
use jobrunner.Types.Graph.{PipelineEdge}
use jobrunner.Graph.Cycle.{
  Adjacency, Search, Outcome, found, out_of_fuel, clear, neighbors, link, link_all, keys, names,
  visit_roots, no_search, answer, would_create_cycle,
}
use jobrunner.Graph.Cycle.Walk.{Walk, Walk-first, Walk-map}
use jobrunner.Graph.Cycle.Adjacency.{
  Edge, links, has-neighbors-link, has-neighbors-link_all, has-keys, has-names_of_keys,
}
use jobrunner.Graph.Cycle.Invariant.{unvisited-le, Inv, Cycle, Ensures}
use jobrunner.Graph.Cycle.Dfs.{AllBlack, visit_roots_lem}

-- An edge of the list, or the new edge.
abbrev pub NewEdge : List PipelineEdge → JsString → JsString → JsString → JsString → Type 0
NewEdge edges source target u v = (links edges u v ≡ true) ⊎ (source ≡ u) × (target ≡ v)

module _ (adjacency : Adjacency) where
  Inv-no_search : Inv adjacency no_search
  unfolding no_search has
  Inv-no_search = record {
    grey = λ u h. h;
    closed = λ u v b e. cc (b.0);
    acyclic = λ u b p. cc (b.0);
  }

  search : Outcome
  search = visit_roots adjacency (length (names adjacency)) (keys adjacency) no_search

  search_lem : Ensures adjacency (AllBlack adjacency (keys adjacency) no_search) search
  unfolding search
  search_lem =
      visit_roots_lem adjacency (length (names adjacency)) (keys adjacency) no_search Inv-no_search
        (unfold no_search in refl) (has-names_of_keys adjacency) (unvisited-le (names adjacency) _)

  -- A cycle leaves one of the keys, which are all black in the end.
  no_cycle : (t : Search) → AllBlack adjacency (keys adjacency) no_search t → ¬ Cycle adjacency
  no_cycle t (later, blacks) (v, walk) =
      let (w, e) = Walk-first walk in later.inv.acyclic v (blacks v (has-keys adjacency v w e)) walk

  search_decides : (b : Bool) × (answer search ≡ some b) × ((b ≡ true) ↔ ∥ Cycle adjacency ∥₁)
  unfolding answer
  search_decides = decided search search_lem
    where
      decided :
          (o : Outcome)
          → Ensures adjacency (AllBlack adjacency (keys adjacency) no_search) o
          → (b : Bool) × (answer o ≡ some b) × ((b ≡ true) ↔ ∥ Cycle adjacency ∥₁)
      decided found cycle = (true, refl, (λ _. ∣ cycle ∣₁, λ _. refl))
      decided out_of_fuel h = absurd h
      decided (clear t) h = (
        false,
        refl,
        (λ e. cc, λ c. ∥∥₁_elim c (So-prop _) (λ cycle. absurd (no_cycle t h cycle))),
      )

module _ (edges : List PipelineEdge) (source target : JsString) where
  linked : Adjacency
  linked = link (link_all [] edges) source target

  -- The adjacency map holds the edges and the new edge, and nothing else.
  Edge-iff : (u v : JsString) → Edge linked u v ↔ NewEdge edges source target u v
  unfolding linked neighbors has
  Edge-iff u v = ground (
    arith,
    has-neighbors-link (link_all [] edges) source target u v,
    has-neighbors-link_all [] edges u v,
    str_eq_iff source u,
    str_eq_iff target v,
  )

  Cycle_iff : ∥ Cycle linked ∥₁ ↔ ∥ ((v : JsString) × Walk (NewEdge edges source target) v v) ∥₁
  Cycle_iff = (
    λ c. ∥∥₁_map c (λ (v, walk). (v, Walk-map (λ u w. (Edge-iff u w).0) walk)),
    λ c. ∥∥₁_map c (λ (v, walk). (v, Walk-map (λ u w. (Edge-iff u w).1) walk)),
  )

-- The search ends, and it answers true exactly when some node of the graph with the new edge lies
-- on a cycle.
pub would_create_cycle_decides :
    (edges : List PipelineEdge) (source target : JsString)
    → (b : Bool) × (would_create_cycle edges source target ≡ some b)
      × ((b ≡ true) ↔ ∥ ((v : JsString) × Walk (NewEdge edges source target) v v) ∥₁)
unfolding would_create_cycle search linked
would_create_cycle_decides edges source target =
    let (b, answered, right) = search_decides (linked edges source target) in
    let (to, from) = Cycle_iff edges source target in
    (b, answered, (λ e. to (right.0 e), λ c. right.1 (from c)))
