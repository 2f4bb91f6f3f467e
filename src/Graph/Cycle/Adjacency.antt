-- ===== src/Graph/Cycle/Adjacency.antt =====
-- The adjacency map of `wouldCreateCycle` holds exactly the edges that were linked.
use jobrunner.Prelude.{
  JsString, List, [], ◌∷◌, Bool, true, ◌||◌, ◌&&◌, ◌≡◌, arith, any, str_eq, str_eq_iff, has,
  has-add, has-append,
}
use jobrunner.Types.Graph.{PipelineEdge}
use jobrunner.Graph.Cycle.{Adjacency, neighbors, link, link_all, keys, names}

-- `v` is in the set at `u`.
abbrev pub Edge : Adjacency → JsString → JsString → Type 0
Edge adjacency u v = has (neighbors adjacency u) v ≡ true

pub has-neighbors-link :
    (adjacency : Adjacency) (s t u v : JsString)
    → has (neighbors (link adjacency s t) u) v
      ≡ (has (neighbors adjacency u) v || str_eq s u && str_eq t v)
unfolding neighbors link has
has-neighbors-link [] s t u v = ground (arith, has-add [] t v)
has-neighbors-link ((key, targets) ∷ rest) s t u v = ground (
  arith,
  has-neighbors-link rest s t u v,
  has-add targets t v,
  str_eq_iff key s,
  str_eq_iff key u,
  str_eq_iff s u,
)

-- Some edge of the list leads from `u` to `v`.
abbrev pub links : List PipelineEdge → JsString → JsString → Bool
links edges u v = any (λ e. str_eq e.source u && str_eq e.target v) edges

pub has-neighbors-link_all :
    (adjacency : Adjacency) (edges : List PipelineEdge) (u v : JsString)
    → has (neighbors (link_all adjacency edges) u) v
      ≡ (has (neighbors adjacency u) v || links edges u v)
unfolding link_all
has-neighbors-link_all adjacency [] u v = ground arith
has-neighbors-link_all adjacency (e ∷ edges) u v = ground (
  arith,
  has-neighbors-link_all (link adjacency e.source e.target) edges u v,
  has-neighbors-link adjacency e.source e.target u v,
)

pub has-keys :
    (adjacency : Adjacency) (u v : JsString) → Edge adjacency u v → has (keys adjacency) u ≡ true
unfolding neighbors keys has
has-keys [] u v e = e
has-keys ((key, targets) ∷ rest) u v e = ground (arith, has-keys rest u v)

pub has-names_of_keys :
    (adjacency : Adjacency) (u : JsString)
    → has (keys adjacency) u ≡ true
    → has (names adjacency) u ≡ true
unfolding keys names has
has-names_of_keys [] u h = h
has-names_of_keys ((key, targets) ∷ rest) u h =
    ground (arith, has-names_of_keys rest u, has-append targets (names rest) u)

pub has-names_of_Edge :
    (adjacency : Adjacency) (u v : JsString) → Edge adjacency u v → has (names adjacency) v ≡ true
unfolding neighbors names has
has-names_of_Edge [] u v e = e
has-names_of_Edge ((key, targets) ∷ rest) u v e =
    ground (arith, has-names_of_Edge rest u v, has-append targets (names rest) v)
