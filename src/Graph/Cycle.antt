-- ===== src/Graph/Cycle.antt =====
-- ui/src/lib/graph-layout.ts, `wouldCreateCycle`: depth-first search on the adjacency map of the
-- edges and the new edge. The `Map` is a list of entries in insertion order.
pub mod Walk
pub mod Adjacency
pub mod Invariant
pub mod Dfs
pub mod Decides
pub mod NewCycle
use jobrunner.Prelude.{
  ℕ, zero, suc, JsString, List, [], ◌∷◌, ◌++◌, Option, none, some, Bool, true, false, map, length,
  if◌then◌else◌, str_eq, has, add, delete,
}
use jobrunner.Types.Graph.{PipelineEdge}

abbrev pub Adjacency : Type 0
Adjacency = List (JsString × List JsString)

-- `adjacency.get(node) || new Set()`
pub neighbors : Adjacency → JsString → List JsString
neighbors [] node = []
neighbors ((key, targets) ∷ rest) node = if str_eq key node then targets else neighbors rest node

-- `if (!adjacency.has(source)) adjacency.set(source, new Set())`, then
-- `adjacency.get(source).add(target)`.
pub link : Adjacency → JsString → JsString → Adjacency
link [] source target = (source, add [] target) ∷ []
link ((key, targets) ∷ rest) source target =
    if str_eq key source
    then (key, add targets target) ∷ rest
    else (key, targets) ∷ link rest source target

-- The loop over `edges`.
pub link_all : Adjacency → List PipelineEdge → Adjacency
link_all adjacency [] = adjacency
link_all adjacency (edge ∷ edges) = link_all (link adjacency edge.source edge.target) edges

-- `adjacency.keys()`
pub keys : Adjacency → List JsString
keys adjacency = map (λ entry. entry.0) adjacency

-- Every name that the map holds, as key or in a set: the search meets no other.
pub names : Adjacency → List JsString
names [] = []
names ((key, targets) ∷ rest) = key ∷ targets ++ names rest

-- The two sets that `hasCycle` shares between its calls.
pub record Search : Type 0 where
  pub visited : List JsString
  pub stack : List JsString

-- `found` is the result true, after which the sets are not read again.
pub data Outcome : Type 0 where
  found out_of_fuel : Outcome
  clear : Search → Outcome

pub after : Outcome → (Search → Outcome) → Outcome
after found next = found
after out_of_fuel next = out_of_fuel
after (clear s) next = next s

-- `visited.add(node); recursionStack.add(node)`
pub enter : JsString → Search → Search
enter node s = record { visited = add s.visited node; stack = add s.stack node }

-- `recursionStack.delete(node)`
pub leave : JsString → Search → Search
leave node s = record s { stack = delete s.stack node }

-- The loop over the neighbors; `call` is the recursive call of `hasCycle`.
pub visit_neighbors : (JsString → Search → Outcome) → List JsString → Search → Outcome
unfolding after
visit_neighbors call [] s = clear s
visit_neighbors call (neighbor ∷ more) s =
    let rest = visit_neighbors call more s in
    let nested = after (call neighbor s) (visit_neighbors call more) in
    if has s.visited neighbor then (if has s.stack neighbor then found else rest) else nested

-- `hasCycle`; the fuel bounds the depth of the recursion.
pub has_cycle : Adjacency → ℕ → JsString → Search → Outcome
unfolding visit_neighbors enter leave neighbors
has_cycle adjacency zero node s = out_of_fuel
has_cycle adjacency (suc fuel) node s =
    after (visit_neighbors (has_cycle adjacency fuel) (neighbors adjacency node) (enter node s))
      (λ s'. clear (leave node s'))

-- The loop over `adjacency.keys()`.
pub visit_roots : Adjacency → ℕ → List JsString → Search → Outcome
unfolding has_cycle
visit_roots adjacency fuel [] s = clear s
visit_roots adjacency fuel (node ∷ nodes) s =
    let rest = visit_roots adjacency fuel nodes s in
    let nested = after (has_cycle adjacency fuel node s) (visit_roots adjacency fuel nodes) in
    if has s.visited node then rest else nested

pub no_search : Search
no_search = record { visited = []; stack = [] }

pub answer : Outcome → Option Bool
answer found = some true
answer (clear s) = some false
answer out_of_fuel = none

-- `none` means that the fuel ran out.
pub would_create_cycle : List PipelineEdge → JsString → JsString → Option Bool
unfolding visit_roots answer no_search link_all link keys names
would_create_cycle edges new_source new_target =
    let adjacency = link (link_all [] edges) new_source new_target in
    answer (visit_roots adjacency (length (names adjacency)) (keys adjacency) no_search)
