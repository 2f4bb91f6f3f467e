-- ===== src/Graph/Cycle/Invariant.antt =====
-- What holds of the two sets of `wouldCreateCycle` between the calls of `hasCycle`.
use jobrunner.Prelude.{
  ℕ, suc, ◌≤◌, JsString, List, [], ◌∷◌, true, false, not, ◌≡◌, refl, ◌⊎◌, ⊎_elim, sym, ap, subst,
  ◌∙◌, arith, length, filter, length-filter-le, str_eq_iff, has, add, has-add, delete-add,
}
use jobrunner.Graph.Cycle.{
  Adjacency, Search, Outcome, found, out_of_fuel, clear, after, enter, leave,
}
use jobrunner.Graph.Cycle.Walk.{Walk, one, more, Walk-closed}
use jobrunner.Graph.Cycle.Adjacency.{Edge}

-- The calls on a black node have returned.
abbrev pub IsBlack : Search → JsString → Type 0
IsBlack s u = (has s.visited u ≡ true) × (has s.stack u ≡ false)

-- Nodes of the list that are not visited yet.
pub unvisited : List JsString → List JsString → ℕ
unvisited nodes visited = length (filter (λ u. not (has visited u)) nodes)

pub unvisited-le : (nodes visited : List JsString) → unvisited nodes visited ≤ length nodes
unfolding unvisited
unvisited-le nodes visited = length-filter-le (λ u. not (has visited u)) nodes

pub unvisited_mono :
    (nodes xs ys : List JsString)
    → ((u : JsString) → has xs u ≡ true → has ys u ≡ true)
    → unvisited nodes ys ≤ unvisited nodes xs
unfolding unvisited
unvisited_mono [] xs ys grows = omega arith
unvisited_mono (u ∷ nodes) xs ys grows = ground (arith, grows u, unvisited_mono nodes xs ys grows)

pub unvisited-add :
    (nodes xs : List JsString) (u : JsString)
    → has nodes u ≡ true
    → has xs u ≡ false
    → suc (unvisited nodes (add xs u)) ≤ unvisited nodes xs
unfolding unvisited has
unvisited-add (v ∷ nodes) xs u inside fresh = ground (
  arith,
  str_eq_iff v u,
  str_eq_iff u v,
  has-add xs u v,
  unvisited-add nodes xs u,
  unvisited_mono nodes xs (add xs u) (λ w h. ground (arith, has-add xs u w)),
)
unvisited-add [] xs u inside fresh = ground arith

module _ (adjacency : Adjacency) where
  abbrev pub Cycle : Type 0
  Cycle = (v : JsString) × Walk (Edge adjacency) v v

  pub record Inv (s : Search) : Type 0 where
    pub grey : (u : JsString) → has s.stack u ≡ true → has s.visited u ≡ true
    pub closed : (u v : JsString) → IsBlack s u → Edge adjacency u v → IsBlack s v
    pub acyclic : (u : JsString) → IsBlack s u → ¬ Walk (Edge adjacency) u u

  -- What a search from `s` has kept when it ends in `t`.
  pub record Later (s t : Search) : Type 0 where
    pub stack : t.stack ≡ s.stack
    pub grows : (u : JsString) → has s.visited u ≡ true → has t.visited u ≡ true
    pub inv : Inv t

  pub Later-refl : (s : Search) → Inv s → Later s s
  Later-refl s h = record { stack = refl; grows = λ u v. v; inv = h }

  pub Later-trans : {s t u : Search} → Later s t → Later t u → Later s u
  Later-trans h k = record {
    stack = k.stack ∙ h.stack;
    grows = λ v m. k.grows v (h.grows v m);
    inv = k.inv;
  }

  pub Later-IsBlack : {s t : Search} (u : JsString) → Later s t → IsBlack s u → IsBlack t u
  Later-IsBlack u h (visited, off) = (h.grows u visited, rw h.stack off)

  -- An outcome is right: a cycle is there, or the search ended where `Q` holds.
  abbrev pub Ensures : (Search → Type 0) → Outcome → Type 0
  Ensures Q found = Cycle
  Ensures Q out_of_fuel = ⊥
  Ensures Q (clear s) = Q s

  pub Ensures-after :
      (Q R : Search → Type 0) (o : Outcome) (next : Search → Outcome)
      → Ensures Q o
      → ((s : Search) → Q s → Ensures R (next s))
      → Ensures R (after o next)
  unfolding after
  Ensures-after Q R found next h k = h
  Ensures-after Q R out_of_fuel next h k = h
  Ensures-after Q R (clear s) next h k = k s h

  pub Ensures-mono :
      (Q R : Search → Type 0) (o : Outcome) → Ensures Q o → ((s : Search) → Q s → R s) → Ensures R o
  Ensures-mono Q R found h k = h
  Ensures-mono Q R out_of_fuel h k = h
  Ensures-mono Q R (clear s) h k = k s h

  module _ (node : JsString) (s : Search) (inv : Inv s) (fresh : has s.visited node ≡ false) where
    off_stack : has s.stack node ≡ false
    off_stack = ground (arith, inv.grey node)

    -- `node` is grey after `enter`, and every other node has the colour that it had.
    IsBlack-enter : (u : JsString) → IsBlack (enter node s) u → IsBlack s u
    unfolding enter
    IsBlack-enter u h =
        ground (arith, has-add s.visited node u, has-add s.stack node u, str_eq_iff node u)

    enter-IsBlack : (u : JsString) → IsBlack s u → IsBlack (enter node s) u
    unfolding enter
    enter-IsBlack u h =
        ground (arith, has-add s.visited node u, has-add s.stack node u, str_eq_iff node u)

    pub Inv-enter : Inv (enter node s)
    Inv-enter = record {
      grey = λ u h.
          unfold enter in
          ground (arith, has-add s.visited node u, has-add s.stack node u, inv.grey u);
      closed = λ u v b e. enter-IsBlack v (inv.closed u v (IsBlack-enter u b) e);
      acyclic = λ u b. inv.acyclic u (IsBlack-enter u b);
    }

    pub enter-has : has (enter node s).stack node ≡ true
    unfolding enter
    enter-has = ground (arith, has-add s.stack node node, str_eq_iff node node)

    module _ (t : Search) (later : Later (enter node s) t)
        (done : (v : JsString) → Edge adjacency node v → IsBlack t v) where
      leave_stack : (leave node t).stack ≡ s.stack
      unfolding leave enter
      leave_stack = rw later.stack (delete-add s.stack node off_stack)

      entered : (u : JsString) → has t.stack u ≡ has (add s.stack node) u
      unfolding enter
      entered u = ap (λ xs. has xs u) later.stack

      visited_node : has t.visited node ≡ true
      unfolding enter
      visited_node =
          later.grows node (ground (arith, has-add s.visited node node, str_eq_iff node node))

      -- `node` has turned black.
      leave-IsBlack : (u : JsString) → IsBlack t u → IsBlack (leave node t) u
      unfolding leave
      leave-IsBlack u (visited, off) =
          (visited, rw leave_stack (ground (arith, entered u, has-add s.stack node u)))

      IsBlack-leave : (u : JsString) → IsBlack (leave node t) u → (u ≡ node) ⊎ IsBlack t u
      unfolding leave
      IsBlack-leave u (visited, off) =
          let off' : has s.stack u ≡ false = rw leave_stack at off in
          ground (arith, entered u, has-add s.stack node u, str_eq_iff node u)

      not-IsBlack_node : ¬ IsBlack t node
      not-IsBlack_node (visited, off) =
          ground (arith, entered node, has-add s.stack node node, str_eq_iff node node)

      node_acyclic : ¬ Walk (Edge adjacency) node node
      node_acyclic (one e) = not-IsBlack_node (done node e)
      node_acyclic (more {v} e rest) =
          not-IsBlack_node (Walk-closed (IsBlack t) later.inv.closed rest (done v e))

      pub Later-leave : Later s (leave node t)
      Later-leave = record {
        stack = leave_stack;
        grows =
            λ u h. unfold leave enter in later.grows u (ground (arith, has-add s.visited node u));
        inv = record {
          grey = λ u h.
              unfold leave enter in
              let below : has s.stack u ≡ true = rw leave_stack at h in
              later.grows u (ground (arith, has-add s.visited node u, inv.grey u));
          closed = λ u v b e.
              ⊎_elim (λ same. leave-IsBlack v (done v (subst (λ w. Edge adjacency w v) same e)))
                (λ black. leave-IsBlack v (later.inv.closed u v black e)) (IsBlack-leave u b);
          acyclic = λ u b.
              ⊎_elim (λ same. subst (λ w. ¬ Walk (Edge adjacency) w w) (sym same) node_acyclic)
                (later.inv.acyclic u) (IsBlack-leave u b);
        };
      }

      pub leave-IsBlack_node : IsBlack (leave node t) node
      unfolding leave
      leave-IsBlack_node = (visited_node, rw leave_stack off_stack)
