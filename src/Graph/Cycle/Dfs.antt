-- ===== src/Graph/Cycle/Dfs.antt =====
-- `hasCycle` finds a cycle, or leaves its node and all that it reaches outside every cycle.
use jobrunner.Prelude.{
  ℕ, zero, suc, ◌≤◌, JsString, List, [], ◌∷◌, true, false, ◌≡◌, ◌⊎◌, inl, inr, arith, sym, ap, ◌∙◌,
  subst, Bool-cases, str_eq, str_eq_iff, has, has-add,
}
use jobrunner.Graph.Cycle.{
  Adjacency, Search, Outcome, enter, neighbors, names, visit_neighbors, has_cycle, visit_roots,
}
use jobrunner.Graph.Cycle.Walk.{Walk, one, Walk-snoc}
use jobrunner.Graph.Cycle.Adjacency.{Edge, has-names_of_Edge}
use jobrunner.Graph.Cycle.Invariant.{
  IsBlack, unvisited, unvisited_mono, unvisited-add, Inv, Later, Later-refl, Later-trans,
  Later-IsBlack, Ensures, Ensures-after, Ensures-mono, Inv-enter, Later-leave, leave-IsBlack_node,
}

module _ (adjacency : Adjacency) where
  -- Every grey node reaches `node`.
  abbrev Trail : Search → JsString → Type 0
  Trail s node = (w : JsString) → has s.stack w ≡ true → Walk (Edge adjacency) w node

  abbrev TrailTo : Search → JsString → Type 0
  TrailTo s node = (w : JsString) → has s.stack w ≡ true → (w ≡ node) ⊎ Walk (Edge adjacency) w node

  -- What a call on an unvisited node promises, if enough fuel is left.
  abbrev Contract : ℕ → (JsString → Search → Outcome) → Type 0
  Contract fuel call =
      (node : JsString) (s : Search)
      → Inv adjacency s
      → has s.visited node ≡ false
      → has (names adjacency) node ≡ true
      → Trail s node
      → unvisited (names adjacency) s.visited ≤ fuel
      → Ensures adjacency (λ t. Later adjacency s t × IsBlack t node) (call node s)

  abbrev pub AllBlack : List JsString → Search → Search → Type 0
  AllBlack ms s t = Later adjacency s t × ((m : JsString) → has ms m ≡ true → IsBlack t m)

  AllBlack-cons :
      (m : JsString) (ms : List JsString) (s t u : Search)
      → Later adjacency s t
      → IsBlack t m
      → AllBlack ms t u
      → AllBlack (m ∷ ms) s u
  unfolding has
  AllBlack-cons m ms s t u first black (later, blacks) = (
    Later-trans adjacency first later,
    λ v h. elim (Bool-cases (str_eq m v)) [
      | inl same ↦
          subst (IsBlack u) ((str_eq_iff m v).0 same) (Later-IsBlack adjacency m later black)
      | inr other ↦ blacks v (ground arith)
    ],
  )

  module _ (fuel : ℕ) (call : JsString → Search → Outcome) (contract : Contract fuel call)
      (node : JsString) where
    extend : (s : Search) → TrailTo s node → (m : JsString) → Edge adjacency node m → Trail s m
    extend s trail m e w on_stack = elim (trail w on_stack) [
      | inl same ↦ one (subst (λ u. Edge adjacency u m) (sym same) e)
      | inr walk ↦ Walk-snoc walk e
    ]

    visit_neighbors_lem :
        (ms : List JsString) (s : Search)
        → Inv adjacency s
        → TrailTo s node
        → ((m : JsString) → has ms m ≡ true → Edge adjacency node m)
        → unvisited (names adjacency) s.visited ≤ fuel
        → Ensures adjacency (AllBlack ms s) (visit_neighbors call ms s)
    unfolding visit_neighbors has
    visit_neighbors_lem [] s inv trail edges room = (Later-refl adjacency s inv, λ m h. cc)
    visit_neighbors_lem (m ∷ ms) s inv trail edges room =
        let edge = edges m (ground (arith, str_eq_iff m m)) in
        let edges' = λ (v : JsString) (h : has ms v ≡ true). edges v (ground arith) in
        elim (Bool-cases (has s.visited m)) [
          | inl old ↦ elim (Bool-cases (has s.stack m)) [
            | inl grey ↦ rw (old, grey) (m, extend s trail m edge m grey)
            | inr off ↦
                rw (old, off)
                  (Ensures-mono adjacency (AllBlack ms s) (AllBlack (m ∷ ms) s) _
                    (visit_neighbors_lem ms s inv trail edges' room)
                    (λ u. AllBlack-cons m ms s s u (Later-refl adjacency s inv) (old, off)))
          ]
          | inr fresh ↦ rw fresh (
              Ensures-after adjacency (λ t. Later adjacency s t × IsBlack t m) (AllBlack (m ∷ ms) s)
                (call m s) (visit_neighbors call ms)
                (contract m s inv fresh (has-names_of_Edge adjacency node m edge)
                  (extend s trail m edge) room)
                (λ t (later, black).
                  Ensures-mono adjacency (AllBlack ms t) (AllBlack (m ∷ ms) s) _
                    (visit_neighbors_lem ms t later.inv (λ w h. trail w (rw later.stack at h))
                      edges'
                      (omega
                        (arith, unvisited_mono (names adjacency) s.visited t.visited later.grows)))
                    (λ u. AllBlack-cons m ms s t u later black)))
        ]

  enter-TrailTo : (node : JsString) (s : Search) → Trail s node → TrailTo (enter node s) node
  unfolding enter
  enter-TrailTo node s trail w h = elim (Bool-cases (has s.stack w)) [
    | inl on_stack ↦ inr (trail w on_stack)
    | inr off ↦ inl (ground (arith, has-add s.stack node w, str_eq_iff node w))
  ]

  pub has_cycle_lem : (fuel : ℕ) → Contract fuel (has_cycle adjacency fuel)
  unfolding has_cycle
  has_cycle_lem zero node s inv fresh inside trail room =
      absurd (omega (arith, unvisited-add (names adjacency) s.visited node inside fresh))
  has_cycle_lem (suc fuel) node s inv fresh inside trail room =
      Ensures-after adjacency
        (λ t.
          Later adjacency (enter node s) t
          × ((m : JsString) → has (neighbors adjacency node) m ≡ true → IsBlack t m))
        (λ t. Later adjacency s t × IsBlack t node) _ _
        (visit_neighbors_lem fuel (has_cycle adjacency fuel) (has_cycle_lem fuel) node
          (neighbors adjacency node) (enter node s) (Inv-enter adjacency node s inv fresh)
          (enter-TrailTo node s trail) (λ m h. h)
          (unfold enter in
            omega (arith, unvisited-add (names adjacency) s.visited node inside fresh)))
        (λ t (later, blacks). (
          Later-leave adjacency node s inv fresh t later blacks,
          leave-IsBlack_node adjacency node s inv fresh t later blacks,
        ))

  -- The loop over the keys, with no call under way.
  pub visit_roots_lem :
      (fuel : ℕ) (nodes : List JsString) (s : Search)
      → Inv adjacency s
      → s.stack ≡ []
      → ((m : JsString) → has nodes m ≡ true → has (names adjacency) m ≡ true)
      → unvisited (names adjacency) s.visited ≤ fuel
      → Ensures adjacency (AllBlack nodes s) (visit_roots adjacency fuel nodes s)
  unfolding visit_roots has
  visit_roots_lem fuel [] s inv idle inside room = (Later-refl adjacency s inv, λ m h. cc)
  visit_roots_lem fuel (m ∷ ms) s inv idle inside room =
      let off = λ (w : JsString). ap (λ xs. has xs w) idle in
      let inside' = λ (v : JsString) (h : has ms v ≡ true). inside v (ground arith) in
      elim (Bool-cases (has s.visited m)) [
        | inl old ↦ rw old (
            Ensures-mono adjacency (AllBlack ms s) (AllBlack (m ∷ ms) s) _
              (visit_roots_lem fuel ms s inv idle inside' room)
              (λ u. AllBlack-cons m ms s s u (Later-refl adjacency s inv) (old, off m)))
        | inr fresh ↦ rw fresh (
            Ensures-after adjacency (λ t. Later adjacency s t × IsBlack t m) (AllBlack (m ∷ ms) s)
              (has_cycle adjacency fuel m s) (visit_roots adjacency fuel ms)
              (has_cycle_lem fuel m s inv fresh (inside m (ground (arith, str_eq_iff m m)))
                (λ w h. absurd (ground (arith, off w))) room)
              (λ t (later, black).
                Ensures-mono adjacency (AllBlack ms t) (AllBlack (m ∷ ms) s) _
                  (visit_roots_lem fuel ms t later.inv (later.stack ∙ idle) inside' (
                    omega
                      (arith, unvisited_mono (names adjacency) s.visited t.visited later.grows)))
                  (λ u. AllBlack-cons m ms s t u later black)))
      ]
