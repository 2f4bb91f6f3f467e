-- ===== src/Detail/Drawing/Bounds.antt =====
-- The canvas of the graph holds its nodes.
use jobrunner.Prelude.{
  ℕ, ◌+◌, ◌≤◌, max, ◌==◌, List, [], ◌∷◌, Bool, true, any, ◌≡◌, ◌⊎◌, inl, refl, All, arith,
}
use jobrunner.Types.Graph.{Position, PipelineNode, PipelineGraph}
use jobrunner.Detail.Drawing.{node_width, node_height, corner_from, canvas_size}

-- The box of the node with 20 pixels to the right and below lies on a canvas of that size.
pub record Fits (size : Position) (node : PipelineNode) : Type 0 where
  pub width : node.position.x + node_width + 20 ≤ size.x
  pub height : node.position.y + node_height + 20 ≤ size.y

abbrev pub padded : Position → Position
padded corner = record { x = corner.x + 20; y = corner.y + 20 }

corner_grows :
    (x y : ℕ) (nodes : List PipelineNode)
    → (x ≤ (corner_from x y nodes).x) × (y ≤ (corner_from x y nodes).y)
unfolding corner_from
corner_grows x y [] = (omega arith, omega arith)
corner_grows x y (node ∷ nodes) =
    let ih =
      corner_grows (max x (node.position.x + node_width)) (max y (node.position.y + node_height))
        nodes in
    (omega (arith, ih.0), omega (arith, ih.1))

corner-Fits :
    (x y : ℕ) (nodes : List PipelineNode) → All (Fits (padded (corner_from x y nodes))) nodes
unfolding corner_from
corner-Fits x y [] = tt
corner-Fits x y (node ∷ nodes) =
    let a = max x (node.position.x + node_width) in
    let b = max y (node.position.y + node_height) in
    let grows = corner_grows a b nodes in
    (
      record { width = omega (arith, grows.0); height = omega (arith, grows.1) },
      corner-Fits a b nodes,
    )

-- Some node ends at that column, or at that row.
abbrev pub touches_right : ℕ → List PipelineNode → Bool
touches_right x nodes = any (λ node. node.position.x + node_width == x) nodes

abbrev pub touches_bottom : ℕ → List PipelineNode → Bool
touches_bottom y nodes = any (λ node. node.position.y + node_height == y) nodes

corner_tight :
    (x y : ℕ) (nodes : List PipelineNode)
    → (((corner_from x y nodes).x ≡ x) ⊎ (touches_right (corner_from x y nodes).x nodes ≡ true))
      × (((corner_from x y nodes).y ≡ y) ⊎ (touches_bottom (corner_from x y nodes).y nodes ≡ true))
unfolding corner_from
corner_tight x y [] = (inl refl, inl refl)
corner_tight x y (node ∷ nodes) =
    let (right, bottom) =
      corner_tight (max x (node.position.x + node_width)) (max y (node.position.y + node_height))
        nodes in
    (by_right _ right, by_bottom _ bottom)
  where
    by_right :
        (c : ℕ)
        → (c ≡ max x (node.position.x + node_width)) ⊎ (touches_right c nodes ≡ true)
        → (c ≡ x) ⊎ (touches_right c (node ∷ nodes) ≡ true)
    by_right c h = ground arith

    by_bottom :
        (c : ℕ)
        → (c ≡ max y (node.position.y + node_height)) ⊎ (touches_bottom c nodes ≡ true)
        → (c ≡ y) ⊎ (touches_bottom c (node ∷ nodes) ≡ true)
    by_bottom c h = ground arith

-- Every node lies on the canvas with 20 pixels to spare at its right and below it, and the canvas is
-- no larger than that: in each direction it is 20 pixels, or some node leaves just the 20.
pub canvas_size-Fits :
    (graph : PipelineGraph)
    → All (Fits (canvas_size graph)) graph.nodes
      × (corner : Position) × (canvas_size graph ≡ padded corner)
      × ((corner.x ≡ 0) ⊎ (touches_right corner.x graph.nodes ≡ true))
      × ((corner.y ≡ 0) ⊎ (touches_bottom corner.y graph.nodes ≡ true))
unfolding canvas_size
canvas_size-Fits graph =
    let (right, bottom) = corner_tight 0 0 graph.nodes in
    (corner-Fits 0 0 graph.nodes, corner_from 0 0 graph.nodes, refl, right, bottom)
