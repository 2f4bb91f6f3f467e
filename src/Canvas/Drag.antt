-- ===== src/Canvas/Drag.antt =====
-- Dragging a step over another moves it there and keeps the order of the rest.
use mathlib.Core.List.{Perm, perm_middle}
use mathlib.Core.List.Perm
use jobrunner.Prelude.{
  ℕ, zero, suc, ◌≤◌, ◌<◌, List, [], ◌∷◌, ◌++◌, some, ◌≡◌, refl, sym, ap, ◌∙◌, subst,
  take-append-drop, arith, length, take, drop, get_elem?, ◌==◌, Bool-cases, inl, inr,
}
use jobrunner.Canvas.{
  CanvasStep, Canvas, remove_at, insert_at, move_step, update_pipeline_from_canvas,
  handle_drag_over,
}

module _ {ℓ} {A : Type ℓ} where
  insert_at_perm : (j : ℕ) (x : A) (ys : List A) → Perm (insert_at j x ys) (x ∷ ys)
  unfolding insert_at
  insert_at_perm j x ys =
      subst (λ zs. Perm (take j ys ++ x ∷ drop j ys) (x ∷ zs)) (take-append-drop j ys)
        (perm_middle (take j ys) (drop j ys))

  remove_at_perm :
      (i : ℕ) (xs : List A) {x : A} → get_elem? xs i ≡ some x → Perm (x ∷ remove_at i xs) xs
  unfolding remove_at
  remove_at_perm i [] h = cc
  remove_at_perm zero (y ∷ ys) h = subst (λ z. Perm (z ∷ ys) (y ∷ ys)) (cc) (Perm.refl (y ∷ ys))
  remove_at_perm (suc i) (y ∷ ys) {x} h =
      Perm.trans (Perm.swap y x (take i ys ++ drop (suc i) ys))
        (Perm.cons y (remove_at_perm i ys h))

  remove_at-insert_at :
      (j : ℕ) (x : A) (ys : List A) → j ≤ length ys → remove_at j (insert_at j x ys) ≡ ys
  unfolding remove_at insert_at
  remove_at-insert_at zero x ys h = refl
  remove_at-insert_at (suc j) x [] h = absurd (omega arith)
  remove_at-insert_at (suc j) x (y ∷ ys) h =
      ap (λ r. y ∷ r) (remove_at-insert_at j x ys (omega arith))

  get_elem?-insert_at :
      (j : ℕ) (x : A) (ys : List A) → j ≤ length ys → get_elem? (insert_at j x ys) j ≡ some x
  unfolding insert_at
  get_elem?-insert_at zero x ys h = refl
  get_elem?-insert_at (suc j) x [] h = absurd (omega arith)
  get_elem?-insert_at (suc j) x (y ∷ ys) h = get_elem?-insert_at j x ys (omega arith)

  length-remove_at :
      (i : ℕ) (xs : List A) → i < length xs → suc (length (remove_at i xs)) ≡ length xs
  unfolding remove_at
  length-remove_at i [] h = absurd (omega arith)
  length-remove_at zero (y ∷ ys) h = refl
  length-remove_at (suc i) (y ∷ ys) h = ap suc (length-remove_at i ys (omega arith))

  get_elem?_in_range : (xs : List A) (i : ℕ) → i < length xs → (x : A) × (get_elem? xs i ≡ some x)
  get_elem?_in_range [] i h = absurd (omega arith)
  get_elem?_in_range (x ∷ xs) zero h = (x, refl)
  get_elem?_in_range (x ∷ xs) (suc i) h = get_elem?_in_range xs i (omega arith)

-- What a drag of step `i` over step `index` makes of the canvas.
pub record IsMoved (i index : ℕ) (c d : Canvas) : Type 0 where
  pub moved : get_elem? d.canvas_steps index ≡ get_elem? c.canvas_steps i
  pub rest : remove_at index d.canvas_steps ≡ remove_at i c.canvas_steps
  pub perm : Perm d.canvas_steps c.canvas_steps
  pub dragged : d.dragged_step_index ≡ some index

move_step-IsMoved :
    (i index : ℕ) (x : CanvasStep) (c : Canvas)
    → get_elem? c.canvas_steps i ≡ some x
    → i < length c.canvas_steps
    → index < length c.canvas_steps
    → IsMoved i index c (move_step i x index c)
unfolding update_pipeline_from_canvas
move_step-IsMoved i index x c there i_in index_in =
    let rest = remove_at i c.canvas_steps in
    let fits : index ≤ length rest = omega (arith, length-remove_at i c.canvas_steps i_in) in
    record {
      moved = get_elem?-insert_at index x rest fits ∙ sym there;
      rest = remove_at-insert_at index x rest fits;
      perm = Perm.trans (insert_at_perm index x rest) (remove_at_perm i c.canvas_steps there);
      dragged = refl;
    }

-- Dragging step `i` over step `index` never fails: the dragged step comes to stand at `index`, the
-- others keep their order, no step is lost or doubled, and the drag goes on from `index`.
pub handle_drag_over_lem :
    (c : Canvas) (i index : ℕ)
    → c.dragged_step_index ≡ some i
    → i < length c.canvas_steps
    → index < length c.canvas_steps
    → (d : Canvas) × (handle_drag_over index c ≡ some d) × IsMoved i index c d
unfolding handle_drag_over
handle_drag_over_lem c i index held i_in index_in = elim (Bool-cases (i == index)) [
  | inl same ↦
      let e : i ≡ index = ground arith in
      (
        c,
        ground arith,
        record {
          moved = ap (get_elem? c.canvas_steps) (sym e);
          rest = ap (λ k. remove_at k c.canvas_steps) (sym e);
          perm = Perm.refl c.canvas_steps;
          dragged = held ∙ ap some e;
        },
      )
  | inr different ↦
      let (x, there) = get_elem?_in_range c.canvas_steps i i_in in
      (move_step i x index c, ground arith, move_step-IsMoved i index x c there i_in index_in)
]
