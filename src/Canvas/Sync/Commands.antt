-- ===== src/Canvas/Sync/Commands.antt =====
-- The builder as a machine on a list of steps: its commands, and how they act beneath the canvas.
use jobrunner.Prelude.{
  ℕ, zero, suc, ◌+◌, JsString, List, [], ◌∷◌, ◌++◌, Option, none, some, not, map, filter, length,
  get_elem?, take, drop, ◌≡◌, refl, ap, ◌∙◌, inl, inr, str_eq, if◌then◌else◌, Bool-cases,
}
use mathlib.Core.Option
use mathlib.Core.Option.{some-injective}
use jobrunner.Types.Pipeline.{PipelineStep}
use jobrunner.Graph.{create_default_step}
use jobrunner.Canvas.{
  CanvasStep, StepType, customize, map_container, step_name, StepUpdates, merge, update_one,
  remove_at, insert_at, strip,
}

-- What a user asks of a list of steps.
pub data Command : Type 0 where
  add : StepType → Command
  remove : JsString → Command
  update : JsString → StepUpdates → Command
  move : ℕ → ℕ → Command
  put : List PipelineStep → Command
  keep : Command

abbrev pub new_step : StepType → ℕ → PipelineStep
new_step type n = map_container (customize type) (create_default_step (step_name n))

abbrev pub updated_step : JsString → StepUpdates → PipelineStep → PipelineStep
updated_step name u step = if str_eq step.name name then merge step u else step

unfoldable pub run : Command → List PipelineStep → List PipelineStep
run (add type) steps = steps ++ new_step type (length steps + 1) ∷ []
run (remove name) steps = filter (λ s. not (str_eq s.name name)) steps
run (update name u) steps = map (updated_step name u) steps
run (move i j) steps = elim (get_elem? steps i) [
  | none ↦ steps
  | some step ↦ insert_at j step (remove_at i steps)
]
run (put new) steps = new
run keep steps = steps

-- `strip` against the operations on lists.
pub strip-append :
    (xs : List CanvasStep) (s : CanvasStep) → strip (xs ++ s ∷ []) ≡ strip xs ++ s.step ∷ []
strip-append [] s = refl
strip-append (x ∷ xs) s = ap (λ r. x.step ∷ r) (strip-append xs s)

pub length-strip : (xs : List CanvasStep) → length (strip xs) ≡ length xs
length-strip [] = refl
length-strip (x ∷ xs) = ap suc (length-strip xs)

pub strip-filter :
    (name : JsString) (xs : List CanvasStep)
    → strip (filter (λ s. not (str_eq s.step.name name)) xs)
      ≡ filter (λ s. not (str_eq s.name name)) (strip xs)
strip-filter name [] = refl
strip-filter name (x ∷ xs) = elim (Bool-cases (str_eq x.step.name name)) [
  | inl same ↦ rw same (strip-filter name xs)
  | inr other ↦ rw other (ap (λ r. x.step ∷ r) (strip-filter name xs))
]

step-update_one :
    (name : JsString) (u : StepUpdates) (x : CanvasStep)
    → (update_one name u x).step ≡ updated_step name u x.step
step-update_one name u x = elim (Bool-cases (str_eq x.step.name name)) [
  | inl same ↦ rw same refl
  | inr other ↦ rw other refl
]

pub strip-map :
    (name : JsString) (u : StepUpdates) (xs : List CanvasStep)
    → strip (map (update_one name u) xs) ≡ map (updated_step name u) (strip xs)
strip-map name u [] = refl
strip-map name u (x ∷ xs) = cc (step-update_one name u x, strip-map name u xs)

strip-take : (n : ℕ) (xs : List CanvasStep) → strip (take n xs) ≡ take n (strip xs)
strip-take zero xs = refl
strip-take (suc n) [] = refl
strip-take (suc n) (x ∷ xs) = ap (λ r. x.step ∷ r) (strip-take n xs)

strip-drop : (n : ℕ) (xs : List CanvasStep) → strip (drop n xs) ≡ drop n (strip xs)
strip-drop zero xs = refl
strip-drop (suc n) [] = refl
strip-drop (suc n) (x ∷ xs) = strip-drop n xs

strip-concat : (xs ys : List CanvasStep) → strip (xs ++ ys) ≡ strip xs ++ strip ys
strip-concat [] ys = refl
strip-concat (x ∷ xs) ys = ap (λ r. x.step ∷ r) (strip-concat xs ys)

pub strip-move :
    (i j : ℕ) (x : CanvasStep) (xs : List CanvasStep)
    → strip (insert_at j x (remove_at i xs)) ≡ insert_at j x.step (remove_at i (strip xs))
unfolding insert_at remove_at
strip-move i j x xs =
    let rest : strip (take i xs ++ drop (suc i) xs) ≡ take i (strip xs) ++ drop (suc i) (strip xs) =
      strip-concat (take i xs) (drop (suc i) xs) ∙ cc (strip-take i xs, strip-drop (suc i) xs) in
    let others = take i xs ++ drop (suc i) xs in
    strip-concat (take j others) (x ∷ drop j others)
    ∙ cc (strip-take j others, strip-drop j others, rest)

pub get_elem?-strip :
    (i : ℕ) (xs : List CanvasStep) {x : CanvasStep}
    → get_elem? xs i ≡ some x
    → get_elem? (strip xs) i ≡ some x.step
get_elem?-strip i [] e = cc
get_elem?-strip zero (y ∷ xs) e = ap (λ (o : Option CanvasStep). Option.map (λ s. s.step) o) e
get_elem?-strip (suc i) (y ∷ xs) e = get_elem?-strip i xs e

pub run_move :
    (i j : ℕ) (steps : List PipelineStep) {step : PipelineStep}
    → get_elem? steps i ≡ some step
    → run (move i j) steps ≡ insert_at j step (remove_at i steps)
unfolding run
run_move i j steps e =
    ap (λ o. elim o [ none ↦ steps | some step ↦ insert_at j step (remove_at i steps) ]) e
