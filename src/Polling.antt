-- ===== src/Polling.antt =====
-- The loads of a list view: one when the view is connected, one in every round of its interval and one
-- when the namespace changes. ui/src/components/storage/secret-list.ts has them, and with the same code
-- pvc-list.ts beside it and ui/src/components/monitor/pipeline-list.ts. A load reads the namespace
-- before its `await`, and the requests under way are kept with the oldest first. The methods of the
-- client that list answer with a list whatever happens, so `listing` is what the cluster has in a
-- namespace.
use jobrunner.Prelude.{ℕ, zero, suc, ◌≡◌, JsString, codes, List, [], ◌∷◌, ◌++◌, Bool, false}
pub mod Order

-- What the loads need of a view with items of type A and clicks that do not load: the handlers, and
-- how they change the namespace, the items and `loading`.
pub record Polled (V A Click : Type 0) : Type 0 where
  pub start : V
  pub namespace_of : V → JsString
  pub items_of : V → List A
  pub is_loading : V → Bool
  pub move_to : JsString → V → V
  pub loaded : List A → V → V
  pub handle : Click → V → V
  pub start-namespace : namespace_of start ≡ codes "default"
  pub move_to-namespace :
      (namespace : JsString) (v : V) → namespace_of (move_to namespace v) ≡ namespace
  pub loaded-lem :
      (items : List A) (v : V)
      → (namespace_of (loaded items v) ≡ namespace_of v)
        × (items_of (loaded items v) ≡ items)
        × (is_loading (loaded items v) ≡ false)
  pub handle-lem :
      (click : Click) (v : V)
      → (namespace_of (handle click v) ≡ namespace_of v)
        × (items_of (handle click v) ≡ items_of v)
        × (is_loading (handle click v) ≡ is_loading v)

pub record Loads (V : Type 0) : Type 0 where
  pub view : V
  pub under_way : List JsString

pub data Event (Click : Type 0) : Type 0 where
  interval : Event Click
  namespace_change : JsString → Event Click
  answer : ℕ → Event Click
  click : Click → Event Click

module _ {V A Click : Type 0} (polled : Polled V A Click) where
  -- `loadSecrets` up to its `await`.
  unfoldable pub ask_for_list : Loads V → Loads V
  ask_for_list p = record p { under_way = p.under_way ++ polled.namespace_of p.view ∷ [] }

  -- The listener of namespace-change.
  unfoldable pub namespace_changed : JsString → Loads V → Loads V
  unfolding ask_for_list
  namespace_changed namespace p = ask_for_list (record p { view = polled.move_to namespace p.view })

  -- `connectedCallback`
  unfoldable pub connected_list : Loads V
  unfolding ask_for_list
  connected_list = ask_for_list (record { view = polled.start; under_way = [] })

  -- The request of that number is answered.
  unfoldable pub answer_to : (JsString → List A) → ℕ → V → List JsString → Loads V
  answer_to listing index view [] = record { view = view; under_way = [] }
  answer_to listing zero view (namespace ∷ rest) = record {
    view = polled.loaded (listing namespace) view;
    under_way = rest;
  }
  answer_to listing (suc index) view (namespace ∷ rest) =
      let p = answer_to listing index view rest in record p { under_way = namespace ∷ p.under_way }

  unfoldable pub on_event : (JsString → List A) → Event Click → Loads V → Loads V
  unfolding ask_for_list namespace_changed answer_to
  on_event listing interval p = ask_for_list p
  on_event listing (namespace_change namespace) p = namespace_changed namespace p
  on_event listing (answer index) p = answer_to listing index p.view p.under_way
  on_event listing (click c) p = record p { view = polled.handle c p.view }

  unfoldable pub on_events : (JsString → List A) → List (Event Click) → Loads V → Loads V
  unfolding on_event
  on_events listing [] p = p
  on_events listing (e ∷ events) p = on_events listing events (on_event listing e p)
