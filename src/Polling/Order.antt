-- ===== src/Polling/Order.antt =====
-- What a list view shows when the answers to its loads come in the order of the requests.
use jobrunner.Prelude.{
  ℕ, zero, suc, ◌≡◌, refl, sym, ap, ◌∙◌, subst, JsString, List, [], ◌∷◌, ◌++◌, Bool, false, All,
}
use jobrunner.Polling.{
  Polled, Loads, Event, interval, namespace_change, answer, click, ask_for_list, namespace_changed,
  answer_to, on_event, on_events,
}

-- An answer is to the oldest request.
abbrev pub IsInOrder : {C : Type 0} → Event C → Type 0
IsInOrder (answer index) = index ≡ 0
IsInOrder _ = Unit

abbrev pub IsNoChange : {C : Type 0} → Event C → Type 0
IsNoChange (namespace_change namespace) = ⊥
IsNoChange _ = Unit

-- The last request under way is for the namespace; if none is, its items are there.
abbrev pub IsSettling :
    {A : Type 0} → (JsString → List A) → JsString → List A → Bool → List JsString → Type 0
IsSettling listing namespace items loading [] = (items ≡ listing namespace) × (loading ≡ false)
IsSettling listing namespace items loading (asked ∷ []) = asked ≡ namespace
IsSettling listing namespace items loading (asked ∷ next ∷ rest) =
    IsSettling listing namespace items loading (next ∷ rest)

module _ {A : Type 0} (listing : JsString → List A) where
  asked_last :
      (namespace : JsString) (items : List A) (loading : Bool) (under_way : List JsString)
      → IsSettling listing namespace items loading (under_way ++ namespace ∷ [])
  asked_last namespace items loading [] = refl
  asked_last namespace items loading (asked ∷ []) = refl
  asked_last namespace items loading (asked ∷ next ∷ rest) =
      asked_last namespace items loading (next ∷ rest)

  still_asked :
      (namespace : JsString) (items items' : List A) (loading loading' : Bool) (asked : JsString)
      (rest : List JsString)
      → IsSettling listing namespace items loading (asked ∷ rest)
      → IsSettling listing namespace items' loading' (asked ∷ rest)
  still_asked namespace items items' loading loading' asked [] h = h
  still_asked namespace items items' loading loading' asked (next ∷ rest) h =
      still_asked namespace items items' loading loading' next rest h

  settled :
      (namespace : JsString) (items : List A) (loading : Bool) (under_way : List JsString)
      → under_way ≡ []
      → IsSettling listing namespace items loading under_way
      → (items ≡ listing namespace) × (loading ≡ false)
  settled namespace items loading [] h k = k
  settled namespace items loading (asked ∷ rest) h k = absurd (let impossible = h in cc)

module _ {V A Click : Type 0} (polled : Polled V A Click) (listing : JsString → List A) where
  abbrev pub IsOnItsWay : Loads V → Type 0
  IsOnItsWay p =
      IsSettling listing (polled.namespace_of p.view) (polled.items_of p.view)
        (polled.is_loading p.view) p.under_way

  pub ask_for_list-IsOnItsWay : (p : Loads V) → IsOnItsWay (ask_for_list polled p)
  unfolding ask_for_list
  ask_for_list-IsOnItsWay p =
      asked_last listing (polled.namespace_of p.view) (polled.items_of p.view)
        (polled.is_loading p.view) p.under_way

  ask_for_list-namespace :
      (p : Loads V) → polled.namespace_of (ask_for_list polled p).view ≡ polled.namespace_of p.view
  unfolding ask_for_list
  ask_for_list-namespace p = refl

  answer_to-IsOnItsWay :
      (view : V) (under_way : List JsString)
      → IsOnItsWay (record { view = view; under_way = under_way })
      → IsOnItsWay (answer_to polled listing 0 view under_way)
  unfolding answer_to
  answer_to-IsOnItsWay view [] h = h
  answer_to-IsOnItsWay view (asked ∷ []) h =
      let (same, items, loading) = polled.loaded-lem (listing asked) view in
      (items ∙ ap listing (h ∙ sym same), loading)
  answer_to-IsOnItsWay view (asked ∷ next ∷ rest) h =
      let shown = polled.loaded (listing asked) view in
      subst
        (λ namespace.
          IsSettling listing namespace (polled.items_of shown) (polled.is_loading shown)
            (next ∷ rest))
        (sym (polled.loaded-lem (listing asked) view).0)
        (still_asked listing (polled.namespace_of view) (polled.items_of view)
          (polled.items_of shown) (polled.is_loading view) (polled.is_loading shown) next rest h)

  on_event-IsOnItsWay :
      (e : Event Click) (p : Loads V)
      → IsInOrder e
      → IsOnItsWay p
      → IsOnItsWay (on_event polled listing e p)
  unfolding on_event namespace_changed
  on_event-IsOnItsWay interval p first h = ask_for_list-IsOnItsWay p
  on_event-IsOnItsWay (namespace_change namespace) p first h =
      ask_for_list-IsOnItsWay (record p { view = polled.move_to namespace p.view })
  on_event-IsOnItsWay (answer index) p first h =
      rw first (answer_to-IsOnItsWay p.view p.under_way h)
  on_event-IsOnItsWay (click c) p first h =
      let (same, items, loading) = polled.handle-lem c p.view in rw (same, items, loading) h

  on_events-IsOnItsWay :
      (events : List (Event Click)) (p : Loads V)
      → All IsInOrder events
      → IsOnItsWay p
      → IsOnItsWay (on_events polled listing events p)
  unfolding on_events
  on_events-IsOnItsWay [] p in_order h = h
  on_events-IsOnItsWay (e ∷ events) p (first, in_order) h =
      on_events-IsOnItsWay events (on_event polled listing e p) in_order
        (on_event-IsOnItsWay e p first h)

  answer_to-namespace :
      (index : ℕ) (view : V) (under_way : List JsString)
      → polled.namespace_of (answer_to polled listing index view under_way).view
        ≡ polled.namespace_of view
  unfolding answer_to
  answer_to-namespace index view [] = refl
  answer_to-namespace zero view (asked ∷ rest) = (polled.loaded-lem (listing asked) view).0
  answer_to-namespace (suc index) view (asked ∷ rest) = answer_to-namespace index view rest

  on_events-namespace :
      (events : List (Event Click)) (p : Loads V)
      → All IsNoChange events
      → polled.namespace_of (on_events polled listing events p).view ≡ polled.namespace_of p.view
  unfolding on_events on_event ask_for_list
  on_events-namespace [] p same = refl
  on_events-namespace (interval ∷ events) p (first, same) =
      on_events-namespace events (on_event polled listing interval p) same
  on_events-namespace (namespace_change namespace ∷ events) p (first, same) = absurd first
  on_events-namespace (answer index ∷ events) p (first, same) =
      on_events-namespace events (on_event polled listing (answer index) p) same
      ∙ answer_to-namespace index p.view p.under_way
  on_events-namespace (click c ∷ events) p (first, same) =
      on_events-namespace events (on_event polled listing (click c) p) same
      ∙ (polled.handle-lem c p.view).0

  -- From a load on, when the answers came in the order of the requests and none is under way, the
  -- view has the items of the namespace that it shows.
  pub on_events-settled :
      (events : List (Event Click)) (p : Loads V)
      → All IsInOrder events
      → let q = on_events polled listing events (ask_for_list polled p) in
        q.under_way ≡ []
        → (polled.items_of q.view ≡ listing (polled.namespace_of q.view))
          × (polled.is_loading q.view ≡ false)
  on_events-settled events p in_order answered =
      let q = on_events polled listing events (ask_for_list polled p) in
      settled listing (polled.namespace_of q.view) (polled.items_of q.view)
        (polled.is_loading q.view) q.under_way answered
        (on_events-IsOnItsWay events (ask_for_list polled p) in_order (ask_for_list-IsOnItsWay p))

  -- If the namespace did not change since, it is that of the load.
  pub on_events-unchanged :
      (events : List (Event Click)) (p : Loads V)
      → All IsInOrder events
      → All IsNoChange events
      → let q = on_events polled listing events (ask_for_list polled p) in
        q.under_way ≡ [] → polled.items_of q.view ≡ listing (polled.namespace_of p.view)
  on_events-unchanged events p in_order same answered =
      (on_events-settled events p in_order answered).0
      ∙ ap listing
          (on_events-namespace events (ask_for_list polled p) same ∙ ask_for_list-namespace p)

  -- When the namespace changes twice and the answer to the second request comes first, the view has
  -- the second namespace and the items of the first.
  pub on_events-overtaken :
      (first second : JsString) (view : V)
      → let p =
          on_events polled listing
            (namespace_change first ∷ namespace_change second ∷ answer 1 ∷ answer 0 ∷ [])
            (record { view = view; under_way = [] }) in
        (p.under_way ≡ [])
        × (polled.namespace_of p.view ≡ second)
        × (polled.items_of p.view ≡ listing first)
  unfolding on_events on_event namespace_changed ask_for_list answer_to
  on_events-overtaken first second view =
      let once = polled.move_to first view in
      let twice = polled.move_to second once in
      let late = listing (polled.namespace_of once) in
      let early = listing (polled.namespace_of twice) in
      let (early_stays, _, _) = polled.loaded-lem early twice in
      let (late_stays, items, _) = polled.loaded-lem late (polled.loaded early twice) in
      (
        refl,
        late_stays ∙ early_stays ∙ polled.move_to-namespace second once,
        items ∙ ap listing (polled.move_to-namespace first view),
      )
