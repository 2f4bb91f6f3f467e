-- ===== src/Router/Renders.antt =====
-- With the routes of `initRouter`, every navigation of ui/src/lib/router.ts ends at a component.
use jobrunner.Prelude.{
  JsString, codes, List, [], ◌∷◌, ◌++◌, Option, none, some, true, false, ◌≡◌, ◌⊎◌, has,
}
use jobrunner.Router.{
  Route, RouteMatch, Groups, AppRouter, starts_with, redirect_prefix, redirect_path, init_router,
}

abbrev pub routes : List Route
routes = (init_router []).routes

abbrev pub components : List JsString
components =
    codes "pipeline-list"
    ∷ codes "pipeline-detail"
    ∷ codes "pipeline-canvas"
    ∷ codes "pvc-list"
    ∷ codes "secret-list"
    ∷ []

-- A route of the table leads to /pipelines or to one of the components.
abbrev IsLeading : Route → Type 0
IsLeading route =
    ((starts_with route.component redirect_prefix ≡ true)
      × (redirect_path route.component ≡ codes "/pipelines"))
    ⊎ ((starts_with route.component redirect_prefix ≡ false)
        × (has components route.component ≡ true))

-- What is documented of URLPattern and used here: a pattern without groups matches its own path and
-- no other one of the two.
pub record IsPattern (exec : JsString → JsString → Option Groups) : Type 0 where
  pub root : exec (codes "/") (codes "/") ≡ some []
  pub list : exec (codes "/pipelines") (codes "/pipelines") ≡ some []
  pub apart : exec (codes "/") (codes "/pipelines") ≡ none

-- The outlet holds a component of the table, with the event of its path sent.
abbrev pub IsShown : AppRouter → Type 0
IsShown r =
    (component : JsString) × (params : List (JsString × JsString)) × (has components component
      ≡ true)
    × (r.current ≡ some (component, params))

module _ (exec : JsString → JsString → Option Groups) where
  abbrev matched : JsString → JsString → RouteMatch
  matched path component = record {
    route = record { pattern = path; component = component; name = component };
    params = [];
  }

  abbrev root_match : RouteMatch
  root_match = record {
    route = record {
      pattern = codes "/";
      component = redirect_prefix ++ codes "/pipelines";
      name = codes "redirect";
    };
    params = [];
  }
