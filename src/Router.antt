-- ===== src/Router.antt =====
-- ui/src/lib/router.ts: the router of the client. `exec` stands for URLPattern: the groups of a path
-- that matches a pattern. The page is the record of what the router reads and changes of it.
use jobrunner.Prelude.{
  ℕ, zero, suc, JsString, codes, List, [], ◌∷◌, ◌++◌, Option, none, some, Bool, true, false, ◌&&◌,
  map, or_else, str_eq, if◌then◌else◌, ◌==◌, drop,
}
pub mod Renders
pub mod Tests

pub record Route : Type 0 where
  pub pattern : JsString
  pub component : JsString
  pub name : JsString

-- What `setRoutes` takes.
pub record RouteSpec : Type 0 where
  pub path : JsString
  pub component : JsString
  pub redirect : Option JsString

-- The groups of a match, of which a missing one is undefined, and the parameters made of them.
abbrev pub Groups : Type 0
Groups = List (JsString × Option JsString)

abbrev pub Params : Type 0
Params = List (JsString × JsString)

pub record RouteMatch : Type 0 where
  pub route : Route
  pub params : Params

-- The routes, whether `init` has set an outlet, the component in it with its parameters, the path of
-- the location, and the `router-navigate` events, the last one first.
pub record AppRouter : Type 0 where
  pub routes : List Route
  pub outlet : Bool
  pub current : Option (JsString × Params)
  pub location : JsString
  pub events : List (JsString × (JsString × Params))

abbrev pub redirect_prefix : JsString
redirect_prefix = codes "__redirect:"

-- The replacement in `addRoute` puts each parameter in its own place, so the pattern is the path.
unfoldable pub add_route : JsString → JsString → Option JsString → List Route → List Route
add_route path component name routes =
    routes ++ record { pattern = path; component = component; name = or_else name component } ∷ []

-- The body of the loop of `setRoutes`; an empty redirect is none.
abbrev pub add_spec : RouteSpec → Option JsString → List Route → List Route
add_spec spec none routes = add_route spec.path spec.component none routes
add_spec spec (some []) routes = add_route spec.path spec.component none routes
add_spec spec (some (c ∷ s)) routes =
    add_route spec.path (redirect_prefix ++ c ∷ s) (some (codes "redirect")) routes

abbrev pub add_specs : List RouteSpec → List Route → List Route
add_specs [] routes = routes
add_specs (spec ∷ specs) routes = add_specs specs (add_spec spec spec.redirect routes)

unfoldable pub set_routes : List RouteSpec → AppRouter → AppRouter
unfolding add_route
set_routes specs r = record r { routes = add_specs specs [] }

-- The groups that are defined.
abbrev pub params_of : Groups → Params
params_of [] = []
params_of ((key, none) ∷ groups) = params_of groups
params_of ((key, some value) ∷ groups) = (key, value) ∷ params_of groups

-- `text.startsWith(prefix)`
abbrev pub starts_with : JsString → JsString → Bool
starts_with text [] = true
starts_with [] (c ∷ prefix) = false
starts_with (d ∷ text) (c ∷ prefix) = d == c && starts_with text prefix

-- `component.replace('__redirect:', '')` of a component that starts with it.
abbrev pub redirect_path : JsString → JsString
redirect_path component = drop 11 component

module _ (exec : JsString → JsString → Option Groups) where
  abbrev pub first_match : Route → Option Groups → Option RouteMatch → Option RouteMatch
  first_match route none later = later
  first_match route (some groups) later = some (record { route = route; params = params_of groups })

  unfoldable pub match_route : JsString → List Route → Option RouteMatch
  match_route path [] = none
  match_route path (route ∷ routes) =
      first_match route (exec route.pattern path) (match_route path routes)

  -- `renderComponent`, with the event that it dispatches.
  unfoldable pub render_component : JsString → Params → AppRouter → AppRouter
  render_component component params r =
      if r.outlet
      then record r {
        current = some (component, params);
        events = (r.location, (component, params)) ∷ r.events;
      }
      else r

  -- `pushState`
  abbrev pub push_state : JsString → AppRouter → AppRouter
  push_state path r = record r { location = path }

  -- What `navigate` does with the match; `call` is the call of `navigate` that `go` makes.
  abbrev pub follow :
      (JsString → AppRouter → Option AppRouter)
      → JsString
      → Option RouteMatch
      → AppRouter
      → Option AppRouter
  follow call path none r =
      let home = call (codes "/") (push_state (codes "/") r) in
      if str_eq path (codes "/") then some r else home
  follow call path (some m) r =
      let target = redirect_path m.route.component in
      let moved = call target (push_state target r) in
      if starts_with m.route.component redirect_prefix
      then moved
      else some (render_component m.route.component m.params r)

  -- `navigate`; `none` means that the fuel, which bounds the redirects, ran out.
  unfoldable pub navigate : ℕ → JsString → AppRouter → Option AppRouter
  unfolding match_route render_component
  navigate zero path r = none
  navigate (suc fuel) path r = follow (navigate fuel) path (match_route path r.routes) r

  unfoldable pub go : ℕ → JsString → AppRouter → Option AppRouter
  unfolding navigate
  go fuel path r = navigate fuel path (push_state path r)

  abbrev pub match_params : Option RouteMatch → Params
  match_params none = []
  match_params (some m) = m.params

  unfoldable pub get_current_params : AppRouter → Params
  unfolding match_route
  get_current_params r = match_params (match_route r.location r.routes)

abbrev pub view : JsString → JsString → RouteSpec
view path component = record { path = path; component = component; redirect = none }

-- The table of `initRouter`.
abbrev pub route_table : List RouteSpec
route_table =
    record {
      path = codes "/";
      component = codes "pipeline-list";
      redirect = some (codes "/pipelines");
    }
    ∷ view (codes "/pipelines") (codes "pipeline-list")
    ∷ view (codes "/pipelines/:namespace/:name") (codes "pipeline-detail")
    ∷ view (codes "/builder") (codes "pipeline-canvas")
    ∷ view (codes "/builder/:namespace/:name") (codes "pipeline-canvas")
    ∷ view (codes "/storage") (codes "pvc-list")
    ∷ view (codes "/secrets") (codes "secret-list")
    ∷ []

-- `initRouter` up to the first call of `navigate`.
unfoldable pub init_router : JsString → AppRouter
unfolding set_routes
init_router location =
    set_routes route_table
      (record { routes = []; outlet = true; current = none; location = location; events = [] })
