-- ===== src/Shell.antt =====
-- ui/src/components/app-shell.ts: the choice of a namespace and the links of the sidebar. A handler
-- returns the detail of the event that it dispatches.
use jobrunner.Prelude.{
  ◌==◌, JsString, codes, List, [], ◌∷◌, Bool, true, false, ◌&&◌, Answer, ok, failed,
}
pub mod Links
pub mod Lists
pub mod Tests

pub record AppShell : Type 0 where
  pub namespace : JsString
  pub namespaces : List JsString
  pub current_path : JsString

unfoldable pub new_shell : AppShell
new_shell = record {
  namespace = codes "default";
  namespaces = codes "default" ∷ [];
  current_path = codes "/pipelines";
}

-- `loadNamespaces` after its `await`; an error is logged.
unfoldable pub namespaces_loaded : Answer (List JsString) → AppShell → AppShell
namespaces_loaded (ok namespaces) s = record s { namespaces = namespaces }
namespaces_loaded (failed message) s = s

-- `updateCurrentPath`, on the path of the location.
unfoldable pub update_current_path : JsString → AppShell → AppShell
update_current_path path s = record s { current_path = path }

abbrev pub begins : JsString → JsString → Bool
begins [] s = true
begins (c ∷ prefix) [] = false
begins (c ∷ prefix) (d ∷ s) = (c == d) && begins prefix s

unfoldable pub is_active : JsString → AppShell → Bool
is_active path s = begins path s.current_path

-- `handleNamespaceChange`, with the namespace of the event `namespace-change`.
unfoldable pub choose_namespace : JsString → AppShell → AppShell × JsString
choose_namespace namespace s = (record s { namespace = namespace }, namespace)
