-- ===== src/Shell/Tests.antt =====
-- The sidebar at concrete paths.
use jobrunner.Prelude.{JsString, codes, List, [], ◌∷◌, ◌++◌, none, true, false, ◌≡◌, refl, ok}
use jobrunner.Client.{Secret}
use jobrunner.Polling.{Event, interval, answer, click}
use jobrunner.Secrets.Polling.{SecretClick, search}
use jobrunner.Shell.{
  AppShell, new_shell, namespaces_loaded, update_current_path, is_active, choose_namespace,
}
use jobrunner.Shell.Links.{clash, is_active-clash}

abbrev on_detail : AppShell
on_detail = record {
  namespace = codes "ci";
  namespaces = codes "default" ∷ codes "ci" ∷ [];
  current_path = codes "/pipelines/ci/nightly";
}

links_clash : clash (codes "/pipelines") (codes "/storage") ≡ true
links_clash = refl

pipelines_active : is_active (codes "/pipelines") on_detail ≡ true
unfolding is_active
pipelines_active = refl

storage_not_active : is_active (codes "/storage") on_detail ≡ false
storage_not_active =
    is_active-clash (codes "/pipelines") (codes "/storage") on_detail links_clash pipelines_active

session_start :
    (choose_namespace (codes "ci") (
      namespaces_loaded
        (ok (codes "default" ∷ codes "ci" ∷ []))
        (update_current_path (codes "/pipelines/ci/nightly") new_shell))).0
    ≡ on_detail
unfolding choose_namespace namespaces_loaded update_current_path new_shell
session_start = refl

abbrev secret_named : JsString → Secret
secret_named name = record {
  metadata = record { name = name; namespace = codes "ci"; creation_timestamp = none };
  type = codes "Opaque";
  entries = none;
}

-- A cluster with one secret in every namespace.
abbrev one_secret : JsString → List Secret
one_secret namespace = secret_named (namespace ++ codes "-token") ∷ []

-- The interval comes round and there is a search, while the first load is under way.
abbrev some_events : List (Event SecretClick)
some_events = interval ∷ click (search (codes "tok")) ∷ answer 0 ∷ answer 0 ∷ []
