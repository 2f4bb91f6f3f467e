-- ===== src/Secrets/Polling.antt =====
-- The loads of ui/src/components/storage/secret-list.ts, with the clicks that do not load.
use jobrunner.Prelude.{JsString, ◌≡◌, refl, ok}
use jobrunner.Client.{Secret}
use jobrunner.Polling.{Polled}
use jobrunner.Secrets.{
  SecretList, new_list, secrets_loaded, handle_search_input, toggle_sort, open_create_modal,
  close_create_modal,
}
use jobrunner.Secrets.Forms.{open_view_modal, close_view_modal, open_edit_modal, close_edit_modal}

pub data SecretClick : Type 0 where
  search : JsString → SecretClick
  sort_click create_click close_click close_view_click close_edit_click : SecretClick
  view_click edit_click : Secret → SecretClick

unfoldable pub click_secrets : SecretClick → SecretList → SecretList
unfolding handle_search_input toggle_sort open_create_modal close_create_modal open_view_modal
    close_view_modal open_edit_modal close_edit_modal
click_secrets (search query) s = handle_search_input query s
click_secrets sort_click s = toggle_sort s
click_secrets create_click s = open_create_modal s
click_secrets close_click s = close_create_modal s
click_secrets close_view_click s = close_view_modal s
click_secrets close_edit_click s = close_edit_modal s
click_secrets (view_click secret) s = open_view_modal secret s
click_secrets (edit_click secret) s = open_edit_modal secret s

unfoldable pub move_to_namespace : JsString → SecretList → SecretList
move_to_namespace namespace s = record s { namespace = namespace }

pub click_secrets-keeps :
    (click : SecretClick) (s : SecretList)
    → ((click_secrets click s).namespace ≡ s.namespace)
      × ((click_secrets click s).secrets ≡ s.secrets)
      × ((click_secrets click s).loading ≡ s.loading)
unfolding click_secrets handle_search_input toggle_sort open_create_modal close_create_modal
    open_view_modal close_view_modal open_edit_modal close_edit_modal
click_secrets-keeps (search query) s = (refl, refl, refl)
click_secrets-keeps sort_click s = (refl, refl, refl)
click_secrets-keeps create_click s = (refl, refl, refl)
click_secrets-keeps close_click s = (refl, refl, refl)
click_secrets-keeps close_view_click s = (refl, refl, refl)
click_secrets-keeps close_edit_click s = (refl, refl, refl)
click_secrets-keeps (view_click secret) s = (refl, refl, refl)
click_secrets-keeps (edit_click secret) s = (refl, refl, refl)

unfoldable pub polled_secrets : Polled SecretList Secret SecretClick
unfolding new_list secrets_loaded move_to_namespace
polled_secrets = record {
  start = new_list;
  namespace_of = λ s. s.namespace;
  items_of = λ s. s.secrets;
  is_loading = λ s. s.loading;
  move_to = move_to_namespace;
  loaded = λ secrets s. secrets_loaded (ok secrets) s;
  handle = click_secrets;
  start-namespace = refl;
  move_to-namespace = λ namespace s. refl;
  loaded-lem = λ secrets s. (refl, refl, refl);
  handle-lem = click_secrets-keeps;
}
