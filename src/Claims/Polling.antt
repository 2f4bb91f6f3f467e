-- ===== src/Claims/Polling.antt =====
-- The loads of ui/src/components/storage/pvc-list.ts, with the clicks that do not load. The storage
-- classes are loaded beside the claims, once, and change nothing else.
use jobrunner.Prelude.{JsString, ◌≡◌, refl, ok}
use jobrunner.Client.{Pvc}
use jobrunner.Polling.{Polled}
use jobrunner.Claims.{
  PvcList, new_claims, pvcs_loaded, handle_search_input, toggle_sort, open_create_modal,
  close_create_modal,
}

pub data ClaimClick : Type 0 where
  search : JsString → ClaimClick
  sort_click create_click close_click : ClaimClick

unfoldable pub click_claims : ClaimClick → PvcList → PvcList
unfolding handle_search_input toggle_sort open_create_modal close_create_modal
click_claims (search query) s = handle_search_input query s
click_claims sort_click s = toggle_sort s
click_claims create_click s = open_create_modal s
click_claims close_click s = close_create_modal s

unfoldable pub claims_move_to : JsString → PvcList → PvcList
claims_move_to namespace s = record s { namespace = namespace }

pub click_claims-keeps :
    (click : ClaimClick) (s : PvcList)
    → ((click_claims click s).namespace ≡ s.namespace)
      × ((click_claims click s).pvcs ≡ s.pvcs)
      × ((click_claims click s).loading ≡ s.loading)
unfolding click_claims handle_search_input toggle_sort open_create_modal close_create_modal
click_claims-keeps (search query) s = (refl, refl, refl)
click_claims-keeps sort_click s = (refl, refl, refl)
click_claims-keeps create_click s = (refl, refl, refl)
click_claims-keeps close_click s = (refl, refl, refl)

unfoldable pub polled_claims : Polled PvcList Pvc ClaimClick
unfolding new_claims pvcs_loaded claims_move_to
polled_claims = record {
  start = new_claims;
  namespace_of = λ s. s.namespace;
  items_of = λ s. s.pvcs;
  is_loading = λ s. s.loading;
  move_to = claims_move_to;
  loaded = λ pvcs s. pvcs_loaded (ok pvcs) s;
  handle = click_claims;
  start-namespace = refl;
  move_to-namespace = λ namespace s. refl;
  loaded-lem = λ pvcs s. (refl, refl, refl);
  handle-lem = click_claims-keeps;
}
