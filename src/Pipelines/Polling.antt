-- ===== src/Pipelines/Polling.antt =====
-- The loads of ui/src/components/monitor/pipeline-list.ts, with the clicks that do not load.
use jobrunner.Prelude.{JsString, ◌≡◌, refl, ok, Bool-cases, inl, inr}
use jobrunner.Types.Pipeline.{Pipeline}
use jobrunner.Polling.{Polled}
use jobrunner.Pipelines.{PipelineList, SortColumn, new_pipelines, pipelines_loaded}
use jobrunner.Pipelines.Menu.{
  handle_search_input, same_column, toggle_sort, toggle_menu, close_menu,
}

pub data PipelineClick : Type 0 where
  search : JsString → PipelineClick
  sort_click : SortColumn → PipelineClick
  menu_click : JsString → PipelineClick
  outside_click : PipelineClick

unfoldable pub click_pipelines : PipelineClick → PipelineList → PipelineList
unfolding handle_search_input toggle_sort toggle_menu close_menu
click_pipelines (search query) s = handle_search_input query s
click_pipelines (sort_click column) s = toggle_sort column s
click_pipelines (menu_click id) s = toggle_menu id s
click_pipelines outside_click s = close_menu s

unfoldable pub pipelines_move_to : JsString → PipelineList → PipelineList
pipelines_move_to namespace s = record s { namespace = namespace }

pub click_pipelines-keeps :
    (click : PipelineClick) (s : PipelineList)
    → ((click_pipelines click s).namespace ≡ s.namespace)
      × ((click_pipelines click s).pipelines ≡ s.pipelines)
      × ((click_pipelines click s).loading ≡ s.loading)
unfolding click_pipelines handle_search_input toggle_sort toggle_menu close_menu
click_pipelines-keeps (search query) s = (refl, refl, refl)
click_pipelines-keeps (sort_click column) s = elim (Bool-cases (same_column s.sort_column column)) [
  | inl same ↦ rw same (refl, refl, refl)
  | inr other ↦ rw other (refl, refl, refl)
]
click_pipelines-keeps (menu_click id) s = (refl, refl, refl)
click_pipelines-keeps outside_click s = (refl, refl, refl)

unfoldable pub polled_pipelines : Polled PipelineList Pipeline PipelineClick
unfolding new_pipelines pipelines_loaded pipelines_move_to
polled_pipelines = record {
  start = new_pipelines;
  namespace_of = λ s. s.namespace;
  items_of = λ s. s.pipelines;
  is_loading = λ s. s.loading;
  move_to = pipelines_move_to;
  loaded = λ pipelines s. pipelines_loaded (ok pipelines) s;
  handle = click_pipelines;
  start-namespace = refl;
  move_to-namespace = λ namespace s. refl;
  loaded-lem = λ pipelines s. (refl, refl, refl);
  handle-lem = click_pipelines-keeps;
}
