-- ===== src/Pipelines/Menu.antt =====
-- ui/src/components/monitor/pipeline-list.ts: the handlers of the list, its sort headers and the menu
-- of a pipeline. The deep copy of a specification by way of JSON is the specification.
use jobrunner.Prelude.{
  JsString, codes, ◌++◌, Option, none, some, Bool, true, false, or_else, str_eq, if◌then◌else◌,
}
use jobrunner.Types.Pipeline.{Pipeline}
use jobrunner.Sorting.{SortDirection, asc, desc, turned}
use jobrunner.Pipelines.{SortColumn, by_name, by_status, by_created, PipelineList}

unfoldable pub handle_search_input : JsString → PipelineList → PipelineList
handle_search_input query s = record s { search_query = query; current_page = 1 }

abbrev pub same_column : SortColumn → SortColumn → Bool
same_column by_name by_name = true
same_column by_status by_status = true
same_column by_created by_created = true
same_column _ _ = false

abbrev pub first_direction : SortColumn → SortDirection
first_direction by_created = desc
first_direction _ = asc

unfoldable pub toggle_sort : SortColumn → PipelineList → PipelineList
toggle_sort column s =
    if same_column s.sort_column column
    then record s { sort_direction = turned s.sort_direction }
    else record s { sort_column = column; sort_direction = first_direction column }

abbrev pub arrow : SortDirection → JsString
arrow asc = codes "arrow-up"
arrow desc = codes "arrow-down"

unfoldable pub get_sort_icon : SortColumn → PipelineList → JsString
get_sort_icon column s =
    if same_column s.sort_column column then arrow s.sort_direction else codes "arrow-up-down"

abbrev pub is_open : Option JsString → JsString → Bool
is_open none id = false
is_open (some shown) id = str_eq shown id

unfoldable pub toggle_menu : JsString → PipelineList → PipelineList
toggle_menu id s = record s { open_menu_id = if is_open s.open_menu_id id then none else some id }

unfoldable pub close_menu : PipelineList → PipelineList
close_menu s = record s { open_menu_id = none }

-- `deletePipeline` up to its `await`: the namespace and the name for the client, if the user confirms.
unfoldable pub delete_from_list :
    Bool → Pipeline → PipelineList → PipelineList × Option (JsString × JsString)
unfolding close_menu
delete_from_list confirmed p s = (
  close_menu s,
  if confirmed
      then some (or_else p.metadata.namespace (codes "default"), p.metadata.name)
      else none,
)

-- The object that `copyPipeline` stores.
unfoldable pub copied_pipeline : Pipeline → Pipeline
copied_pipeline p = record {
  api_version = p.api_version;
  kind = p.kind;
  metadata = record {
    name = p.metadata.name ++ codes "-copy";
    namespace = p.metadata.namespace;
    uid = none;
    creation_timestamp = none;
    labels = p.metadata.labels;
    annotations = p.metadata.annotations;
    resource_version = none;
  };
  spec = p.spec;
  status = none;
}

-- `copyPipeline`, with the text that is put into the session storage as pipeline-copy and the path
-- that is navigated to; `stringify` is `JSON.stringify`.
unfoldable pub copy_pipeline :
    (Pipeline → JsString) → Pipeline → PipelineList → PipelineList × (JsString × JsString)
unfolding close_menu copied_pipeline
copy_pipeline stringify p s = (close_menu s, (stringify (copied_pipeline p), codes "/builder"))
