-- ===== src/Claims.antt =====
-- ui/src/components/storage/pvc-list.ts: the list of volume claims and the form that creates one.
-- A request to the cluster is returned beside the state.
use jobrunner.Prelude.{
  ℕ, JsString, codes, List, [], ◌∷◌, ◌++◌, Option, none, some, Bool, true, false, Answer, ok,
  failed, or_else, if◌then◌else◌, has_text, trim,
}
use jobrunner.Graph.StepName.{matches_name}
use jobrunner.Client.{Pvc, StorageClass, NewPvc, set_text, Void}
use jobrunner.Sorting.{SortDirection, asc, turned}
pub mod Create
pub mod Shown
pub mod Polling

pub record PvcList : Type 0 where
  pub pvcs : List Pvc
  pub storage_classes : List StorageClass
  pub loading : Bool
  pub error : Option JsString
  pub namespace : JsString
  pub show_create_modal : Bool
  pub creating : Bool
  pub create_error : Option JsString
  pub search_query : JsString
  pub sort_direction : SortDirection
  pub current_page : ℕ
  pub new_pvc_name : JsString
  pub new_pvc_size : JsString
  pub new_pvc_size_unit : JsString
  pub new_pvc_volume_mode : JsString
  pub new_pvc_storage_class : JsString
  pub new_pvc_access_mode : JsString

unfoldable pub new_claims : PvcList
new_claims = record {
  pvcs = [];
  storage_classes = [];
  loading = true;
  error = none;
  namespace = codes "default";
  show_create_modal = false;
  creating = false;
  create_error = none;
  search_query = [];
  sort_direction = asc;
  current_page = 1;
  new_pvc_name = [];
  new_pvc_size = codes "1";
  new_pvc_size_unit = codes "Gi";
  new_pvc_volume_mode = codes "Filesystem";
  new_pvc_storage_class = [];
  new_pvc_access_mode = codes "ReadWriteOnce";
}

-- `loadPVCs` after its `await`.
unfoldable pub pvcs_loaded : Answer (List Pvc) → PvcList → PvcList
pvcs_loaded (ok pvcs) s = record s { pvcs = pvcs; error = none; loading = false }
pvcs_loaded (failed message) s = record s { error = some message; loading = false }

-- `loadStorageClasses` after its `await`; an error is logged.
unfoldable pub storage_classes_loaded : Answer (List StorageClass) → PvcList → PvcList
storage_classes_loaded (ok classes) s = record s { storage_classes = classes }
storage_classes_loaded (failed message) s = s

unfoldable pub handle_search_input : JsString → PvcList → PvcList
handle_search_input query s = record s { search_query = query; current_page = 1 }

unfoldable pub toggle_sort : PvcList → PvcList
toggle_sort s = record s { sort_direction = turned s.sort_direction }

unfoldable pub open_create_modal : PvcList → PvcList
open_create_modal s = record s {
  show_create_modal = true;
  create_error = none;
  new_pvc_name = [];
  new_pvc_size = codes "1";
  new_pvc_size_unit = codes "Gi";
  new_pvc_volume_mode = codes "Filesystem";
  new_pvc_storage_class = [];
  new_pvc_access_mode = codes "ReadWriteOnce";
}

unfoldable pub close_create_modal : PvcList → PvcList
close_create_modal s = record s { show_create_modal = false; create_error = none }

abbrev pub claim_name_required : JsString
claim_name_required = codes "PVC name is required"

abbrev pub claim_name_chars : JsString
claim_name_chars =
    codes "Name must consist of lowercase alphanumeric characters or \"-\", "
    ++ codes "and must start and end with an alphanumeric character"

-- The two checks of `createPVC`.
unfoldable pub claim_error : JsString → Option JsString
claim_error name =
    if has_text name
    then if matches_name name then none else some claim_name_chars
    else some claim_name_required

-- What `createPVC` of the client is called with beside the namespace.
unfoldable pub claim_of : PvcList → NewPvc
unfolding trim
claim_of s = record {
  name = trim s.new_pvc_name;
  storage_class_name = set_text (some s.new_pvc_storage_class);
  access_modes = s.new_pvc_access_mode ∷ [];
  volume_mode = s.new_pvc_volume_mode;
  storage = s.new_pvc_size ++ s.new_pvc_size_unit;
}

-- `createPVC` on the result of its checks.
abbrev pub claim_checked : Option JsString → PvcList → PvcList × Option (JsString × NewPvc)
claim_checked (some message) s = (record s { create_error = some message }, none)
claim_checked none s =
    (record s { creating = true; create_error = none }, some (s.namespace, claim_of s))

unfoldable pub submit_claim : PvcList → PvcList × Option (JsString × NewPvc)
unfolding claim_error claim_of
submit_claim s = claim_checked (claim_error s.new_pvc_name) s

-- What follows the answer; `listing` is the answer to the reload.
unfoldable pub claim_answered : Answer Void → Answer (List Pvc) → PvcList → PvcList
unfolding pvcs_loaded close_create_modal
claim_answered (ok done) listing s = record (pvcs_loaded listing (close_create_modal s)) {
  creating = false;
}
claim_answered (failed message) listing s = record s {
  create_error = some message;
  creating = false;
}

-- The namespace and the name that `deletePVC` of the client gets, when the user confirms.
unfoldable pub delete_claim : Bool → Pvc → PvcList → Option (JsString × JsString)
delete_claim confirmed claim s =
    if confirmed
    then some (or_else (some claim.metadata.namespace) s.namespace, claim.metadata.name)
    else none
