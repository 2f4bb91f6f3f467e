-- ===== src/Secrets.antt =====
-- ui/src/components/storage/secret-list.ts: the view of the secrets of a namespace, with its forms.
-- A request to the cluster is returned beside the new state, and what follows its `await` takes the
-- answer. The keys of the forms are not `__proto__`, which an assignment to an object would lose.
use jobrunner.Prelude.{
  ℕ, zero, suc, JsString, codes, List, [], ◌∷◌, ◌++◌, Option, none, some, Bool, true, false, not,
  Answer, ok, failed, or_else, or_empty, map, filter, length, has, add, delete, set_of, str_eq,
  if◌then◌else◌, ◌==◌, has_text, trim,
}
use jobrunner.Graph.StepName.{matches_name}
use jobrunner.Client.{ResourceMeta, Secret, atob, Void}
use jobrunner.Sorting.{SortDirection, asc, turned}
use jobrunner.Paging.{total_pages, go_to_page}
pub mod Forms
pub mod Entries
pub mod Create
pub mod Edit
pub mod Shown
pub mod Polling
pub mod Tests

pub record KeyValuePair : Type 0 where
  pub key : JsString
  pub value : JsString
  pub revealed : Bool

pub record SecretList : Type 0 where
  pub secrets : List Secret
  pub loading : Bool
  pub error : Option JsString
  pub namespace : JsString
  pub search_query : JsString
  pub sort_direction : SortDirection
  pub current_page : ℕ
  pub show_create_modal : Bool
  pub creating : Bool
  pub create_error : Option JsString
  pub new_secret_name : JsString
  pub new_secret_pairs : List KeyValuePair
  pub show_view_modal : Bool
  pub viewing_secret : Option Secret
  pub revealed_keys : List JsString
  pub show_edit_modal : Bool
  pub editing_secret : Option Secret
  pub edit_secret_pairs : List KeyValuePair
  pub editing : Bool
  pub edit_error : Option JsString

abbrev pub blank_pair : KeyValuePair
blank_pair = record { key = []; value = []; revealed = false }

unfoldable pub new_list : SecretList
new_list = record {
  secrets = [];
  loading = true;
  error = none;
  namespace = codes "default";
  search_query = [];
  sort_direction = asc;
  current_page = 1;
  show_create_modal = false;
  creating = false;
  create_error = none;
  new_secret_name = [];
  new_secret_pairs = blank_pair ∷ [];
  show_view_modal = false;
  viewing_secret = none;
  revealed_keys = [];
  show_edit_modal = false;
  editing_secret = none;
  edit_secret_pairs = [];
  editing = false;
  edit_error = none;
}

-- `loadSecrets` after its `await`.
unfoldable pub secrets_loaded : Answer (List Secret) → SecretList → SecretList
secrets_loaded (ok secrets) s = record s { secrets = secrets; error = none; loading = false }
secrets_loaded (failed message) s = record s { error = some message; loading = false }

unfoldable pub handle_search_input : JsString → SecretList → SecretList
handle_search_input query s = record s { search_query = query; current_page = 1 }

unfoldable pub toggle_sort : SecretList → SecretList
toggle_sort s = record s { sort_direction = turned s.sort_direction }

-- `pairs.filter((_, i) => i !== index)`
unfoldable pub without : ℕ → List KeyValuePair → List KeyValuePair
without index [] = []
without zero (pair ∷ pairs) = pairs
without (suc index) (pair ∷ pairs) = pair ∷ without index pairs

-- The list that is never left without a pair.
abbrev pub refilled : List KeyValuePair → List KeyValuePair
refilled [] = blank_pair ∷ []
refilled (pair ∷ pairs) = pair ∷ pairs

unfoldable pub remove_pair : ℕ → List KeyValuePair → List KeyValuePair
unfolding without
remove_pair index pairs = refilled (without index pairs)

abbrev pub add_pair : List KeyValuePair → List KeyValuePair
add_pair pairs = pairs ++ blank_pair ∷ []

-- `pairs.map((pair, i) => i === index ? f(pair) : pair)`
unfoldable pub change_at : ℕ → (KeyValuePair → KeyValuePair) → List KeyValuePair → List KeyValuePair
change_at index f [] = []
change_at zero f (pair ∷ pairs) = f pair ∷ pairs
change_at (suc index) f (pair ∷ pairs) = pair ∷ change_at index f pairs

pub data PairField : Type 0 where
  key_field value_field : PairField

abbrev pub set_field : PairField → JsString → KeyValuePair → KeyValuePair
set_field key_field text pair = record pair { key = text }
set_field value_field text pair = record pair { value = text }

abbrev pub toggle_revealed : KeyValuePair → KeyValuePair
toggle_revealed pair = record pair { revealed = not pair.revealed }

unfoldable pub open_create_modal : SecretList → SecretList
open_create_modal s = record s {
  show_create_modal = true;
  create_error = none;
  new_secret_name = [];
  new_secret_pairs = blank_pair ∷ [];
}

unfoldable pub close_create_modal : SecretList → SecretList
close_create_modal s = record s { show_create_modal = false; create_error = none }

unfoldable pub add_create_pair : SecretList → SecretList
add_create_pair s = record s { new_secret_pairs = add_pair s.new_secret_pairs }

unfoldable pub remove_create_pair : ℕ → SecretList → SecretList
unfolding remove_pair
remove_create_pair index s = record s { new_secret_pairs = remove_pair index s.new_secret_pairs }

unfoldable pub update_create_pair : ℕ → PairField → JsString → SecretList → SecretList
unfolding change_at
update_create_pair index field text s = record s {
  new_secret_pairs = change_at index (set_field field text) s.new_secret_pairs;
}

unfoldable pub toggle_create_reveal : ℕ → SecretList → SecretList
unfolding change_at
toggle_create_reveal index s = record s {
  new_secret_pairs = change_at index toggle_revealed s.new_secret_pairs;
}

-- The pairs whose key is more than white space, and their keys.
unfoldable pub valid_pairs : List KeyValuePair → List KeyValuePair
unfolding has_text
valid_pairs pairs = filter (λ p. has_text p.key) pairs

abbrev pub keys_of : List KeyValuePair → List JsString
keys_of pairs = map (λ p. trim p.key) pairs

-- `new Set(keys).size !== keys.length`
unfoldable pub has_duplicates : List JsString → Bool
unfolding set_of
has_duplicates keys = not (length (set_of keys) == length keys)

-- `data[key] = value`
unfoldable pub put_entry :
    JsString → JsString → List (JsString × JsString) → List (JsString × JsString)
put_entry key value [] = (key, value) ∷ []
put_entry key value ((k, v) ∷ entries) =
    let rest = put_entry key value entries in
    if str_eq k key then (k, value) ∷ entries else (k, v) ∷ rest

-- The loop over the valid pairs.
unfoldable pub put_pairs :
    List (JsString × JsString) → List KeyValuePair → List (JsString × JsString)
unfolding put_entry trim
put_pairs entries [] = entries
put_pairs entries (pair ∷ pairs) = put_pairs (put_entry (trim pair.key) pair.value entries) pairs
