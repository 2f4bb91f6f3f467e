-- ===== src/Secrets/Forms.antt =====
-- ui/src/components/storage/secret-list.ts: the forms that create, show, edit and delete a secret.
use jobrunner.Prelude.{
  ℕ, JsString, codes, List, [], ◌∷◌, ◌++◌, Option, none, some, Bool, true, false, Answer, ok,
  failed, or_else, or_empty, map, has, add, delete, if◌then◌else◌, has_text, trim,
}
use jobrunner.Graph.StepName.{matches_name}
use jobrunner.Client.{Secret, atob, Void}
use jobrunner.Secrets.{
  KeyValuePair, SecretList, secrets_loaded, add_pair, remove_pair, refilled, change_at, PairField,
  set_field, toggle_revealed, close_create_modal, valid_pairs, keys_of, has_duplicates, put_pairs,
}

-- What `createSecret` and `updateSecret` of the client are called with.
pub record SecretWrite : Type 0 where
  pub namespace : JsString
  pub name : JsString
  pub entries : List (JsString × JsString)

abbrev pub no_pair : JsString
no_pair = codes "At least one key-value pair is required"

abbrev pub duplicate_keys : JsString
duplicate_keys = codes "Duplicate keys are not allowed"

abbrev pub check_valid : List KeyValuePair → Answer (List KeyValuePair)
check_valid [] = failed no_pair
check_valid (pair ∷ pairs) =
    if has_duplicates (keys_of (pair ∷ pairs)) then failed duplicate_keys else ok (pair ∷ pairs)

-- The two checks that both forms make of their pairs.
unfoldable pub check_pairs : List KeyValuePair → Answer (List KeyValuePair)
check_pairs pairs = check_valid (valid_pairs pairs)

abbrev pub name_required : JsString
name_required = codes "Secret name is required"

abbrev pub name_chars : JsString
name_chars =
    codes "Name must consist of lowercase alphanumeric characters or \"-\", "
    ++ codes "and must start and end with an alphanumeric character"

unfoldable pub check_name : JsString → Option JsString
check_name name =
    if has_text name
    then if matches_name name then none else some name_chars
    else some name_required

-- `createSecret` of the view, on the results of its checks.
abbrev pub create_checked :
    Option JsString → Answer (List KeyValuePair) → SecretList → SecretList × Option SecretWrite
create_checked (some message) checked s = (record s { create_error = some message }, none)
create_checked none (failed message) s = (record s { create_error = some message }, none)
create_checked none (ok pairs) s = (
  record s { creating = true; create_error = none },
  some (record {
    namespace = s.namespace;
    name = trim s.new_secret_name;
    entries = put_pairs [] pairs;
  }),
)

unfoldable pub submit_create : SecretList → SecretList × Option SecretWrite
submit_create s = create_checked (check_name s.new_secret_name) (check_pairs s.new_secret_pairs) s

-- What follows the answer; `listing` is the answer to the reload.
unfoldable pub create_answered : Answer Void → Answer (List Secret) → SecretList → SecretList
unfolding secrets_loaded close_create_modal
create_answered (ok done) listing s = record (secrets_loaded listing (close_create_modal s)) {
  creating = false;
}
create_answered (failed message) listing s = record s {
  create_error = some message;
  creating = false;
}

unfoldable pub open_view_modal : Secret → SecretList → SecretList
open_view_modal secret s = record s {
  viewing_secret = some secret;
  show_view_modal = true;
  revealed_keys = [];
}

unfoldable pub close_view_modal : SecretList → SecretList
close_view_modal s = record s { show_view_modal = false; viewing_secret = none; revealed_keys = [] }

unfoldable pub toggle_reveal : JsString → SecretList → SecretList
toggle_reveal key s = record s {
  revealed_keys =
      if has s.revealed_keys key then delete s.revealed_keys key else add s.revealed_keys key;
}

abbrev pub decoded_or_error : Option JsString → JsString
decoded_or_error none = codes "[decode error]"
decoded_or_error (some text) = text

unfoldable pub decode_base64 : JsString → JsString
decode_base64 encoded = decoded_or_error (atob encoded)

unfoldable pub pairs_of : List (JsString × JsString) → List KeyValuePair
unfolding decode_base64
pairs_of entries =
    map (λ e. record { key = e.0; value = decode_base64 (e.1); revealed = false }) entries

unfoldable pub open_edit_modal : Secret → SecretList → SecretList
unfolding close_view_modal pairs_of
open_edit_modal secret s = record (close_view_modal s) {
  editing_secret = some secret;
  edit_error = none;
  edit_secret_pairs = refilled (pairs_of (or_empty secret.entries));
  show_edit_modal = true;
}

unfoldable pub close_edit_modal : SecretList → SecretList
close_edit_modal s = record s {
  show_edit_modal = false;
  editing_secret = none;
  edit_secret_pairs = [];
  edit_error = none;
}

unfoldable pub add_edit_pair : SecretList → SecretList
add_edit_pair s = record s { edit_secret_pairs = add_pair s.edit_secret_pairs }

unfoldable pub remove_edit_pair : ℕ → SecretList → SecretList
unfolding remove_pair
remove_edit_pair index s = record s { edit_secret_pairs = remove_pair index s.edit_secret_pairs }

unfoldable pub update_edit_pair : ℕ → PairField → JsString → SecretList → SecretList
unfolding change_at
update_edit_pair index field text s = record s {
  edit_secret_pairs = change_at index (set_field field text) s.edit_secret_pairs;
}

unfoldable pub toggle_edit_reveal : ℕ → SecretList → SecretList
unfolding change_at
toggle_edit_reveal index s = record s {
  edit_secret_pairs = change_at index toggle_revealed s.edit_secret_pairs;
}

abbrev pub edit_checked :
    Option Secret → Answer (List KeyValuePair) → SecretList → SecretList × Option SecretWrite
edit_checked none checked s = (s, none)
edit_checked (some secret) (failed message) s = (record s { edit_error = some message }, none)
edit_checked (some secret) (ok pairs) s = (
  record s { editing = true; edit_error = none },
  some (record {
    namespace = or_else (some secret.metadata.namespace) s.namespace;
    name = secret.metadata.name;
    entries = put_pairs [] pairs;
  }),
)

unfoldable pub save_edit_secret : SecretList → SecretList × Option SecretWrite
save_edit_secret s = edit_checked s.editing_secret (check_pairs s.edit_secret_pairs) s

unfoldable pub edit_answered : Answer Void → Answer (List Secret) → SecretList → SecretList
unfolding secrets_loaded close_edit_modal
edit_answered (ok done) listing s = record (secrets_loaded listing (close_edit_modal s)) {
  editing = false;
}
edit_answered (failed message) listing s = record s { edit_error = some message; editing = false }

-- The namespace and the name that `deleteSecret` of the client gets, when the user confirms.
unfoldable pub delete_secret_of : Bool → Secret → SecretList → Option (JsString × JsString)
delete_secret_of confirmed secret s =
    if confirmed
    then some (or_else (some secret.metadata.namespace) s.namespace, secret.metadata.name)
    else none
