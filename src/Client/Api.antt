-- ===== src/Client/Api.antt =====
-- ui/src/lib/k8s-client.ts: the methods of `K8sClient` that ask once and wait for the answer.
use jobrunner.Prelude.{
  ℕ, zero, suc, JsString, codes, List, [], ◌∷◌, ◌++◌, Option, none, some, Bool, true, Answer,
  failed, or_empty, map_answer, to_decimal, str_eq, if◌then◌else◌,
}
use jobrunner.Types.Pipeline.{Pipeline}
use jobrunner.Client.Http.{Method, Request, Platform}
use jobrunner.Client.Base64.{btoa}

pub record ItemList (A : Type 0) : Type 0 where
  pub items : Option (List A)

pub record ResourceMeta : Type 0 where
  pub name : JsString
  pub namespace : JsString
  pub creation_timestamp : Option JsString

pub record Secret : Type 0 where
  pub metadata : ResourceMeta
  pub type : JsString
  pub entries : Option (List (JsString × JsString))

pub record Pvc : Type 0 where
  pub metadata : ResourceMeta
  pub access_modes : Option (List JsString)
  pub storage_class_name : Option JsString
  pub volume_mode : Option JsString
  pub storage : Option JsString
  pub phase : JsString

pub record StorageClass : Type 0 where
  pub name : JsString
  pub provisioner : JsString
  pub reclaim_policy : Option JsString
  pub volume_binding_mode : Option JsString
  pub allow_volume_expansion : Option Bool

pub record KubeEvent : Type 0 where
  pub type : JsString
  pub reason : JsString
  pub message : JsString
  pub first_timestamp : JsString
  pub last_timestamp : JsString
  pub count : ℕ

pub record PodSummary : Type 0 where
  pub name : JsString
  pub namespace : JsString
  pub phase : JsString

-- What `createPVC` is called with, and the object that it sends.
pub record NewPvc : Type 0 where
  pub name : JsString
  pub storage_class_name : Option JsString
  pub access_modes : List JsString
  pub volume_mode : JsString
  pub storage : JsString

pub record PvcObject : Type 0 where
  pub api_version : JsString
  pub kind : JsString
  pub name : JsString
  pub namespace : JsString
  pub access_modes : List JsString
  pub volume_mode : JsString
  pub storage_class_name : Option JsString
  pub storage : JsString

pub record SecretObject : Type 0 where
  pub api_version : JsString
  pub kind : JsString
  pub name : JsString
  pub namespace : JsString
  pub type : JsString
  pub entries : List (JsString × JsString)

-- The values that are handed to `JSON.stringify`.
pub data Payload : Type 0 where
  pipeline : Pipeline → Payload
  pvc : PvcObject → Payload
  secret : SecretObject → Payload

-- A job or a pod is handed on as it was read.
pub record Cluster (Other : Type 0) : Type 0 where
  pub platform : Platform Payload
  pub base_url : JsString
  pub parse_pipeline : JsString → Answer Pipeline
  pub parse_pipelines : JsString → Answer (ItemList Pipeline)
  pub parse_events : JsString → Answer (ItemList KubeEvent)
  pub parse_names : JsString → Answer (ItemList JsString)
  pub parse_pods : JsString → Answer (ItemList PodSummary)
  pub parse_pvcs : JsString → Answer (ItemList Pvc)
  pub parse_storage_classes : JsString → Answer (ItemList StorageClass)
  pub parse_secrets : JsString → Answer (ItemList Secret)
  pub parse_secret : JsString → Answer Secret
  pub parse_other : JsString → Answer Other
  -- The message of the error that `btoa` throws.
  pub invalid_character : JsString

abbrev pub ask : Method → JsString → List (JsString × JsString) → Option Payload → Request Payload
ask method path query body = record {
  method = method;
  path = path;
  query = query;
  headers = [];
  body = body;
}

abbrev pub pipelines_path : JsString → JsString
pipelines_path namespace =
    codes "/apis/pipeline.yaacov.io/v1/namespaces/" ++ namespace ++ codes "/pipelines"

-- The path of `listPipelines` and of `watchPipelines`.
unfoldable pub list_path : JsString → JsString
list_path namespace =
    if str_eq namespace (codes "_all")
    then codes "/apis/pipeline.yaacov.io/v1/pipelines"
    else pipelines_path namespace

abbrev pub pipeline_path : JsString → JsString → JsString
pipeline_path namespace name = pipelines_path namespace ++ codes "/" ++ name

-- `/api/v1/namespaces/${namespace}/${kind}`
abbrev pub core_path : JsString → JsString → JsString
core_path namespace kind = codes "/api/v1/namespaces/" ++ namespace ++ codes "/" ++ kind

abbrev pub core_item_path : JsString → JsString → JsString → JsString
core_item_path namespace kind name = core_path namespace kind ++ codes "/" ++ name

-- `if (value) params.set(key, value)` on texts and on numbers.
abbrev pub text_param : JsString → Option JsString → List (JsString × JsString)
text_param key none = []
text_param key (some []) = []
text_param key (some (c ∷ s)) = (key, c ∷ s) ∷ []

abbrev pub number_param : JsString → Option ℕ → List (JsString × JsString)
number_param key none = []
number_param key (some zero) = []
number_param key (some (suc n)) = (key, to_decimal (suc n)) ∷ []

abbrev flag_param : JsString → Option Bool → List (JsString × JsString)
flag_param key (some true) = (key, codes "true") ∷ []
flag_param key _ = []

pub record LogOptions : Type 0 where
  pub container : Option JsString
  pub follow : Option Bool
  pub tail_lines : Option ℕ
  pub since_seconds : Option ℕ

unfoldable pub log_query : LogOptions → List (JsString × JsString)
unfolding to_decimal
log_query options =
    text_param (codes "container") options.container
    ++ (flag_param (codes "follow") options.follow
        ++ (number_param (codes "tailLines") options.tail_lines
            ++ number_param (codes "sinceSeconds") options.since_seconds))

abbrev pub encoded_entry :
    JsString
    → Option JsString
    → Option (List (JsString × JsString))
    → Option (List (JsString × JsString))
encoded_entry key none rest = none
encoded_entry key (some value) none = none
encoded_entry key (some value) (some rest) = some ((key, value) ∷ rest)

-- The loop that encodes the values; `none` is the error that `btoa` throws.
unfoldable pub encode_entries : List (JsString × JsString) → Option (List (JsString × JsString))
encode_entries [] = some []
encode_entries ((key, value) ∷ entries) = encoded_entry key (btoa value) (encode_entries entries)

abbrev pub opaque_secret : JsString → JsString → List (JsString × JsString) → SecretObject
opaque_secret namespace name entries = record {
  api_version = codes "v1";
  kind = codes "Secret";
  name = name;
  namespace = namespace;
  type = codes "Opaque";
  entries = entries;
}

-- The swallowed errors of the lists that fall back to a default.
abbrev pub recover {ℓ} : {A : Type ℓ} → A → Answer A → Answer A
recover fallback (Answer.ok a) = Answer.ok a
recover fallback (failed message) = Answer.ok fallback

abbrev pub items_of : {A : Type 0} → Answer (ItemList A) → Answer (List A)
items_of answer = map_answer (λ l. or_empty l.items) answer
