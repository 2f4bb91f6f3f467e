-- ===== src/Server.antt =====
-- ui/src/server.ts: how the development server answers a request. Which files exist is a parameter,
-- and so is the answer of the Kubernetes API; a body is handed on as it comes. Not modelled are the
-- build, the start and the log.
use jobrunner.Prelude.{
  ℕ, ◌+◌, ◌==◌, JsString, codes, List, [], ◌∷◌, ◌++◌, Option, none, some, Bool, true, false, not,
  ◌&&◌, ◌||◌, Answer, ok, failed, map, find, any, leb, or_else, str_eq, if◌then◌else◌,
}
pub mod Index
pub mod Proxied
pub mod Tests

pub record ServerRequest : Type 0 where
  pub method : JsString
  pub path : JsString
  pub search : JsString
  pub body : Option JsString

-- The directories that files are served from: `../public`, `../dist` and `..`.
pub data Root : Type 0 where
  public_dir dist_dir module_dir : Root

pub data Content : Type 0 where
  empty : Content
  text : JsString → Content
  file : Root → JsString → Content
  handed_on : JsString → Content
  -- The JSON of a proxy error with its message.
  proxy_error : JsString → Content

pub record ServerResponse : Type 0 where
  pub status : ℕ
  pub headers : List (JsString × JsString)
  pub content : Content

abbrev pub mime_types : List (JsString × JsString)
mime_types =
    (codes ".html", codes "text/html; charset=utf-8")
    ∷ (codes ".js", codes "application/javascript; charset=utf-8")
    ∷ (codes ".mjs", codes "application/javascript; charset=utf-8")
    ∷ (codes ".css", codes "text/css; charset=utf-8")
    ∷ (codes ".json", codes "application/json; charset=utf-8")
    ∷ (codes ".png", codes "image/png")
    ∷ (codes ".jpg", codes "image/jpeg")
    ∷ (codes ".jpeg", codes "image/jpeg")
    ∷ (codes ".gif", codes "image/gif")
    ∷ (codes ".svg", codes "image/svg+xml")
    ∷ (codes ".ico", codes "image/x-icon")
    ∷ (codes ".woff", codes "font/woff")
    ∷ (codes ".woff2", codes "font/woff2")
    ∷ (codes ".ttf", codes "font/ttf")
    ∷ (codes ".map", codes "application/json")
    ∷ []

-- The last segment of a path, slashes at its end aside; `cur` is what is read of the segment.
unfoldable pub basename_from : JsString → JsString → JsString
basename_from cur [] = cur
basename_from cur (c ∷ s) =
    let next = basename_from [] s in
    let longer = basename_from (cur ++ c ∷ []) s in
    if not (c == b'/') then longer else if any (λ d. not (d == b'/')) s then next else cur

-- From the last dot on.
unfoldable pub from_last_dot : JsString → Option JsString
from_last_dot [] = none
from_last_dot (c ∷ s) =
    let rest = from_last_dot s in
    elim rest [ some ext ↦ some ext | none ↦ if c == b'.' then some (c ∷ s) else none ]

-- `extname`: a dot at the beginning of the segment starts no extension.
abbrev pub extension : JsString → JsString
extension [] = []
extension (c ∷ s) =
    if str_eq (c ∷ s) (codes "..")
    then []
    else elim (from_last_dot s) [ none ↦ [] | some ext ↦ ext ]

-- `toLowerCase` on a path, which is ASCII.
abbrev pub lower : ℕ → ℕ
lower c = if leb b'A' c && leb c b'Z' then c + 32 else c

unfoldable pub extname : JsString → JsString
unfolding basename_from from_last_dot
extname path = map lower (extension (basename_from [] path))

-- `MIME_TYPES[ext] || fallback`
unfoldable pub content_type : JsString → JsString → JsString
content_type ext fallback = elim (find (λ t. str_eq t.0 ext) mime_types) [
  | none ↦ fallback
  | some t ↦ t.1
]

abbrev pub has_prefix : JsString → JsString → Bool
has_prefix [] s = true
has_prefix (c ∷ prefix) [] = false
has_prefix (c ∷ prefix) (d ∷ s) = (c == d) && has_prefix prefix s

abbrev pub has_dot : JsString → Bool
has_dot path = any (λ c. c == b'.') path

abbrev pub answer_file : Root → JsString → List (JsString × JsString) → ServerResponse
answer_file root path headers = record { status = 200; headers = headers; content = file root path }

module _ (is_production : Bool) (exists : Root → JsString → Bool) where
  abbrev pub cache_control : JsString
  cache_control = if is_production then codes "public, max-age=31536000" else codes "no-cache"

  abbrev static_file : Root → JsString → ServerResponse
  static_file root path = answer_file root path (
      (codes "Content-Type", content_type (extname path) (codes "application/octet-stream"))
      ∷ (codes "Cache-Control", cache_control)
      ∷ [])

  unfoldable pub serve_static : JsString → Option ServerResponse
  unfolding extname content_type
  serve_static path =
      if exists public_dir path
      then some (static_file public_dir path)
      else if exists dist_dir path
      then some (static_file dist_dir path)
      else none

  -- The branch for files of `fetch`.
  unfoldable pub serve_file : JsString → Option ServerResponse
  unfolding extname content_type serve_static
  serve_file path =
      if not (str_eq path (codes "/")) && (has_dot path || has_prefix (codes "/node_modules/") path)
      then (if has_prefix (codes "/node_modules/") path && exists module_dir path
          then some (
              answer_file module_dir path (
                (codes "Content-Type", content_type (extname path) (codes "application/javascript"))
                ∷ []))
          else serve_static path)
      else none

  -- The fallback of `fetch`.
  unfoldable pub serve_index : ServerResponse
  serve_index =
      if exists public_dir (codes "/index.html")
      then answer_file public_dir (codes "/index.html")
          ((codes "Content-Type", codes "text/html; charset=utf-8") ∷ [])
      else record { status = 404; headers = []; content = text (codes "Not Found") }

-- What is asked of the Kubernetes API: the URL, the method, the headers and the body.
pub record ProxyRequest : Type 0 where
  pub url : JsString
  pub method : JsString
  pub headers : List (JsString × JsString)
  pub body : Option JsString

pub record ProxyResponse : Type 0 where
  pub status : ℕ
  pub content_type : Option JsString
  pub body : JsString

abbrev pub allow_origin : JsString × JsString
allow_origin = (codes "Access-Control-Allow-Origin", codes "*")

abbrev pub proxy_request : JsString → ServerRequest → ProxyRequest
proxy_request api_url req = record {
  url = api_url ++ req.path ++ req.search;
  method = req.method;
  headers =
      (codes "Content-Type", codes "application/json")
      ∷ (codes "Accept", codes "application/json")
      ∷ [];
  body = req.body;
}

abbrev pub proxy_response : Answer ProxyResponse → ServerResponse
proxy_response (ok r) = record {
  status = r.status;
  headers =
      (codes "Content-Type", or_else r.content_type (codes "application/json")) ∷ allow_origin ∷ [];
  content = handed_on r.body;
}
proxy_response (failed message) = record {
  status = 502;
  headers = (codes "Content-Type", codes "application/json") ∷ [];
  content = proxy_error message;
}

unfoldable pub proxy_to_k8s :
    JsString → (ProxyRequest → Answer ProxyResponse) → ServerRequest → ServerResponse
proxy_to_k8s api_url k8s req = proxy_response (k8s (proxy_request api_url req))

abbrev pub is_api : JsString → Bool
is_api path = has_prefix (codes "/api/") path || has_prefix (codes "/apis/") path

abbrev pub preflight : ServerResponse
preflight = record {
  status = 200;
  headers =
      allow_origin
      ∷ (codes "Access-Control-Allow-Methods", codes "GET, POST, PUT, DELETE, PATCH, OPTIONS")
      ∷ (codes "Access-Control-Allow-Headers", codes "Content-Type, Authorization")
      ∷ [];
  content = empty;
}

module _ (is_production : Bool) (exists : Root → JsString → Bool) (api_url : JsString)
    (k8s : ProxyRequest → Answer ProxyResponse) where
  unfoldable pub fetch_handler : ServerRequest → ServerResponse
  unfolding serve_file serve_index proxy_to_k8s
  fetch_handler req =
      if str_eq req.method (codes "OPTIONS")
      then preflight
      else if is_api req.path
      then proxy_to_k8s api_url k8s req
      else elim (serve_file is_production exists req.path) [
        | some response ↦ response
        | none ↦ serve_index is_production exists
      ]
