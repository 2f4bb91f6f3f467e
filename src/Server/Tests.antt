-- ===== src/Server/Tests.antt =====
-- The server at concrete requests.
use jobrunner.Prelude.{
  JsString, codes, [], none, false, ◌≡◌, refl, inl, Answer, failed, str_eq, Bool,
}
use jobrunner.Server.{
  ServerRequest, Root, public_dir, dist_dir, extname, content_type, ProxyRequest, ProxyResponse,
}
use jobrunner.Server.Index.{IsRoute}

-- The files /index.html and /main.js.
abbrev files : Root → JsString → Bool
files public_dir path = str_eq path (codes "/index.html")
files dist_dir path = str_eq path (codes "/main.js")
files _ path = false

abbrev get_request : JsString → ServerRequest
get_request path = record { method = codes "GET"; path = path; search = []; body = none }

abbrev unreachable : ProxyRequest → Answer ProxyResponse
unreachable request = failed (codes "ConnectionRefused")

extension_of_script : extname (codes "/assets/App.min.JS") ≡ codes ".js"
unfolding extname str_eq
extension_of_script = refl

no_extension : extname (codes "/.env/") ≡ []
unfolding extname str_eq
no_extension = refl

type_of_font : content_type (codes ".woff2") [] ≡ codes "font/woff2"
unfolding content_type str_eq
type_of_font = refl

detail-IsRoute : IsRoute files (codes "/pipelines/ci/nightly")
detail-IsRoute = record { not_api = refl; no_file = inl (refl, refl) }
