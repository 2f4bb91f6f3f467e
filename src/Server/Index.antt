-- ===== src/Server/Index.antt =====
-- Which requests come back to the page of the client.
use jobrunner.Prelude.{
  JsString, codes, [], ◌∷◌, none, Bool, true, false, ◌≡◌, refl, ◌⊎◌, inl, inr, arith, str_eq,
  Answer,
}
use jobrunner.Server.{
  ServerRequest, Root, public_dir, dist_dir, module_dir, has_prefix, has_dot, answer_file,
  serve_static, serve_file, serve_index, ProxyRequest, ProxyResponse, is_api, fetch_handler,
}

-- The path names no file: it is not looked for, or it is not there.
pub record IsRoute (exists : Root → JsString → Bool) (path : JsString) : Type 0 where
  pub not_api : is_api path ≡ false
  pub no_file :
      ((has_dot path ≡ false) × (has_prefix (codes "/node_modules/") path ≡ false))
      ⊎ ((exists module_dir path ≡ false)
          × (exists public_dir path ≡ false)
          × (exists dist_dir path ≡ false))

module _ (is_production : Bool) (exists : Root → JsString → Bool) where
  serve_file-none :
      (path : JsString) → IsRoute exists path → serve_file is_production exists path ≡ none
  unfolding serve_file serve_static
  serve_file-none path h = elim h.no_file [
    | inl (no_dot, no_module) ↦ rw (no_dot, no_module) (ground arith)
    | inr (no_module, no_public, no_dist) ↦ rw (no_module, no_public, no_dist) (ground arith)
  ]

  -- Whatever page of the client is asked for, by any method but OPTIONS, the server answers with
  -- index.html, so that the router of the client finds its path again: a path that is not the
  -- API's and has no dot, or that names no file in the three directories, and index.html is there.
  pub fetch_handler-index :
      (api_url : JsString) (k8s : ProxyRequest → Answer ProxyResponse) (req : ServerRequest)
      → str_eq req.method (codes "OPTIONS") ≡ false
      → IsRoute exists req.path
      → exists public_dir (codes "/index.html") ≡ true
      → fetch_handler is_production exists api_url k8s req
        ≡ answer_file public_dir
            (codes "/index.html")
            ((codes "Content-Type", codes "text/html; charset=utf-8") ∷ [])
  unfolding fetch_handler serve_index
  fetch_handler-index api_url k8s req method h there =
      rw (method, h.not_api, serve_file-none req.path h, there) refl
