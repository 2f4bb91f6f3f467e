-- ===== src/Client/Tests.antt =====
-- The client of the cluster at concrete inputs.
use jobrunner.Prelude.{
  JsString, codes, List, [], ◌∷◌, ◌++◌, none, some, false, Answer, failed, ◌≡◌, ◌⊎◌, refl, filter,
  not, ◌==◌, newline, split_lines, split_from, arith,
}
use jobrunner.Client.{
  Request, Platform, get, post, put, Payload, Cluster, Secret, Pvc, StorageClass, secret,
  opaque_secret, core_path, core_item_path, ask, request, send, create_secret, update_secret,
  list_pvcs, list_storage_classes, list_secrets, body, broken, done, start_watch, deliver_lines,
  stream_pod_logs,
}
use jobrunner.Client.Errors.{fresh, judged, request_lem, lists_never_fail}
use jobrunner.Client.Requests.{encodable, decode_entries, write_secret_lem}
use jobrunner.Client.Chunks.{joined, watch_lines_lem, stream_pod_logs_lem, stream_pod_logs-cut}

-- A proxy that answers every request with a page that is not JSON.
abbrev bad_gateway : {P : Type 0} → Platform P
bad_gateway = record {
  fetch = λ _. Answer.ok (fresh false 502 (codes "<h1>Bad Gateway</h1>"));
  parse_error = λ _. failed (codes "Unexpected token <");
  unusable = codes "body stream already read";
}

abbrev refuse : {A : Type 0} → JsString → Answer A
refuse text = failed (codes "Unexpected token")

abbrev behind_gateway : Cluster JsString
behind_gateway = record {
  platform = bad_gateway;
  base_url = [];
  parse_pipeline = refuse;
  parse_pipelines = refuse;
  parse_events = refuse;
  parse_names = refuse;
  parse_pods = refuse;
  parse_pvcs = refuse;
  parse_storage_classes = refuse;
  parse_secrets = refuse;
  parse_secret = refuse;
  parse_other = refuse;
  invalid_character = codes "InvalidCharacterError";
}

abbrev namespaces_request : Request Payload
namespaces_request = ask get (codes "/api/v1/namespaces") [] none

request_lem_example :
    request bad_gateway (λ text. Answer.ok text) (codes "http://localhost") namespaces_request
    ≡ judged {P = Payload} bad_gateway
        (λ text. Answer.ok text)
        false
        502
        (codes "<h1>Bad Gateway</h1>")
request_lem_example =
    request_lem bad_gateway (λ text. Answer.ok text) (codes "http://localhost") namespaces_request
      false 502 (codes "<h1>Bad Gateway</h1>") refl

lists_never_fail_example :
    ((claims : List Pvc) × (list_pvcs behind_gateway (codes "default") ≡ Answer.ok claims))
    × ((classes : List StorageClass) × (list_storage_classes behind_gateway ≡ Answer.ok classes))
    × ((secrets : List Secret) × (list_secrets behind_gateway (codes "default")
          ≡ Answer.ok secrets))
lists_never_fail_example = lists_never_fail behind_gateway (codes "default")

abbrev token_entries : List (JsString × JsString)
token_entries = (codes "token", codes "hunter2") ∷ []

write_secret_lem_example :
    ((encodable token_entries ≡ false)
      × (create_secret behind_gateway (codes "ci") (codes "api") token_entries
          ≡ failed (codes "InvalidCharacterError"))
      × (update_secret behind_gateway (codes "ci") (codes "api") token_entries
          ≡ failed (codes "InvalidCharacterError")))
    ⊎ ((coded : List (JsString × JsString)) × (decode_entries coded ≡ some token_entries)
        × (create_secret behind_gateway (codes "ci") (codes "api") token_entries
            ≡ send behind_gateway post
                (core_path (codes "ci") (codes "secrets"))
                (some (secret (opaque_secret (codes "ci") (codes "api") coded))))
        × (update_secret behind_gateway (codes "ci") (codes "api") token_entries
            ≡ send behind_gateway put
                (core_item_path (codes "ci") (codes "secrets") (codes "api"))
                (some (secret (opaque_secret (codes "ci") (codes "api") coded)))))
write_secret_lem_example = write_secret_lem behind_gateway (codes "ci") (codes "api") token_entries

-- Two events, the second cut in two, and a third that is not complete.
abbrev event_chunks : List JsString
event_chunks = (codes "ab" ++ newline ∷ codes "c") ∷ (codes "d" ++ newline ∷ codes "e") ∷ []

watch_lines_lem_example :
    (start_watch
      (λ line. Answer.ok line)
      (body event_chunks (broken (codes "TypeError")))).delivered
    ≡ deliver_lines (λ line. Answer.ok line) (split_lines (joined event_chunks)).lines
watch_lines_lem_example =
    watch_lines_lem (λ line. Answer.ok line) event_chunks (broken (codes "TypeError"))

stream_pod_logs_lem_example :
    joined (stream_pod_logs (body event_chunks done))
    ≡ filter (λ c. not (c == newline)) (joined event_chunks)
stream_pod_logs_lem_example = stream_pod_logs_lem event_chunks done

abbrev whole_chunks : List JsString
whole_chunks = (codes "ab" ++ newline ∷ []) ∷ (newline ∷ codes "c" ++ newline ∷ []) ∷ []

whole_chunks_end :
    ((split_lines (codes "ab" ++ newline ∷ [])).rest ≡ [])
    × ((split_lines (newline ∷ codes "c" ++ newline ∷ [])).rest ≡ [])
unfolding split_lines split_from
whole_chunks_end = (refl, refl)

stream_pod_logs-cut_example :
    (stream_pod_logs (body (codes "Hel" ∷ codes "lo" ∷ []) done) ≡ codes "Hel" ∷ codes "lo" ∷ [])
    × (stream_pod_logs (body (codes "Hello" ∷ []) done) ≡ codes "Hello" ∷ [])
stream_pod_logs-cut_example =
    stream_pod_logs-cut b'H' b'l' (codes "el") (codes "o") done (ground arith) (ground arith)
