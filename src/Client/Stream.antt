-- ===== src/Client/Stream.antt =====
-- ui/src/lib/k8s-client.ts: `watchPipelines` and `streamPodLogs`, the two methods that read the body
-- of a response while it arrives. A connection is what `fetch` and the reader of the body hand over:
-- the decoded chunks in their order and how the reading ended. A callback is assumed to return.
use jobrunner.Prelude.{
  ℕ, JsString, codes, List, [], ◌∷◌, ◌++◌, Option, none, some, Answer, failed, str_eq,
  if◌then◌else◌, split_lines, all_lines, has_text,
}
use jobrunner.Client.Http.{get, Request}
use jobrunner.Client.Api.{Payload, ask, list_path, core_item_path, text_param, number_param}

-- How reading ends: `done`, or an error with its name.
pub data Ending : Type 0 where
  done : Ending
  broken : JsString → Ending

pub data Connection : Type 0 where
  refused : JsString → Connection
  no_body : Connection
  body : List JsString → Ending → Connection

-- What the watch does for a line: the callback's call, or the error that is logged.
pub data Delivery (A : Type 0) : Type 0 where
  event : A → Delivery A
  unreadable : JsString → Delivery A

-- What one attempt does, in order, and the delay after which it is made again.
pub record Attempt (A : Type 0) : Type 0 where
  pub delivered : List (Delivery A)
  pub retry : Option ℕ

abbrev pub retry_delay : ℕ
retry_delay = 5000

-- `params.toString()` stands for the entries.
unfoldable pub watch_request : JsString → JsString → Option JsString → Request Payload
unfolding list_path
watch_request base_url namespace resource_version =
    ask get (base_url ++ list_path namespace)
      ((codes "watch", codes "true") ∷ text_param (codes "resourceVersion") resource_version) none

-- The `catch` of `startWatch`.
unfoldable pub retry_after : JsString → Option ℕ
retry_after name = if str_eq name (codes "AbortError") then none else some retry_delay

module _ {A : Type 0} (parse : JsString → Answer A) where
  abbrev pub delivery : Answer A → Delivery A
  delivery (Answer.ok a) = event a
  delivery (failed message) = unreadable message

  -- The inner loop over the lines that are complete.
  unfoldable pub deliver_lines : List JsString → List (Delivery A)
  unfolding has_text
  deliver_lines [] = []
  deliver_lines (line ∷ lines) =
      let later = deliver_lines lines in
      if has_text line then delivery (parse line) ∷ later else later

  -- The loop over the chunks; the buffer holds the line that is not complete.
  unfoldable pub read_watch : JsString → List JsString → List (Delivery A)
  unfolding deliver_lines split_lines
  read_watch buffer [] = []
  read_watch buffer (chunk ∷ chunks) =
      let r = split_lines (buffer ++ chunk) in deliver_lines r.lines ++ read_watch r.rest chunks

  unfoldable pub start_watch : Connection → Attempt A
  unfolding read_watch retry_after
  start_watch (refused name) = record { delivered = []; retry = retry_after name }
  start_watch no_body = record { delivered = []; retry = none }
  start_watch (body chunks done) = record { delivered = read_watch [] chunks; retry = none }
  start_watch (body chunks (broken name)) = record {
    delivered = read_watch [] chunks;
    retry = retry_after name;
  }

  abbrev continued : Option ℕ → List (Delivery A) → List (Delivery A)
  continued none later = []
  continued (some delay) later = later

  -- The attempts that follow each other, when the connections come out as listed.
  unfoldable pub watch_pipelines : List Connection → List (Delivery A)
  unfolding start_watch
  watch_pipelines [] = []
  watch_pipelines (connection ∷ connections) =
      let later = watch_pipelines connections in
      let attempt = start_watch connection in attempt.delivered ++ continued attempt.retry later

unfoldable pub log_request :
    JsString → JsString → JsString → Option JsString → Option ℕ → Request Payload
log_request base_url namespace pod_name container tail_lines =
    ask get (base_url ++ core_item_path namespace (codes "pods") pod_name ++ codes "/log")
      ((codes "follow", codes "true")
        ∷ (text_param (codes "container") container ++ number_param (codes "tailLines") tail_lines))
      none

-- `if (line) callback(line)`
abbrev pub log_line : JsString → List JsString
log_line [] = []
log_line (c ∷ line) = (c ∷ line) ∷ []

abbrev pub log_lines : List JsString → List JsString
log_lines [] = []
log_lines (line ∷ lines) = log_line line ++ log_lines lines

-- The loop of `streamPodLogs`: each chunk is split by itself.
unfoldable pub read_log : List JsString → List JsString
unfolding split_lines
read_log [] = []
read_log (chunk ∷ chunks) = log_lines (all_lines (split_lines chunk)) ++ read_log chunks

-- The lines the callback is given; an error is logged and ends the stream.
unfoldable pub stream_pod_logs : Connection → List JsString
unfolding read_log
stream_pod_logs (refused name) = []
stream_pod_logs no_body = []
stream_pod_logs (body chunks ending) = read_log chunks
