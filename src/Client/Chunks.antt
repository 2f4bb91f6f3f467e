-- ===== src/Client/Chunks.antt =====
-- ui/src/lib/k8s-client.ts: what the loops of `watchPipelines` and of `streamPodLogs` make of a body
-- that arrives in chunks.
use mathlib.Core.Path.{◌≡◌, refl, sym, ap, ap₂, ◌∙◌}
use mathlib.Core.List.{append_assoc, append-nil}
use mathlib.Core.Logic.{inl, inr}
use native.Mathlib.Omega.{arith}
use jobrunner.Prelude.{
  ℕ, JsString, List, [], ◌∷◌, ◌++◌, Bool, false, not, filter, ◌==◌, Answer, newline, Split,
  split_lines, split_from, split_lines-append, all_lines, NoBreak, Bool-cases, has_text,
}
use jobrunner.Client.Stream.{
  Ending, body, done, broken, deliver_lines, read_watch, start_watch, log_line, log_lines, read_log,
  stream_pod_logs,
}

-- The text of a body.
abbrev pub joined : List JsString → JsString
joined [] = []
joined (chunk ∷ chunks) = chunk ++ joined chunks

deliver_lines-append :
    {A : Type 0} (parse : JsString → Answer A) (ls ms : List JsString)
    → deliver_lines parse (ls ++ ms) ≡ deliver_lines parse ls ++ deliver_lines parse ms
unfolding deliver_lines
deliver_lines-append parse [] ms = refl
deliver_lines-append parse (line ∷ ls) ms =
    let ih = deliver_lines-append parse ls ms in
    elim (Bool-cases (has_text line)) [ inl e ↦ rw (e, ih) | inr e ↦ rw (e, ih) ]

read_watch-joined :
    {A : Type 0} (parse : JsString → Answer A) (buffer : JsString) (chunks : List JsString)
    → deliver_lines parse (split_lines buffer).lines
        ++ read_watch parse (split_lines buffer).rest chunks
      ≡ deliver_lines parse (split_lines (buffer ++ joined chunks)).lines
unfolding read_watch
read_watch-joined parse buffer [] =
    rw (append-nil (deliver_lines parse (split_lines buffer).lines), append-nil buffer)
read_watch-joined parse buffer (chunk ∷ chunks) =
    let r = split_lines buffer in
    ap (λ ds. deliver_lines parse r.lines ++ ds) (read_watch-joined parse (r.rest ++ chunk) chunks)
    ∙ sym (
        deliver_lines-append parse r.lines (split_lines ((r.rest ++ chunk) ++ joined chunks)).lines)
    ∙ ap (λ t. deliver_lines parse (r.lines ++ (split_lines t).lines))
        (append_assoc r.rest chunk (joined chunks))
    ∙ sym (
        ap (λ (s : Split). deliver_lines parse s.lines)
          (split_lines-append buffer (chunk ++ joined chunks)))

read_watch-empty :
    {A : Type 0} (parse : JsString → Answer A) (chunks : List JsString)
    → read_watch parse [] chunks ≡ deliver_lines parse (split_lines (joined chunks)).lines
read_watch-empty parse chunks =
    unfold split_lines split_from deliver_lines in (read_watch-joined parse [] chunks)

-- The watch handles the lines of the body that a line break ends and that are more than white space,
-- each once and in order, whatever the chunks are in which the body arrives: a line that parses goes
-- to the callback, and of another one the error is logged. What follows the last line break is not
-- handled. The same holds when the reading ends and when it breaks off.
pub watch_lines_lem :
    {A : Type 0} (parse : JsString → Answer A) (chunks : List JsString) (ending : Ending)
    → (start_watch parse (body chunks ending)).delivered
      ≡ deliver_lines parse (split_lines (joined chunks)).lines
unfolding start_watch
watch_lines_lem parse chunks done = read_watch-empty parse chunks
watch_lines_lem parse chunks (broken name) = read_watch-empty parse chunks

-- `split` takes the line breaks out of a text and nothing else.
split_from-joined :
    (cur s : JsString)
    → joined (all_lines (split_from cur s)) ≡ cur ++ filter (λ c. not (c == newline)) s
unfolding split_from
split_from-joined cur [] = refl
split_from-joined cur (c ∷ s) = elim (Bool-cases (c == newline)) [
  | inl break ↦ rw break (ap (λ t. cur ++ t) (split_from-joined [] s))
  | inr plain ↦ rw plain (
      split_from-joined (cur ++ c ∷ []) s
      ∙ append_assoc cur (c ∷ []) (filter (λ d. not (d == newline)) s))
]

split_lines-joined :
    (s : JsString) → joined (all_lines (split_lines s)) ≡ filter (λ c. not (c == newline)) s
unfolding split_lines
split_lines-joined s = split_from-joined [] s

log_lines-joined : (ls : List JsString) → joined (log_lines ls) ≡ joined ls
log_lines-joined [] = refl
log_lines-joined ([] ∷ ls) = log_lines-joined ls
log_lines-joined ((c ∷ line) ∷ ls) = ap (λ t. (c ∷ line) ++ t) (log_lines-joined ls)

joined-append : (ls ms : List JsString) → joined (ls ++ ms) ≡ joined ls ++ joined ms
joined-append [] ms = refl
joined-append (l ∷ ls) ms =
    ap (λ t. l ++ t) (joined-append ls ms) ∙ sym (append_assoc l (joined ls) (joined ms))

filter-append : (p : ℕ → Bool) (s t : JsString) → filter p (s ++ t) ≡ filter p s ++ filter p t
filter-append p [] t = refl
filter-append p (c ∷ s) t = elim (Bool-cases (p c)) [
  | inl e ↦ rw (e, filter-append p s t)
  | inr e ↦ rw (e, filter-append p s t)
]

read_log-joined :
    (chunks : List JsString)
    → joined (read_log chunks) ≡ filter (λ c. not (c == newline)) (joined chunks)
unfolding read_log
read_log-joined [] = refl
read_log-joined (chunk ∷ chunks) =
    joined-append (log_lines (all_lines (split_lines chunk))) (read_log chunks)
    ∙ ap₂ (λ s t. s ++ t)
        (log_lines-joined (all_lines (split_lines chunk)) ∙ split_lines-joined chunk)
        (read_log-joined chunks)
    ∙ sym (filter-append (λ c. not (c == newline)) chunk (joined chunks))

-- The stream of a pod's log hands every character of the body to the callback in its order, the line
-- breaks excepted, and nothing else.
pub stream_pod_logs_lem :
    (chunks : List JsString) (ending : Ending)
    → joined (stream_pod_logs (body chunks ending))
      ≡ filter (λ c. not (c == newline)) (joined chunks)
unfolding stream_pod_logs
stream_pod_logs_lem chunks ending = read_log-joined chunks

log_lines-append : (ls ms : List JsString) → log_lines (ls ++ ms) ≡ log_lines ls ++ log_lines ms
log_lines-append [] ms = refl
log_lines-append (l ∷ ls) ms =
    ap (λ t. log_line l ++ t) (log_lines-append ls ms)
    ∙ sym (append_assoc (log_line l) (log_lines ls) (log_lines ms))

-- The chunk ends with a line break, or is empty.
abbrev pub EndsLine : JsString → Type 0
EndsLine chunk = (split_lines chunk).rest ≡ []

abbrev pub AllEndLine : List JsString → Type 0
AllEndLine [] = Unit
AllEndLine (chunk ∷ chunks) = EndsLine chunk × AllEndLine chunks

read_log-whole :
    (chunks : List JsString)
    → AllEndLine chunks
    → read_log chunks ≡ log_lines (all_lines (split_lines (joined chunks)))
unfolding read_log
read_log-whole [] h = unfold split_lines split_from in refl
read_log-whole (chunk ∷ chunks) (whole, h) =
    let r = split_lines chunk in
    ap (λ t. log_lines (r.lines ++ t ∷ []) ++ read_log chunks) whole
    ∙ ap₂ (λ t u. t ++ u) (log_lines-append r.lines ([] ∷ []) ∙ append-nil (log_lines r.lines))
        (read_log-whole chunks h)
    ∙ sym (
        ap (λ q. log_lines (all_lines q)) (split_lines-append chunk (joined chunks))
        ∙ ap
            (λ t. log_lines (
              (r.lines ++ (split_lines (t ++ joined chunks)).lines)
              ++ (split_lines (t ++ joined chunks)).rest ∷ []))
            whole
        ∙ ap log_lines (
            append_assoc r.lines (split_lines (joined chunks)).lines
              ((split_lines (joined chunks)).rest ∷ []))
        ∙ log_lines-append r.lines (all_lines (split_lines (joined chunks))))

-- Where every chunk ends with a line break, the callback of the log's stream gets the lines of the
-- body that are not empty.
pub stream_pod_logs-whole :
    (chunks : List JsString) (ending : Ending)
    → AllEndLine chunks
    → stream_pod_logs (body chunks ending) ≡ log_lines (all_lines (split_lines (joined chunks)))
unfolding stream_pod_logs
stream_pod_logs-whole chunks ending h = read_log-whole chunks h

NoBreak-append : (s t : JsString) → NoBreak s → NoBreak t → NoBreak (s ++ t)
NoBreak-append [] t h k = k
NoBreak-append (c ∷ s) t (plain, h) k = (plain, NoBreak-append s t h k)

split_from-plain :
    (cur s : JsString) → NoBreak s → split_from cur s ≡ record { lines = []; rest = cur ++ s }
unfolding split_from
split_from-plain cur [] h = rw (append-nil cur)
split_from-plain cur (c ∷ s) (plain, h) =
    let test : (c == newline) ≡ false = ground arith in
    rw test (
      split_from-plain (cur ++ c ∷ []) s h
      ∙ ap (λ t. record { lines = []; rest = t }) (append_assoc cur (c ∷ []) s))

split_lines-plain : (s : JsString) → NoBreak s → split_lines s ≡ record { lines = []; rest = s }
unfolding split_lines
split_lines-plain s h = split_from-plain [] s h

-- A line of the log that arrives in two chunks, with text on both sides of the cut, is given to the
-- callback as two lines; in one chunk it is given as one.
pub stream_pod_logs-cut :
    (c d : ℕ) (s t : JsString) (ending : Ending)
    → NoBreak (c ∷ s)
    → NoBreak (d ∷ t)
    → (stream_pod_logs (body ((c ∷ s) ∷ (d ∷ t) ∷ []) ending) ≡ (c ∷ s) ∷ (d ∷ t) ∷ [])
      × (stream_pod_logs (body ((c ∷ s ++ d ∷ t) ∷ []) ending) ≡ (c ∷ s ++ d ∷ t) ∷ [])
unfolding stream_pod_logs read_log
stream_pod_logs-cut c d s t ending plain_s plain_t = (
  rw (split_lines-plain (c ∷ s) plain_s, split_lines-plain (d ∷ t) plain_t),
  rw (split_lines-plain (c ∷ s ++ d ∷ t) (NoBreak-append (c ∷ s) (d ∷ t) plain_s plain_t)),
)
