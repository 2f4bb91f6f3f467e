-- ===== src/Paging/Rows.antt =====
-- The column Created of a row: ui/src/components/monitor/pipeline-list.ts, and with the same code
-- ui/src/components/storage/secret-list.ts and pvc-list.ts. `now` is the time in milliseconds,
-- `time_of` that of a date, which is valid and not before 1970, and `date_text` the date as the
-- platform writes it.
use jobrunner.Prelude.{
  ℕ, ◌-◌, ◌/◌, JsString, codes, [], ◌∷◌, ◌++◌, Option, none, some, if◌then◌else◌, ltb, to_decimal,
}

-- `formatTime`, from the two times in milliseconds and the date as the platform writes it. Where the
-- clock of the cluster is ahead the difference is below 1 minute, as 0 is.
unfoldable pub format_time : ℕ → ℕ → JsString → JsString
format_time now date written =
    let minutes = (now - date) / 60000 in
    let hours = minutes / 60 in
    let days = hours / 24 in
    if ltb minutes 1
    then codes "just now"
    else if ltb minutes 60
    then to_decimal minutes ++ codes "m ago"
    else if ltb hours 24
    then to_decimal hours ++ codes "h ago"
    else if ltb days 7
    then to_decimal days ++ codes "d ago"
    else written

-- `timestamp ? this.formatTime(timestamp) : '-'`
unfoldable pub created_text :
    ℕ → (JsString → ℕ) → (JsString → JsString) → Option JsString → JsString
unfolding format_time
created_text now time_of date_text none = codes "-"
created_text now time_of date_text (some []) = codes "-"
created_text now time_of date_text (some (c ∷ s)) =
    format_time now (time_of (c ∷ s)) (date_text (c ∷ s))
