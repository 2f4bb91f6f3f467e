-- ===== src/Detail/Duration.antt =====
-- `formatDuration`, which the pages of a pipeline and of a step have alike. The time of a date in
-- milliseconds is the platform's, `none` where it cannot read the date.
use jobrunner.Prelude.{
  ℕ, zero, suc, ◌+◌, ◌-◌, ◌*◌, ◌/◌, ◌%◌, ◌≤◌, ◌<◌, JsString, codes, [], ◌∷◌, ◌++◌, Option, none,
  some, true, ◌≡◌, refl, arith, ltb, leb, ◌==◌, if◌then◌else◌, to_decimal,
}

-- From a whole number of seconds.
unfoldable pub format_seconds : ℕ → JsString
format_seconds secs =
    if ltb 0 (secs / 60)
    then to_decimal (secs / 60) ++ codes "m " ++ to_decimal (secs % 60) ++ codes "s"
    else to_decimal (secs % 60) ++ codes "s"

-- From a negative one. `Math.floor` leaves less than no minutes, and `%` has the sign of the
-- seconds; a remainder of -0 is written as 0.
unfoldable pub format_negative : ℕ → JsString
format_negative secs =
    if secs % 60 == 0 then codes "0s" else codes "-" ++ to_decimal (secs % 60) ++ codes "s"

-- `Math.floor(diffMs / 1000)` rounds down, so up in the amount of a negative difference.
unfoldable pub format_times : ℕ → ℕ → JsString
unfolding format_seconds format_negative
format_times start end =
    if leb start end
    then format_seconds ((end - start) / 1000)
    else format_negative ((start - end + 999) / 1000)

module _ (time_of : JsString → Option ℕ) where
  -- `endTime ? new Date(endTime) : new Date()`
  abbrev pub end_of : Option JsString → ℕ → Option ℕ
  end_of none now = some now
  end_of (some []) now = some now
  end_of (some (c ∷ s)) now = time_of (c ∷ s)

  unfoldable pub format_duration : Option JsString → Option JsString → ℕ → JsString
  unfolding format_times
  format_duration none end now = codes "-"
  format_duration (some []) end now = codes "-"
  format_duration (some (c ∷ s)) end now = elim (time_of (c ∷ s)) [
    | none ↦ codes "NaNs"
    | some from ↦ elim (end_of end now) [ none ↦ codes "NaNs" | some to ↦ format_times from to ]
  ]

abbrev pub written : ℕ → ℕ → JsString
written zero secs = to_decimal secs ++ codes "s"
written (suc mins) secs = to_decimal (suc mins) ++ codes "m " ++ to_decimal secs ++ codes "s"

seconds_written :
    (mins secs n : ℕ) → n / 60 ≡ mins → n % 60 ≡ secs → format_seconds n ≡ written mins secs
unfolding format_seconds
seconds_written zero secs n e f = rw (e, f) refl
seconds_written (suc mins) secs n e f = rw (e, f) (ground arith)

-- From a start to an end that is not before it, the text gives the whole minutes, if there are any,
-- and the seconds below 60, and together they are the seconds that have passed in full.
pub format_times_lem :
    (start end : ℕ)
    → start ≤ end
    → (mins : ℕ) × (secs : ℕ) × (format_times start end ≡ written mins secs)
      × (secs < 60)
      × ((mins * 60 + secs) * 1000 ≤ end - start)
      × (end - start < (mins * 60 + secs + 1) * 1000)
unfolding format_times
format_times_lem start end h =
    let n = (end - start) / 1000 in
    let ordered : leb start end ≡ true = ground arith in
    (
      n / 60,
      n % 60,
      rw ordered (seconds_written (n / 60) (n % 60) n refl refl),
      omega arith,
      omega arith,
      omega arith,
    )
