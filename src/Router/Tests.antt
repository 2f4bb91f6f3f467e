-- ===== src/Router/Tests.antt =====
-- The router at a path that no route matches.
use jobrunner.Prelude.{JsString, [], Option, none, some, str_eq, if◌then◌else◌}
use jobrunner.Router.{Groups}

-- Patterns without groups.
abbrev exec_plain : JsString → JsString → Option Groups
exec_plain pattern path = if str_eq pattern path then some [] else none
