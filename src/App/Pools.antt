-- ===== src/App/Pools.antt =====
-- The pools that `New` of internal/app/app.go starts, on the SQLite tables.
use go_project.Prelude.{String, some, Option, none}
use go_project.App.{Config}

option_or : Option String → String
option_or none = ""
option_or (some s) = s
