-- ===== src/Api/Server.antt =====
-- The handlers of internal/api/server.go over the operations of the engine that they call.
pub mod Effects
use go_project.Prelude.{
  ℕ, String, Bool, ◌&&◌, Option, none, some, List, [], ◌∷◌, ◌==◌, if◌then◌else◌, ℤ, pos, Error,
  run_not_found, task_not_found, workflow_not_found, Result, ok, err, decode_payload, ◌>>=◌, Assoc,
}
use go_project.History.Json.{Json, obj, Members, Raw, absent, field?, as_text, as_raw, as_texts}
use go_project.History.Events.{Event}
use go_project.Engine.Types.{RunRecord}
use go_project.Engine.Runtime.Reports.{RunView, ReplayReport}
use go_project.Api.Paths.{trim_prefix, trim, split, is_path, is_below, atoi}

-- The methods of `engine.Service` that the handlers call, on a state of the tables. An error leaves
-- the tables as they were.
pub record Service (S : Type 0) : Type 0 where
  pub workflows : List String
  pub list_runs : ℤ → S → Result (List RunRecord)
  pub start_run : String → Raw → Assoc String → S → Result (S × RunRecord)
  pub get_run : String → S → Result RunView
  pub get_history : String → S → Result (List Event)
  pub cancel_run : String → String → S → Result S
  pub replay_run : String → S → Result ReplayReport

pub data Content : Type 0 where
  empty broken : Content
  document : Json → Content

pub record Request : Type 0 where
  pub method : String
  pub path : String
  pub limit : String
  pub content : Content

pub data Body : Type 0 where
  static : Body
  problem : String → Body
  engine_problem : Error → Body
  note : String → Body
  workflow_names : List String → Body
  run_list : List RunRecord → Body
  one_run : RunRecord → Body
  run_view : RunView → Body
  events : List Event → Body
  report : ReplayReport → Body

pub record Response : Type 0 where
  pub status : ℕ
  pub body : Body

abbrev pub reply : ℕ → Body → Response
reply status body = record { status = status; body = body }

-- `writeEngineError`.
unfoldable pub engine_error : Error → Response
engine_error workflow_not_found = reply 404 (engine_problem workflow_not_found)
engine_error run_not_found = reply 404 (engine_problem run_not_found)
engine_error task_not_found = reply 404 (engine_problem task_not_found)
engine_error e = reply 500 (engine_problem e)

abbrev method_not_allowed : Response
method_not_allowed = reply 405 (problem "method not allowed")

abbrev not_found : Response
not_found = reply 404 (problem "not found")

pub record StartRequest : Type 0 where
  pub workflow : String
  pub input : Raw
  pub metadata : Assoc String

start_members : Members → Result StartRequest
start_members m = as_text (field? "workflow" m) >>= λ workflow.
    as_texts (field? "metadata" m) >>= λ metadata.
    ok (record { workflow = workflow; input = as_raw (field? "input" m); metadata = metadata })

-- The body of `POST /v1/runs`; an empty one is an error too.
unfoldable pub start_request : Content → Result StartRequest
unfolding start_members
start_request (document Json.null) = ok (record { workflow = ""; input = absent; metadata = [] })
start_request (document (obj m)) = start_members m
start_request c = err decode_payload

or_operator : String → String
or_operator reason = if reason == "" then "cancelled by operator" else reason

reason_text : Content → Result String
reason_text empty = ok ""
reason_text (document Json.null) = ok ""
reason_text (document (obj m)) = as_text (field? "reason" m)
reason_text c = err decode_payload

-- The body of a cancellation, which may be empty.
unfoldable pub cancel_reason : Content → Result String
unfolding or_operator reason_text
cancel_reason c = reason_text c >>= λ reason. ok (or_operator reason)

limit_of : String → Option ℤ
limit_of raw = if raw == "" then some (pos 50) else atoi raw

module _ {S : Type 0} (service : Service S) where
  -- A read, and what is written of it.
  unfoldable pub answer : {A : Type 0} → (A → Body) → Result A → Response
  answer body (ok a) = reply 200 (body a)
  answer body (err e) = engine_error e

  unfoldable pub handle_workflows : Request → Response
  handle_workflows r =
      if r.method == "GET" then reply 200 (workflow_names service.workflows) else method_not_allowed

  unfoldable pub created : S → Result (S × RunRecord) → S × Response
  created s (ok (s', run)) = (s', reply 201 (one_run run))
  created s (err e) = (s, engine_error e)

  unfoldable pub start : Result StartRequest → S → S × Response
  unfolding created
  start (err e) s = (s, reply 400 (problem "invalid json body"))
  start (ok q) s = created s (service.start_run q.workflow q.input q.metadata s)

  list : Option ℤ → S → Response
  unfolding answer
  list none s = reply 400 (problem "invalid limit")
  list (some limit) s = answer run_list (service.list_runs limit s)

  -- `handleRuns`.
  unfoldable pub handle_runs : Request → S → S × Response
  unfolding start list limit_of
  handle_runs r s =
      if r.method == "GET"
      then (s, list (limit_of r.limit) s)
      else if r.method == "POST"
      then start (start_request r.content) s
      else (s, method_not_allowed)

  unfoldable pub cancelled : S → Result S → S × Response
  cancelled s (ok s') = (s', reply 202 (note "cancellation requested"))
  cancelled s (err e) = (s, engine_error e)

  unfoldable pub cancel : String → Result String → S → S × Response
  unfolding cancelled
  cancel id (err e) s = (s, reply 400 (problem "invalid json body"))
  cancel id (ok reason) s = cancelled s (service.cancel_run id reason s)

  -- The switch of `handleRunByID`.
  unfoldable pub run_action : String → String → String → Content → S → S × Response
  unfolding answer cancel
  run_action method id action content s =
      if method == "GET" && action == ""
      then (s, answer run_view (service.get_run id s))
      else if method == "GET" && action == "history"
      then (s, answer events (service.get_history id s))
      else if method == "POST" && action == "cancel"
      then cancel id (cancel_reason content) s
      else if method == "POST" && action == "replay"
      then (s, answer report (service.replay_run id s))
      else (s, not_found)

  unfoldable pub action_of : List String → String
  action_of [] = ""
  action_of (action ∷ parts) = action

  unfoldable pub by_parts : String → List String → Content → S → S × Response
  unfolding run_action action_of
  by_parts method [] content s = (s, not_found)
  by_parts method (id ∷ parts) content s =
      if id == "" then (s, not_found) else run_action method id (action_of parts) content s

  -- `handleRunByID`.
  unfoldable pub handle_run_by_id : Request → S → S × Response
  unfolding by_parts
  handle_run_by_id r s =
      by_parts r.method (split (trim (trim_prefix "/v1/runs/" r.path))) r.content s

  -- `routes`, without the profiler; `/` serves the files of the console.
  unfoldable pub handle : Request → S → S × Response
  unfolding handle_run_by_id handle_runs handle_workflows
  handle r s =
      if is_path "/healthz" r.path
      then (s, reply 200 (note "ok"))
      else if is_path "/v1/workflows" r.path
      then (s, handle_workflows r)
      else if is_path "/v1/runs" r.path
      then handle_runs r s
      else if is_below "/v1/runs/" r.path
      then handle_run_by_id r s
      else (s, reply 200 static)
