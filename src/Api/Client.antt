-- ===== src/Api/Client.antt =====
-- The requests of pkg/client/client.go.
pub mod Segments
pub mod Reached
use Prim.Native.Char.{Char, code}
use go_project.Prelude.{
  String, Bool, true, false, ◌&&◌, ◌||◌, not, ◌≡◌, ◌≢◌, refl, ap, sym, ◌∙◌, [], ◌∷◌, ◌==◌, nat_eq,
  eq_iff, arith, Assoc, ok, Bool-cases, inl, inr,
}
use go_project.History.Json.{
  Json, field?, as_text, as_raw, as_texts, obj, member, text, end, value, marshal_texts,
}
use go_project.History.Codec.RoundTrip.{text_members-marshal_texts}
use go_project.Api.Paths.{
  append, strip, trim_prefix, trim_left, trim_right, trim, split, is_path, is_below, is_blank,
}
use go_project.Api.Server.{
  Service, Content, empty, document, Request, answer, cancel, cancel_reason, by_parts, cancelled,
  handle_run_by_id, handle_runs, handle_workflows, handle, reply, workflow_names, created, start,
  start_request, run_view, events, report,
}

abbrev request : String → String → Content → Request
request method path content = record { method = method; path = path; limit = ""; content = content }

-- `GetRun`, `History`, `Cancel`, `Replay` and `Workflows`.
unfoldable pub get_run_request : String → Request
unfolding append
get_run_request id = request "GET" (append "/v1/runs/" id) empty

unfoldable pub history_request : String → Request
unfolding append
history_request id = request "GET" (append (append "/v1/runs/" id) "/history") empty

unfoldable pub cancel_request : String → String → Request
unfolding append
cancel_request id reason =
    request "POST" (append (append "/v1/runs/" id) "/cancel")
      (document (obj (member "reason" (text reason) end)))

unfoldable pub replay_request : String → Request
unfolding append
replay_request id = request "POST" (append (append "/v1/runs/" id) "/replay") (document (obj end))

-- The metadata of a nil map is `null`.
pub metadata_json : Assoc String → Json
metadata_json [] = Json.null
metadata_json (p ∷ metadata) = obj (marshal_texts (p ∷ metadata))

-- `StartRun`; encoding/json writes the keys of a map in order.
unfoldable pub start_run_request : String → Json → Assoc String → Request
unfolding metadata_json
start_run_request workflow input metadata = request "POST" "/v1/runs" (
    document (
      obj (
        member "input" input
          (member "metadata" (metadata_json metadata) (member "workflow" (text workflow) end)))))

unfoldable pub workflows_request : Request
workflows_request = request "GET" "/v1/workflows" empty
