-- ===== src/Api/Client/Reached.antt =====
-- The handlers of internal/api/server.go that the requests of pkg/client/client.go reach.
use go_project.Prelude.{
  String, true, ◌≡◌, ◌≢◌, refl, ap, ◌∙◌, [], ◌∷◌, ◌==◌, eq_iff, arith, Assoc, ok, Bool-cases, inl,
  inr,
}
use go_project.History.Json.{Json, field?, as_text, as_raw, as_texts, obj, member, text, end, value}
use go_project.History.Codec.RoundTrip.{text_members-marshal_texts}
use go_project.Api.Paths.{
  append, strip, trim_prefix, trim_right, split, is_path, is_below, is_blank,
}
use go_project.Api.Server.{
  Service, Content, empty, document, answer, cancel, cancel_reason, by_parts, cancelled,
  handle_run_by_id, handle_runs, handle_workflows, handle, reply, workflow_names, created, start,
  start_request, run_view, events, report,
}
use go_project.Api.Client.{
  get_run_request, history_request, cancel_request, replay_request, start_run_request,
  workflows_request, metadata_json,
}
use go_project.Api.Client.Segments.{is_id, is_id-named, parts-id, parts-action}

module _ {S : Type 0} (service : Service S) where
  -- The calls of the engine that the four requests on a run come to.
  pub record Reaches (id reason : String) (s : S) : Type 0 where
    pub viewed :
        handle service (get_run_request id) s ≡ (s, answer service run_view (service.get_run id s))
    pub told :
        handle service (history_request id) s
        ≡ (s, answer service events (service.get_history id s))
    pub stopped :
        reason ≢ ""
        → handle service (cancel_request id reason) s
          ≡ cancelled service s (service.cancel_run id reason s)
    pub replayed :
        handle service (replay_request id) s ≡ (s, answer service report (service.replay_run id s))
    pub begun :
        (workflow : String) (input : Json) (metadata : Assoc String)
        → handle service (start_run_request workflow input metadata) s
          ≡ created service s (service.start_run workflow (value input) metadata s)
    pub listed :
        handle service workflows_request s ≡ (s, reply 200 (workflow_names service.workflows))

  start_request-start_run :
      (workflow : String) (input : Json) (metadata : Assoc String)
      → start_request (start_run_request workflow input metadata).content
        ≡ ok (record { workflow = workflow; input = value input; metadata = metadata })
  unfolding start_request start_run_request metadata_json field? as_text as_raw as_texts
  start_request-start_run workflow input [] = refl
  start_request-start_run workflow input (p ∷ metadata) =
      ground (arith, text_members-marshal_texts (p ∷ metadata))

  begun_lem :
      (s : S) (workflow : String) (input : Json) (metadata : Assoc String)
      → handle service (start_run_request workflow input metadata) s
        ≡ created service s (service.start_run workflow (value input) metadata s)
  unfolding handle handle_runs start_run_request strip is_path is_blank start
  begun_lem s workflow input metadata =
      ap (λ q. start service q s) (start_request-start_run workflow input metadata)

  listed_lem :
      (s : S)
      → handle service workflows_request s ≡ (s, reply 200 (workflow_names service.workflows))
  unfolding handle handle_workflows workflows_request strip is_path is_blank
  listed_lem s = refl

  viewed_lem :
      (id : String) (s : S)
      → is_id id ≡ true
      → handle service (get_run_request id) s ≡ (s, answer service run_view (service.get_run id s))
  unfolding handle handle_run_by_id get_run_request append strip trim_prefix is_path is_below
      is_blank
  viewed_lem id s h =
      ap (λ parts. by_parts service "GET" parts empty s) (parts-id id h)
      ∙ rw (is_id-named id h) refl

  told_lem :
      (id : String) (s : S)
      → is_id id ≡ true
      → handle service (history_request id) s
        ≡ (s, answer service events (service.get_history id s))
  unfolding handle handle_run_by_id history_request append strip trim_prefix is_path is_below
      is_blank trim_right split
  told_lem id s h =
      ap (λ parts. by_parts service "GET" parts empty s) (parts-action id "history" h refl refl)
      ∙ rw (is_id-named id h) refl

  replayed_lem :
      (id : String) (s : S)
      → is_id id ≡ true
      → handle service (replay_request id) s ≡ (s, answer service report (service.replay_run id s))
  unfolding handle handle_run_by_id replay_request append strip trim_prefix is_path is_below
      is_blank trim_right split
  replayed_lem id s h =
      ap (λ parts. by_parts service "POST" parts (document (obj end)) s)
        (parts-action id "replay" h refl refl)
      ∙ rw (is_id-named id h) refl

  abbrev reason_content : String → Content
  reason_content reason = document (obj (member "reason" (text reason) end))

  cancel_reason-given :
      (reason : String) → reason ≢ "" → cancel_reason (reason_content reason) ≡ ok reason
  unfolding cancel_reason field? as_text
  cancel_reason-given reason given = elim (Bool-cases (reason == "")) [
    | inl missing ↦ absurd (given ((eq_iff reason "").0 missing))
    | inr there ↦ rw there refl
  ]

  stopped_lem :
      (id reason : String) (s : S)
      → is_id id ≡ true
      → reason ≢ ""
      → handle service (cancel_request id reason) s
        ≡ cancelled service s (service.cancel_run id reason s)
  unfolding handle handle_run_by_id cancel_request append strip trim_prefix is_path is_below
      is_blank trim_right split cancel
  stopped_lem id reason s h given =
      ap (λ parts. by_parts service "POST" parts (reason_content reason) s)
        (parts-action id "cancel" h refl refl)
      ∙ rw (is_id-named id h) (ap (λ r. cancel service id r s) (cancel_reason-given reason given))

  -- The requests that the client makes for a run id of letters, digits, dashes and underscores reach
  -- the handlers of that run: `GetRun`, `History` and `Replay` are answered with what the engine
  -- returns and leave the tables, and `Cancel` with a reason cancels the run with that reason.
  -- `StartRun` starts a run of the workflow with the input and the metadata, and `Workflows` is
  -- answered with the names of the registry.
  pub client-Reaches : (id reason : String) (s : S) → is_id id ≡ true → Reaches id reason s
  client-Reaches id reason s h = record {
    viewed = viewed_lem id s h;
    told = told_lem id s h;
    stopped = stopped_lem id reason s h;
    replayed = replayed_lem id s h;
    begun = begun_lem s;
    listed = listed_lem s;
  }
