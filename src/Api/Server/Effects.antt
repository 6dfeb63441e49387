-- ===== src/Api/Server/Effects.antt =====
-- What the handlers of internal/api/server.go do to the tables.
use go_project.Prelude.{
  String, Bool, true, false, ◌&&◌, ◌≡◌, refl, sym, List, [], ◌∷◌, ◌==◌, if◌then◌else◌, eq_iff,
  arith, Result, ok, err, inl, inr, ◌⊎◌, subst, Result-cases, Assoc,
}
use go_project.History.Json.{Raw}
use go_project.Engine.Types.{RunRecord}
use go_project.Api.Paths.{trim_prefix, trim, split, is_path, is_below}
use go_project.Api.Server.{
  Service, Content, reply, one_run, note, Request, Response, StartRequest, start_request,
  cancel_reason, created, start, handle_runs, cancelled, cancel, run_action, action_of, by_parts,
  handle_run_by_id, handle,
}

module _ {S : Type 0} (service : Service S) where
  -- `StartRun` succeeded, and its run was answered with 201.
  pub record Starts (s s' : S) (response : Response) : Type 0 where
    pub name : String
    pub input : Raw
    pub metadata : Assoc String
    pub run : RunRecord
    pub done : service.start_run name input metadata s ≡ ok (s', run)
    pub answered : response ≡ reply 201 (one_run run)

  -- `CancelRun` succeeded, and was answered with 202.
  pub record Cancels (s s' : S) (response : Response) : Type 0 where
    pub id : String
    pub reason : String
    pub done : service.cancel_run id reason s ≡ ok s'
    pub answered : response ≡ reply 202 (note "cancellation requested")

  -- The tables are as before, or the request was a `POST` that one of the two operations has served.
  abbrev pub Careful : String → S → S × Response → Type 0
  Careful method s (s', response) =
      (s' ≡ s) ⊎ ((method ≡ "POST") × (Starts s s' response ⊎ Cancels s s' response))

  start-Careful : (q : Result StartRequest) (s : S) → Careful "POST" s (start service q s)
  unfolding start created
  start-Careful (err e) s = inl refl
  start-Careful (ok q) s = elim (Result-cases (service.start_run q.workflow q.input q.metadata s)) [
    | inl ((s', run), e) ↦
        rw (e, created)
          (inr (
            refl,
            inl (record {
              name = q.workflow;
              input = q.input;
              metadata = q.metadata;
              run = run;
              done = e;
              answered = refl;
            }),
          ))
    | inr (x, e) ↦ rw (e, created) (inl refl)
  ]

  cancel-Careful :
      (id : String) (r : Result String) (s : S) → Careful "POST" s (cancel service id r s)
  unfolding cancel cancelled
  cancel-Careful id (err e) s = inl refl
  cancel-Careful id (ok reason) s = elim (Result-cases (service.cancel_run id reason s)) [
    | inl (s', e) ↦
        rw (e, cancelled)
          (inr (refl, inr (record { id = id; reason = reason; done = e; answered = refl })))
    | inr (x, e) ↦ rw (e, cancelled) (inl refl)
  ]

  if-Careful :
      (method : String) (s : S) (b : Bool) (x y : S × Response)
      → (b ≡ true → Careful method s x)
      → (b ≡ false → Careful method s y)
      → Careful method s (if b then x else y)
  if-Careful method s true x y p q = p refl
  if-Careful method s false x y p q = q refl

  post_part :
      (method : String) (s : S) (r : S × Response)
      → method ≡ "POST"
      → Careful "POST" s r
      → Careful method s r
  post_part method s r e c = subst (λ m. Careful m s r) (sym e) c

  handle_runs-Careful : (r : Request) (s : S) → Careful r.method s (handle_runs service r s)
  unfolding handle_runs
  handle_runs-Careful r s =
      if-Careful r.method s (r.method == "GET") _ _ (λ _. inl refl)
        λ _.
          if-Careful r.method s (r.method == "POST") _ _
            (λ post.
              post_part r.method s (start service (start_request r.content) s)
                ((eq_iff r.method "POST").0 post) (start-Careful (start_request r.content) s))
            (λ _. inl refl)

  run_action-Careful :
      (method id action : String) (content : Content) (s : S)
      → Careful method s (run_action service method id action content s)
  unfolding run_action
  run_action-Careful method id action content s =
      if-Careful method s (method == "GET" && action == "") _ _ (λ _. inl refl)
        λ _.
          if-Careful method s (method == "GET" && action == "history") _ _ (λ _. inl refl)
            λ _.
              if-Careful method s (method == "POST" && action == "cancel") _ _
                (λ post.
                  post_part method s (cancel service id (cancel_reason content) s)
                    ((eq_iff method "POST").0 (ground arith))
                    (cancel-Careful id (cancel_reason content) s))
                λ _.
                  if-Careful method s (method == "POST" && action == "replay") _ _ (λ _. inl refl)
                    (λ _. inl refl)

  by_parts-Careful :
      (method : String) (parts : List String) (content : Content) (s : S)
      → Careful method s (by_parts service method parts content s)
  unfolding by_parts
  by_parts-Careful method [] content s = inl refl
  by_parts-Careful method (id ∷ parts) content s =
      if-Careful method s (id == "") _ _ (λ _. inl refl)
        (λ _. run_action-Careful method id (action_of service parts) content s)

  -- A request leaves the tables as they were, unless it is a `POST` for which `StartRun` has made a run,
  -- which is the answer, with 201, or `CancelRun` has cancelled one, which is answered with 202.
  pub handle-Careful : (r : Request) (s : S) → Careful r.method s (handle service r s)
  unfolding handle handle_run_by_id
  handle-Careful r s =
      if-Careful r.method s (is_path "/healthz" r.path) _ _ (λ _. inl refl)
        λ _.
          if-Careful r.method s (is_path "/v1/workflows" r.path) _ _ (λ _. inl refl)
            λ _.
              if-Careful r.method s (is_path "/v1/runs" r.path) _ _ (λ _. handle_runs-Careful r s)
                λ _.
                  if-Careful r.method s (is_below "/v1/runs/" r.path) _ _
                    (λ _.
                      by_parts-Careful r.method (split (trim (trim_prefix "/v1/runs/" r.path)))
                        r.content s)
                    (λ _. inl refl)
