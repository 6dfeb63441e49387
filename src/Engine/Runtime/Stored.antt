-- ===== src/Engine/Runtime/Stored.antt =====
-- The stored history of a run against its stored summary, after an operation of
-- internal/engine/service.go has written both: what `ReplayRun` compares.
use go_project.Prelude.{
  ℕ, String, Bool, false, ◌≡◌, refl, sym, ap, ◌∙◌, subst, List, [], ◌∷◌, ◌++◌, Option, none, some,
  ok, ℤ, ◌>>=◌, >>=-eq-ok, ok-injective, ◌⊎◌, inl, inr, arith, lookup,
}
use go_project.History.Json.{Raw, absent, value, malformed}
use go_project.History.Payloads.{EventType, Payload}
use go_project.History.Codec.{decode}
use go_project.History.Events.{Event}
use go_project.Workflow.Types.{Definition}
use go_project.Workflow.Registry.{Registry}
use go_project.Engine.Types.{RunRecord, RunState}
use go_project.Engine.Reducer.{
  apply_event, apply_events, apply_payload, stamp, mark_satisfied, replay, initial_state,
}
use go_project.Engine.Effects.{apply_heartbeat}
use go_project.Engine.Reducer.Fold.{apply_events-append}
use go_project.Engine.Reducer.Resume.{SameSummary, SameSummary-sym, SameSummary-trans, replay_again}
use go_project.Engine.Tasks.{normalize_json}
use go_project.Engine.Progress.Replays.{AllOf}
use go_project.Engine.Service.{complete_task, fail_task, cancel_run, fire_timer}
use go_project.Engine.Loaded.{LoadedRun, Changes}
use go_project.Engine.Service.Commits.{
  Commits, Commits-ReplaysTo, CommitsAny, complete_task-Commits, cancel_run-Commits,
  fire_timer-Commits,
}
use go_project.Engine.Service.Failures.{fail_task-Commits}
use go_project.Engine.Runtime.Numbering.{commit-Ensures, commit_any-Ensures}
use go_project.Engine.Runtime.{
  load_run, load_task_run, commit, commit_any, complete_task_once, fail_task_once, cancel_run_once,
  fire_timer_once,
}
use go_project.Engine.Runtime.Loading.{
  IsLoaded, loaded_id, load_run-IsLoaded, load_task_run-IsLoaded,
}
use go_project.Store.Sqlite.{get_history}
use go_project.Store.Tables.{Db, event_row}
use go_project.Store.Sqlite.Sequence.{IsNumbered}
use go_project.Store.Sqlite.Frames.{event_rows}
use go_project.Store.Sqlite.Reading.{append_run_changes-Written, get_history-Written}

decode-normalize_json : (t : EventType) (r : Raw) → decode t (normalize_json r) ≡ decode t r
unfolding decode normalize_json
decode-normalize_json t absent = refl
decode-normalize_json t (value v) = refl
decode-normalize_json t (malformed s) = refl

apply_payload-event_row :
    (e : Event) (p : Payload) (s : RunState) → apply_payload (event_row e) p s ≡ apply_payload e p s
unfolding apply_payload event_row apply_heartbeat
apply_payload-event_row e p s = ground arith

-- A stored event takes a state where the event itself takes it.
apply_event-event_row : (s : RunState) (e : Event) → apply_event s (event_row e) ≡ apply_event s e
unfolding apply_event event_row
apply_event-event_row s e =
    rw decode-normalize_json
      (λ i. decode e.type e.payload >>= λ p. apply_payload-event_row e p (stamp e s) i)

apply_events-event_rows :
    (s : RunState) (es : List Event) → apply_events s (event_rows es) ≡ apply_events s es
unfolding apply_events
apply_events-event_rows s [] = refl
apply_events-event_rows s (e ∷ es) =
    rw apply_event-event_row (λ i. apply_event s e >>= λ t. apply_events-event_rows t es i)

replay-event_rows :
    (d : Definition) (run : RunRecord) (es fs : List Event)
    → replay d run (es ++ event_rows fs) ≡ replay d run (es ++ fs)
unfolding replay
replay-event_rows d run es fs =
    ap (λ m. m >>= λ s. ok (mark_satisfied s))
      (apply_events-append (initial_state d run) es (event_rows fs)
        ∙ (λ i. apply_events (initial_state d run) es >>= λ t. apply_events-event_rows t fs i)
        ∙ sym (apply_events-append (initial_state d run) es fs))

-- The stored history of the run `id` replays from its stored row to the summary in that row.
pub record IsReplayable (d : Definition) (id : String) (db : Db) : Type 0 where
  pub row : RunRecord
  pub found : lookup id db.runs ≡ some row
  pub state : RunState
  pub replayed : replay d row (get_history id db) ≡ ok state
  pub same : SameSummary state.run row

commit-IsReplayable :
    (l : LoadedRun) (c : Changes) (db : Db) {db' : Db}
    → IsNumbered db
    → IsNumbered db'
    → IsLoaded db l
    → Commits l c
    → commit db c ≡ ok db'
    → IsReplayable l.definition l.run.id db'
unfolding commit
commit-IsReplayable l c db {db'} h h' x k e =
    let own = k.numbers.id ∙ loaded_id l x in
    let w =
      (append_run_changes-Written c.run c.expected_version c.events c.mutations db).holds db' e in
    let (t, ht, same) = Commits-ReplaysTo l c x.replayed k in
    let (u, hu, again) =
      replay_again l.definition c.run w.row (l.events ++ c.events) ht
        (SameSummary-trans w.same (SameSummary-sym same)) in
    let history : get_history c.run.id db' ≡ l.events ++ event_rows c.events =
      get_history-Written c.run c.events db db' h h'
        (subst (λ id. AllOf id c.events) (sym own) k.numbers.owned) w
      ∙ ap (λ es. es ++ event_rows c.events) (ap (λ id. get_history id db) own ∙ sym x.history) in
    subst (λ id. IsReplayable l.definition id db') own
      (record {
        row = w.row;
        found = w.found;
        state = u;
        replayed =
            ap (λ es. replay l.definition w.row es) history
            ∙ replay-event_rows l.definition w.row l.events c.events
            ∙ hu;
        same = SameSummary-trans again (SameSummary-trans same (SameSummary-sym w.same));
      })

-- Of changes that need not be there.
commit_any-IsReplayable :
    (l : LoadedRun) (o : Option Changes) (db : Db) {db' : Db}
    → IsNumbered db
    → IsNumbered db'
    → IsLoaded db l
    → CommitsAny l o
    → commit_any db o ≡ ok db'
    → (db' ≡ db) ⊎ IsReplayable l.definition l.run.id db'
unfolding commit_any
commit_any-IsReplayable l none db h h' x k e = inl (sym (ok-injective e))
commit_any-IsReplayable l (some c) db h h' x k e = inr (commit-IsReplayable l c db h h' x k e)

module _ {Handler : Type 0} (registry : Registry Handler) where
  -- After a successful `completeTaskOnce` on numbered tables that nothing else writes to meanwhile, the
  -- stored history of the run replays, from its stored row, to the status, failure, cancel reason and
  -- output in that row.
  pub complete_task_once-IsReplayable :
      (uuid : ℕ → String) (worker_id task_id : String) (output : Raw) (now : ℤ) (db : Db)
      {l : LoadedRun} {db' : Db}
      → IsNumbered db
      → load_task_run registry task_id db ≡ ok l
      → complete_task_once registry uuid worker_id task_id output now db db ≡ ok db'
      → IsReplayable l.definition l.run.id db'
  unfolding complete_task_once
  complete_task_once-IsReplayable uuid worker_id task_id output now db {l} {db'} h loaded e =
      let x = (load_task_run-IsLoaded registry db h task_id).holds l loaded in
      let (c, hc, done) =
        >>=-eq-ok (complete_task uuid l worker_id task_id output now) _ (rw loaded at e) in
      let k = (complete_task-Commits uuid l worker_id task_id output now).holds c hc in
      commit-IsReplayable l c db h ((commit-Ensures l c db x k.numbers h).holds db' done) x k done

  -- After a successful `failTaskOnce` on numbered tables that nothing else writes to meanwhile, the
  -- stored history of the run replays, from its stored row, to the status, failure, cancel reason and
  -- output in that row, if no cancellation of the run was requested.
  pub fail_task_once-IsReplayable :
      (uuid : ℕ → String) (worker_id task_id message : String) (retryable : Bool) (now : ℤ)
      (db : Db) {l : LoadedRun} {db' : Db}
      → IsNumbered db
      → load_task_run registry task_id db ≡ ok l
      → l.state.cancel_requested ≡ false
      → fail_task_once registry uuid worker_id task_id message retryable now db db ≡ ok db'
      → IsReplayable l.definition l.run.id db'
  unfolding fail_task_once
  fail_task_once-IsReplayable uuid worker_id task_id message retryable now db {l} {db'} h loaded q
        e =
      let x = (load_task_run-IsLoaded registry db h task_id).holds l loaded in
      let (c, hc, done) =
        >>=-eq-ok (fail_task uuid l worker_id task_id message retryable now) _ (rw loaded at e) in
      let k = (fail_task-Commits uuid l worker_id task_id message retryable now q).holds c hc in
      commit-IsReplayable l c db h ((commit-Ensures l c db x k.numbers h).holds db' done) x k done

  -- After a successful `cancelRunOnce` on numbered tables that nothing else writes to meanwhile, the
  -- tables are as before, or the stored history of the run replays, from its stored row, to the status,
  -- failure, cancel reason and output in that row.
  pub cancel_run_once-IsReplayable :
      (uuid : ℕ → String) (run_id reason : String) (now : ℤ) (db : Db) {l : LoadedRun} {db' : Db}
      → IsNumbered db
      → load_run registry run_id db ≡ ok l
      → cancel_run_once registry uuid run_id reason now db db ≡ ok db'
      → (db' ≡ db) ⊎ IsReplayable l.definition l.run.id db'
  unfolding cancel_run_once
  cancel_run_once-IsReplayable uuid run_id reason now db {l} {db'} h loaded e =
      let x = (load_run-IsLoaded registry db h run_id).holds l loaded in
      let (o, ho, done) = >>=-eq-ok (cancel_run uuid l reason now) _ (rw loaded at e) in
      let k = (cancel_run-Commits uuid l reason now).holds o ho in
      commit_any-IsReplayable l o db h ((commit_any-Ensures l o db x k h).holds db' done) x k done

  -- After a successful `fireTimerOnce` on numbered tables that nothing else writes to meanwhile, the
  -- tables are as before, or the stored history of the run replays, from its stored row, to the status,
  -- failure, cancel reason and output in that row.
  pub fire_timer_once-IsReplayable :
      (uuid : ℕ → String) (task_id : String) (now : ℤ) (db : Db) {l : LoadedRun} {db' : Db}
      → IsNumbered db
      → load_task_run registry task_id db ≡ ok l
      → fire_timer_once registry uuid task_id now db db ≡ ok db'
      → (db' ≡ db) ⊎ IsReplayable l.definition l.run.id db'
  unfolding fire_timer_once
  fire_timer_once-IsReplayable uuid task_id now db {l} {db'} h loaded e =
      let x = (load_task_run-IsLoaded registry db h task_id).holds l loaded in
      let (o, ho, done) = >>=-eq-ok (fire_timer uuid l task_id now) _ (rw loaded at e) in
      let k = (fire_timer-Commits uuid l task_id now).holds o ho in
      commit_any-IsReplayable l o db h ((commit_any-Ensures l o db x k h).holds db' done) x k done
