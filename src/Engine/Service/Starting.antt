-- ===== src/Engine/Service/Starting.antt =====
-- What `StartRun` of internal/engine/service.go hands to the repository.
use go_project.Prelude.{
  ℕ, String, ◌≡◌, refl, [], ◌∷◌, ℤ, length, Assoc, Ensures, Ensures-ok, Ensures-bind,
  Ensures-bind-eq,
}
use go_project.History.Json.{Raw}
use go_project.Workflow.Types.{Definition}
use go_project.Engine.Reducer.{replay}
use go_project.Engine.Tasks.{make_event}
use go_project.Engine.Progress.{schedule_forward_ready}
use go_project.Engine.Progress.Replays.{
  AllOf, Consecutive, make_event-sequence, schedule_forward_ready-Extends,
}
use go_project.Engine.Service.{NewRun, start_run}

-- The events of a new run are its own and numbered from 1, and their count is its version.
pub record IsFresh (new : NewRun) : Type 0 where
  pub owned : AllOf new.run.id new.events
  pub numbered : Consecutive 1 new.events
  pub version : new.run.version ≡ length new.events

pub start_run-IsFresh :
    (uuid : ℕ → String) (d : Definition) (run_id : String) (input : Raw) (metadata : Assoc String)
    (now : ℤ)
    → Ensures IsFresh (start_run uuid d run_id input metadata now)
unfolding start_run
start_run-IsFresh uuid d run_id input metadata now =
    Ensures-bind (make_event run_id 1 "" "" _ now) (make_event-sequence run_id 1 "" "" _ now refl)
      λ first _ (q, own). Ensures-bind-eq (replay d _ (first ∷ [])) λ s _.
        Ensures-bind
          (schedule_forward_ready uuid _ d now (record { state = s; seq = 2; events = first ∷ [] }))
          (schedule_forward_ready-Extends {R = λ es t. Unit} uuid _ d now
            (record { state = s; seq = 2; events = first ∷ [] }) refl
            (record {
              closed = λ es e t u h k. tt;
              reached = tt;
              numbered = (q, tt);
              owned = (own, tt);
              counted = refl;
            }))
          λ ready _ x.
            Ensures-ok (record { owned = x.owned; numbered = x.numbered; version = refl })
