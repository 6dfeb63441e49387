-- ===== src/Samples/Requests.antt =====
-- The reports on the order, the request for one, and the requests of the client on a small service.
use go_project.Prelude.{
  String, pos, ok, err, [], ◌∷◌, true, ◌≡◌, refl, sym, subst, List, run_not_found,
}
use go_project.History.Json.{value, text}
use go_project.Engine.Runtime.Histories.{Reachable-IsNumbered}
use go_project.Engine.Runtime.Reports.{ReplayReport, replay_run}
use go_project.Engine.Runtime.Reports.Matching.{Faithful, complete_task_once-replay_run}
use go_project.Api.Server.{Service, report, reply, handle}
use go_project.Api.Server.Effects.{Careful, handle-Careful}
use go_project.Api.Client.{replay_request, cancel_request}
use go_project.Api.Client.Segments.{is_id}
use go_project.Api.Client.Reached.{Reaches, client-Reaches}
use go_project.Api.Backend.{engine_service, replay_request-answered}
use go_project.Samples.Orders.{ids, registry}
use go_project.Samples.Histories.{held, held-Reachable, reserved, order-steps}
use go_project.Samples.Replays.{order, order-runs}

complete_task_once-replay_run_example :
    (report : ReplayReport) × (replay_run registry order.run.id reserved ≡ ok report)
    × Faithful order.run.id reserved report
complete_task_once-replay_run_example =
    complete_task_once-replay_run registry ids "w" "task-2" (value (text "goods")) (pos 3_000)
      held.0 {l = order} (Reachable-IsNumbered registry held-Reachable) order-runs.0 order-steps.2

plain-is_id : is_id "run-1" ≡ true
unfolding is_id
plain-is_id = refl

order-is_id : is_id order.run.id ≡ true
order-is_id = subst (λ id. is_id id ≡ true) (sym order-runs.5) plain-is_id

replay_request-answered_example :
    (found : ReplayReport) × (handle
        (engine_service registry ids "run-9" (pos 4_000))
        (replay_request order.run.id)
        reserved
      ≡ (reserved, reply 200 (report found)))
    × Faithful order.run.id reserved found
replay_request-answered_example =
    replay_request-answered registry ids "w" "task-2" (value (text "goods")) (pos 3_000) (pos 4_000)
      "run-9" held.0 {l = order} (Reachable-IsNumbered registry held-Reachable) order-runs.0
      order-steps.2 order-is_id

-- A service that only keeps the reasons of the cancellations.
abbrev reasons : Service (List String)
reasons = record {
  workflows = "orders" ∷ [];
  list_runs = λ limit s. ok [];
  start_run = λ name input metadata s. err run_not_found;
  get_run = λ id s. err run_not_found;
  get_history = λ id s. ok [];
  cancel_run = λ id reason s. ok (reason ∷ s);
  replay_run = λ id s. err run_not_found;
}

client-Reaches_example : Reaches reasons "run-1" "changed my mind" []
client-Reaches_example = client-Reaches reasons "run-1" "changed my mind" [] plain-is_id

handle-Careful_example :
    Careful reasons
      (cancel_request "run-1" "late").method
      []
      (handle reasons (cancel_request "run-1" "late") [])
handle-Careful_example = handle-Careful reasons (cancel_request "run-1" "late") []
