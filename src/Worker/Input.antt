-- ===== src/Worker/Input.antt =====
-- `ActivityInput` of pkg/workflow/workflow.go: the worker decodes what `buildTaskInput` of
-- internal/engine/service.go has encoded.
use go_project.Prelude.{
  String, Bool, ◌≡◌, refl, [], ◌∷◌, ℤ, pos, Result, ok, err, decode_payload, ◌>>=◌, Assoc, arith,
  >>=-eq-ok, ok-injective, ap, sym, ◌∙◌,
}
use go_project.History.Json.{
  Json, obj, Members, end, member, text, number, flag, Raw, absent, value, field?, as_text,
  as_number, as_flag, as_raw, as_raws, as_texts, marshal_raw, marshal_raws, raw_members,
  texts_if_set, raws_if_set, raws_member,
}
use go_project.History.Codec.RoundTrip.{
  settled, settled_all, text_members-marshal_texts, raw_members-marshal_raws,
}
use go_project.Workflow.Types.{Step}
use go_project.Engine.Types.{RunRecord, RunState}
use go_project.Engine.Tasks.{normalize_json, task_dependencies, build_task_input}

pub record ActivityInput : Type 0 where
  pub run_id : String
  pub workflow : String
  pub step_id : String
  pub attempt : ℤ
  pub compensation : Bool
  pub run_input : Raw
  pub dependencies : Assoc Raw
  pub metadata : Assoc String

abbrev pub zero_input : ActivityInput
zero_input = record {
  run_id = "";
  workflow = "";
  step_id = "";
  attempt = pos 0;
  compensation = Bool.false;
  run_input = absent;
  dependencies = [];
  metadata = [];
}

input_members : Members → Result ActivityInput
input_members m = do
  run_id ← as_text (field? "run_id" m)
  workflow ← as_text (field? "workflow" m)
  step_id ← as_text (field? "step_id" m)
  attempt ← as_number (field? "attempt" m)
  compensation ← as_flag (field? "compensation" m)
  dependencies ← as_raws (field? "dependencies" m)
  metadata ← as_texts (field? "metadata" m)
  ok (record {
    run_id = run_id;
    workflow = workflow;
    step_id = step_id;
    attempt = attempt;
    compensation = compensation;
    run_input = as_raw (field? "run_input" m);
    dependencies = dependencies;
    metadata = metadata;
  })

-- `json.Unmarshal(task.Input, &input)`.
unfoldable pub decode_input : Raw → Result ActivityInput
unfolding input_members
decode_input (value Json.null) = ok zero_input
decode_input (value (obj m)) = input_members m
decode_input r = err decode_payload

-- What a task of the step is meant to get.
unfoldable pub activity_input : RunRecord → RunState → Step → Bool → ℤ → ActivityInput
unfolding settled settled_all
activity_input run s step compensation attempt = record {
  run_id = run.id;
  workflow = run.workflow_name;
  step_id = step.id;
  attempt = attempt;
  compensation = compensation;
  run_input = normalize_json run.input;
  dependencies = settled_all (task_dependencies s step compensation);
  metadata = step.metadata;
}

module _ (run : RunRecord) (step : Step) (compensation : Bool) (attempt : ℤ) where
  abbrev encoded : Json → Members → Json
  encoded input rest = obj (
      member "run_id" (text run.id) (
        member "workflow" (text run.workflow_name) (
          member "step_id" (text step.id) (
            member "attempt" (number attempt)
              (member "compensation" (flag compensation) (member "run_input" input rest))))))

  encoded_back :
      (input : Json) (ds : Members) (ms : Assoc String)
      → decode_input
          (value (encoded input (raws_member "dependencies" ds (texts_if_set "metadata" ms end))))
        ≡ ok (record {
          run_id = run.id;
          workflow = run.workflow_name;
          step_id = step.id;
          attempt = attempt;
          compensation = compensation;
          run_input = value input;
          dependencies = raw_members ds;
          metadata = ms;
        })
  unfolding decode_input field? as_text as_number as_flag as_raw as_raws as_texts raws_member
      texts_if_set raw_members
  encoded_back input end [] = refl
  encoded_back input end (p ∷ ms) = ground (arith, text_members-marshal_texts (p ∷ ms))
  encoded_back input (member k v ds) [] = refl
  encoded_back input (member k v ds) (p ∷ ms) = ground (arith, text_members-marshal_texts (p ∷ ms))

normalize-marshal :
    (r : Raw) (v : Json) → marshal_raw (normalize_json r) ≡ ok v → value v ≡ normalize_json r
unfolding marshal_raw normalize_json
normalize-marshal r v h = ground arith

-- The input that `buildTaskInput` encodes is decoded by the worker as the run's id, workflow and input,
-- the step's id and metadata, the attempt, the kind of task and the outputs of the dependencies, with
-- `null` for a nil output.
pub decode_input-build_task_input :
    (run : RunRecord) (s : RunState) (step : Step) (compensation : Bool) (attempt : ℤ)
    {built : Raw × Assoc Raw}
    → build_task_input run s step compensation attempt ≡ ok built
    → decode_input built.0 ≡ ok (activity_input run s step compensation attempt)
unfolding build_task_input raws_if_set activity_input
decode_input-build_task_input run s step compensation attempt {built} h =
    let deps = task_dependencies s step compensation in
    let tail = texts_if_set "metadata" step.metadata end in
    let (input, hi, h₁) = >>=-eq-ok (marshal_raw (normalize_json run.input)) _ h in
    let (rest, hr, h₂) = >>=-eq-ok (raws_if_set "dependencies" deps tail) _ h₁ in
    let (ds, hd, h₃) = >>=-eq-ok (marshal_raws deps) _ hr in
    ap (λ (b : Raw × Assoc Raw). decode_input b.0) (sym (ok-injective h₂))
    ∙ ap (λ (m : Members). decode_input (value (encoded run step compensation attempt input m)))
        (sym (ok-injective h₃))
    ∙ encoded_back run step compensation attempt input ds step.metadata
    ∙ rw (normalize-marshal run.input input hi, raw_members-marshal_raws deps ds hd) refl
