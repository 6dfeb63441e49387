-- ===== src/History/Codec/RoundTrip.antt =====
-- Reading back what was written: `applyEvent` of internal/engine/reducer.go decodes the payloads
-- that `New` of internal/history/events.go encodes.
use go_project.Prelude.{
  String, ◌≡◌, refl, [], ◌∷◌, arith, eq_iff, inl, inr, ok, Assoc, Result-cases,
}
use go_project.History.Json.{
  Json, flag, Members, end, member, obj, Raw, absent, value, malformed, field?, text_members,
  as_text, as_flag, as_number, as_time, as_raw, as_texts, raw_members, as_raws, marshal_raw,
  marshal_texts, marshal_raws, text_if_set, texts_if_set, raws_member, raws_if_set,
}
use go_project.History.Payloads.{
  Payload, event_type, started, scheduled, completed, failed, finished, TaskScheduledPayload,
  TaskCompletedPayload, task_scheduled, task_completed,
}
use go_project.History.Codec.{marshal, decode, scheduled_members}

-- `null` is what a nil raw message becomes on the way.
unfoldable pub settled : Raw → Raw
settled absent = value Json.null
settled r = r

unfoldable pub settled_all : Assoc Raw → Assoc Raw
unfolding settled
settled_all [] = []
settled_all ((k, r) ∷ m) = (k, settled r) ∷ settled_all m

unfoldable pub settle : Payload → Payload
unfolding settled settled_all
settle (started p) = started (record p { input = settled p.input })
settle (scheduled p) =
    scheduled (record p { input = settled p.input; dependencies = settled_all p.dependencies })
settle (completed p) = completed (record p { output = settled p.output })
settle (finished p) = finished (record p { output = settled p.output })
settle p = p

pub text_members-marshal_texts : (m : Assoc String) → text_members (marshal_texts m) ≡ ok m
unfolding text_members marshal_texts as_text
text_members-marshal_texts [] = refl
text_members-marshal_texts ((k, s) ∷ m) = ground (arith, text_members-marshal_texts m)

pub marshal_raw-settled : (r : Raw) (v : Json) → marshal_raw r ≡ ok v → value v ≡ settled r
unfolding marshal_raw settled
marshal_raw-settled r v h = ground arith

pub raw_members-marshal_raws :
    (rs : Assoc Raw) (m : Members) → marshal_raws rs ≡ ok m → raw_members m ≡ settled_all rs
unfolding raw_members marshal_raws settled_all marshal_raw
raw_members-marshal_raws [] m h = ground arith
raw_members-marshal_raws ((k, r) ∷ rs) end h = ground arith
raw_members-marshal_raws ((k, r) ∷ rs) (member j v m) h =
    ground (arith, raw_members-marshal_raws rs m)

-- What a member of every payload type comes back as.
module _ (p : TaskCompletedPayload) where
  completed_back :
      (output : Raw) (j : Json)
      → marshal (completed (record p { output = output })) ≡ ok j
      → decode task_completed (value j) ≡ ok (completed (record p { output = settled output }))
  unfolding marshal decode settled field? as_text as_flag as_raw marshal_raw text_if_set
  completed_back absent j h = ground (arith, eq_iff p.worker_id "")
  completed_back (value v) j h = ground (arith, eq_iff p.worker_id "")
  completed_back (malformed s) j h = ground arith

module _ (p : TaskScheduledPayload) (input : Json) where
  abbrev written : Raw → Assoc Raw → TaskScheduledPayload
  written i ds = record p { input = i; dependencies = ds }

  scheduled_head :
      (ds : Members)
      → decode task_scheduled (
          value (
            obj (
              scheduled_members p input
                (raws_member "dependencies" ds (member "compensation" (flag p.compensation) end)))))
        ≡ ok (scheduled (record p { input = value input; dependencies = raw_members ds }))
  unfolding decode field? as_text as_flag as_number as_time as_raw as_raws text_if_set raws_member
      scheduled_members raw_members
  scheduled_head end = ground (arith, eq_iff p.activity "")
  scheduled_head (member k v m) = ground (arith, eq_iff p.activity "")

scheduled_back :
    (p : TaskScheduledPayload) {input : Json} {ds : Members} (j : Json)
    → marshal_raw p.input ≡ ok input
    → marshal_raws p.dependencies ≡ ok ds
    → marshal (scheduled p) ≡ ok j
    → decode task_scheduled (value j) ≡ ok (settle (scheduled p))
unfolding marshal raws_if_set settle
scheduled_back p {input} {ds} j hi hd h = ground (
  arith,
  scheduled_head p input ds,
  marshal_raw-settled p.input input hi,
  raw_members-marshal_raws p.dependencies ds hd,
)

scheduled_parts :
    (p : TaskScheduledPayload) (j : Json)
    → marshal (scheduled p) ≡ ok j
    → (input : Json) × (ds : Members) × (marshal_raw p.input ≡ ok input)
      × (marshal_raws p.dependencies ≡ ok ds)
unfolding marshal raws_if_set
scheduled_parts p j h = elim (Result-cases (marshal_raw p.input)) [
  | inl (input, hi) ↦ elim (Result-cases (marshal_raws p.dependencies)) [
    | inl (ds, hd) ↦ (input, ds, hi, hd)
    | inr (e, hd) ↦ ground arith
  ]
  | inr (e, hi) ↦ ground arith
]

-- A payload whose JSON can be written is read back, under its event type, as it was, but for nil raw
-- messages, which come back as `null`.
pub decode-marshal :
    (p : Payload) (j : Json) → marshal p ≡ ok j → decode (event_type p) (value j) ≡ ok (settle p)
unfolding marshal decode event_type settle field? as_text as_flag as_number as_time as_raw as_texts
    as_raws marshal_raw text_if_set texts_if_set raws_if_set
decode-marshal (started p) j h = ground (arith, text_members-marshal_texts p.metadata)
decode-marshal (scheduled p) j h =
    let (input, ds, hi, hd) = scheduled_parts p j h in scheduled_back p j hi hd h
decode-marshal (completed p) j h = completed_back p p.output j h
decode-marshal (failed p) j h = ground (arith, eq_iff p.worker_id "")
decode-marshal p j h = ground arith
