-- ===== src/Store/Sqlite/Sequence.antt =====
-- The numbering of the histories in the tables of internal/store/sqlite/store.go.
use go_project.Prelude.{
  ℕ, ◌+◌, String, ◌≡◌, refl, sym, ap, ◌∙◌, subst, true, false, none, some, List, [], ◌∷◌, ◌++◌,
  ◌==◌, eq_iff, if◌then◌else◌, inl, inr, Bool-cases, lookup, insert, lookup-insert, length,
  length-append, arith, select, append-nil,
}
use go_project.History.Events.{Event}
use go_project.Engine.Types.{RunRecord}
use go_project.Engine.Progress.Replays.{AllOf, Consecutive}
use go_project.Store.Sqlite.{events_of}
use go_project.Store.Tables.{Db}

-- Every run stands under its own id, its events are numbered from 1 without a gap, and their count
-- is its version; a run that is not there has no events.
pub record IsNumbered (db : Db) : Type 0 where
  pub keys : (id : String) (run : RunRecord) → lookup id db.runs ≡ some run → run.id ≡ id
  pub versions :
      (id : String) (run : RunRecord)
      → lookup id db.runs ≡ some run
      → run.version ≡ length (events_of id db.events)
  pub sequences : (id : String) → Consecutive 1 (events_of id db.events)
  pub orphans : (id : String) → lookup id db.runs ≡ none → events_of id db.events ≡ []

pub events_of-append :
    (id : String) (es fs : List Event)
    → events_of id (es ++ fs) ≡ events_of id es ++ events_of id fs
unfolding events_of select
events_of-append id [] fs = refl
events_of-append id (e ∷ es) fs = elim (Bool-cases (e.run_id == id)) [
  | inl h ↦ rw h (ap (λ r. e ∷ r) (events_of-append id es fs))
  | inr h ↦ rw h (events_of-append id es fs)
]

pub events_of-all : (id : String) (es : List Event) → AllOf id es → events_of id es ≡ es
unfolding events_of select
events_of-all id [] h = refl
events_of-all id (e ∷ es) h =
    rw ((eq_iff e.run_id id).1 h.0) (ap (λ r. e ∷ r) (events_of-all id es h.1))

events_of-none :
    (id j : String) (es : List Event) → AllOf id es → (id == j) ≡ false → events_of j es ≡ []
unfolding events_of select
events_of-none id j [] h k = refl
events_of-none id j (e ∷ es) h k = rw (h.0, k) (events_of-none id j es h.1 k)

pub Consecutive-append :
    (n : ℕ) (es fs : List Event)
    → Consecutive n es
    → Consecutive (length es + n) fs
    → Consecutive n (es ++ fs)
Consecutive-append n [] fs h k = subst (λ m. Consecutive m fs) (omega arith) k
Consecutive-append n (e ∷ es) fs h k =
    (h.0, Consecutive-append (n + 1) es fs h.1 (subst (λ m. Consecutive m fs) (omega arith) k))

-- One run gets events and a version, and the rest stays.
module _ (db db' : Db) (id : String) (run : RunRecord) (es : List Event)
    (runs : db'.runs ≡ insert id run db.runs) (events : db'.events ≡ db.events ++ es)
    (all : AllOf id es) (numbered : Consecutive (length (events_of id db.events) + 1) es)
    (version : run.version ≡ length (events_of id db.events) + length es) (own : run.id ≡ id)
    (h : IsNumbered db) where
  own_events : events_of id db'.events ≡ events_of id db.events ++ es
  own_events = rw (events, events_of-append, events_of-all id es all)

  other_events : (j : String) → (id == j) ≡ false → events_of j db'.events ≡ events_of j db.events
  other_events j k = rw (events, events_of-append, events_of-none id j es all k, append-nil)

  same_runs : (j : String) → lookup j db'.runs ≡ (if id == j then some run else lookup j db.runs)
  same_runs j = rw runs (lookup-insert id j run db.runs)

  own_version :
      (j : String) (r : RunRecord)
      → (id == j) ≡ true
      → lookup j db'.runs ≡ some r
      → (r.version ≡ run.version) × (r.id ≡ run.id)
  own_version j r e found = (ground (arith, same_runs j), ground (arith, same_runs j))

  own_length : run.version ≡ length (events_of id db'.events)
  own_length = rw own_events (version ∙ sym (length-append (events_of id db.events) es))

  own_sequence : Consecutive 1 (events_of id db'.events)
  own_sequence =
      rw own_events (Consecutive-append 1 (events_of id db.events) es (h.sequences id) numbered)

  pub extend-IsNumbered : IsNumbered db'
  extend-IsNumbered = record {
    keys = λ j r found. elim (Bool-cases (id == j)) [
      | inl e ↦ (own_version j r e found).1 ∙ own ∙ (eq_iff id j).0 e
      | inr k ↦ h.keys j r (sym (rw k at (same_runs j)) ∙ found)
    ];
    versions = λ j r found. elim (Bool-cases (id == j)) [
      | inl e ↦
          (own_version j r e found).0
          ∙ subst (λ k. run.version ≡ length (events_of k db'.events)) ((eq_iff id j).0 e)
              own_length
      | inr k ↦ rw (other_events j k) (h.versions j r (sym (rw k at (same_runs j)) ∙ found))
    ];
    sequences = λ j. elim (Bool-cases (id == j)) [
      | inl e ↦ subst (λ k. Consecutive 1 (events_of k db'.events)) ((eq_iff id j).0 e) own_sequence
      | inr k ↦ rw (other_events j k) (h.sequences j)
    ];
    orphans = λ j missing. elim (Bool-cases (id == j)) [
      | inl e ↦ ground (arith, same_runs j)
      | inr k ↦ rw (other_events j k) (h.orphans j (sym (rw k at (same_runs j)) ∙ missing))
    ];
  }
