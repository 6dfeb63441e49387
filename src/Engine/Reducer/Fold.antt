-- ===== src/Engine/Reducer/Fold.antt =====
-- The loop of `Replay` over a history that is read in two parts.
use go_project.Prelude.{◌≡◌, refl, inl, inr, List, [], ◌∷◌, ◌++◌, ok, ◌>>=◌, Result-cases}
use go_project.History.Events.{Event}
use go_project.Engine.Types.{RunState}
use go_project.Engine.Reducer.{apply_event, apply_events}

pub apply_events-append :
    (s : RunState) (es fs : List Event)
    → apply_events s (es ++ fs) ≡ (apply_events s es >>= λ s'. apply_events s' fs)
unfolding apply_events
apply_events-append s [] fs = refl
apply_events-append s (e ∷ es) fs = elim (Result-cases (apply_event s e)) [
  | inl (s', h) ↦ rw h (apply_events-append s' es fs)
  | inr (x, h) ↦ rw h
]

-- One more event after a history that was read.
pub apply_events-snoc :
    (s : RunState) (es : List Event) {t u : RunState} (e : Event)
    → apply_events s es ≡ ok t
    → apply_event t e ≡ ok u
    → apply_events s (es ++ e ∷ []) ≡ ok u
unfolding apply_events
apply_events-snoc s es e h k = rw (apply_events-append, h, k)
