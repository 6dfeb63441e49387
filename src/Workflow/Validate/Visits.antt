-- ===== src/Workflow/Validate/Visits.antt =====
-- The search of `validateSteps` in pkg/workflow/workflow.go, against the walks along dependencies.
use go_project.Prelude.{
  ℕ, zero, suc, ◌≤◌, ◌<◌, String, true, false, ◌≡◌, refl, List, [], ◌∷◌, ◌==◌, nat_eq, Assoc,
  lookup, insert, contains, length, subst, eq_iff, eq_refl, arith, Error, Result, ok, cycle_at,
  Bool-cases, inl, inr, Settles, Settles-bind, Settles-map,
}
use mathlib.Core.WellFounded.{Acc}
use go_project.Workflow.Types.{Step, step_of}
use go_project.Workflow.Validate.{Colors, color_of, visit, visit_all}
use go_project.Workflow.Validate.Colors.{
  color_of-insert, unvisited, unvisited-insert, unvisited-insert_new, keys, key_or_free,
  length-unvisited,
}

-- The step `id` depends on the step `dep`.
abbrev pub Dependency : Assoc Step → String → String → Type 0
Dependency steps dep id = contains (step_of steps id).dependencies dep ≡ true

-- The walks from a step along its dependencies.
pub data Walk (steps : Assoc Step) (from : String) : String → Type 0 where
  edge : {to : String} → Dependency steps to from → Walk steps from to
  longer : {mid to : String} → Walk steps from mid → Dependency steps to mid → Walk steps from to

pub data Lies (steps : Assoc Step) : Error → Type 0 where
  on_cycle : {id : String} → Walk steps id id → Lies steps (cycle_at id)

module _ (steps : Assoc Step) where
  abbrev remaining : Colors → ℕ
  remaining = unvisited (keys steps)

  -- The steps that are done reach no cycle.
  record IsSound (c : Colors) : Type 0 where
    done : (x : String) → color_of c x ≡ 2 → Acc (Dependency steps) x

  -- All that are open lie above `id`.
  abbrev Above : Colors → String → Type 0
  Above c id = (x : String) → color_of c x ≡ 1 → Walk steps x id

  -- What a search that succeeds has done to the colours.
  record After (c c' : Colors) : Type 0 where
    fewer : remaining c' ≤ remaining c
    kept : (x : String) → color_of c x ≡ 2 → color_of c' x ≡ 2
    opened : (x : String) → color_of c' x ≡ 1 → color_of c x ≡ 1
    sound : IsSound c'

  record AfterOne (id : String) (c c' : Colors) : Type 0 where
    after : After c c'
    closed : color_of c' id ≡ 2

  record AfterAll (ids : List String) (c c' : Colors) : Type 0 where
    after : After c c'
    closed : (x : String) → contains ids x ≡ true → color_of c' x ≡ 2

  abbrev Visits : (String → Colors → Result Colors) → ℕ → Type 0
  Visits v fuel =
      (id : String) (c : Colors)
      → remaining c < fuel
      → IsSound c
      → Above c id
      → Settles (AfterOne id c) (Lies steps) (v id c)

  After-trans : {a b c : Colors} → After a b → After b c → After a c
  After-trans f g = record {
    fewer = omega (arith, f.fewer, g.fewer);
    kept = λ x h. g.kept x (f.kept x h);
    opened = λ x h. f.opened x (g.opened x h);
    sound = g.sound;
  }

  After-refl : {c : Colors} → IsSound c → After c c
  After-refl s = record { fewer = omega arith; kept = λ x h. h; opened = λ x h. h; sound = s }

  visit_all-Settles :
      (v : String → Colors → Result Colors) (fuel : ℕ) (ids : List String) (c : Colors)
      → Visits v fuel
      → remaining c < fuel
      → IsSound c
      → ((d : String) → contains ids d ≡ true → Above c d)
      → Settles (AfterAll ids c) (Lies steps) (visit_all v ids c)
  unfolding visit_all
  visit_all-Settles v fuel [] c each left sound above = record {
    after = After-refl sound;
    closed = λ x h. cc;
  }
  visit_all-Settles v fuel (id ∷ ids) c each left sound above =
      Settles-bind (AfterOne id c) (AfterAll (id ∷ ids) c) (Lies steps) (v id c) (visit_all v ids)
        (each id c left sound (above id (ground (arith, eq_refl id))))
        λ c1 one.
          Settles-map (AfterAll ids c1) (AfterAll (id ∷ ids) c) (Lies steps) (visit_all v ids c1)
            (visit_all-Settles v fuel ids c1 each (omega (arith, one.after.fewer)) one.after.sound
              (λ d m x open_. above d (ground arith) x (one.after.opened x open_)))
            λ c2 all. record {
              after = After-trans one.after all.after;
              closed = λ x m. elim (Bool-cases (id == x)) [
                | inl same ↦
                    subst (λ y. color_of c2 y ≡ 2) ((eq_iff id x).0 same)
                      (all.after.kept id one.closed)
                | inr other ↦ all.closed x (ground arith)
              ];
            }

  -- The colours while the dependencies of `id` are visited.
  open-IsSound :
      (id : String) (c : Colors) → IsSound c → (color_of c id ≡ 2 → ⊥) → IsSound (insert id 1 c)
  open-IsSound id c s new = record {
    done = λ x h. elim (Bool-cases (id == x)) [
      | inl same ↦ absurd (ground (arith, color_of-insert id x 1 c))
      | inr other ↦ s.done x (ground (arith, color_of-insert id x 1 c))
    ];
  }

  open-Above :
      (id d : String) (c : Colors) → Above c id → Dependency steps d id → Above (insert id 1 c) d
  open-Above id d c above dep x h = elim (Bool-cases (id == x)) [
    | inl same ↦ subst (λ y. Walk steps y d) ((eq_iff id x).0 same) (edge dep)
    | inr other ↦ longer (above x (ground (arith, color_of-insert id x 1 c))) dep
  ]

  close-After :
      (id : String) (c c1 : Colors)
      → (color_of c id ≡ 2 → ⊥)
      → AfterAll (step_of steps id).dependencies (insert id 1 c) c1
      → AfterOne id c (insert id 2 c1)
  close-After id c c1 new all = record {
    after = record {
      fewer = omega (
        arith,
        unvisited-insert (keys steps) id 2 c1 refl,
        all.after.fewer,
        unvisited-insert (keys steps) id 1 c refl,
      );
      kept = λ x h. ground (
        arith,
        color_of-insert id x 2 c1,
        all.after.kept x,
        color_of-insert id x 1 c,
        eq_iff id x,
      );
      opened = λ x h.
          ground (arith, color_of-insert id x 2 c1, all.after.opened x, color_of-insert id x 1 c);
      sound = record {
        done = λ x h. elim (Bool-cases (id == x)) [
          | inl same ↦
              subst (Acc (Dependency steps)) ((eq_iff id x).0 same)
                (Acc.intro id (λ d dep. all.after.sound.done d (all.closed d dep)))
          | inr other ↦ all.after.sound.done x (ground (arith, color_of-insert id x 2 c1))
        ];
      };
    };
    closed = ground (arith, color_of-insert id id 2 c1, eq_refl id);
  }

  visit_all-none :
      (v : String → Colors → Result Colors) (ids : List String) (c : Colors)
      → ids ≡ []
      → IsSound c
      → Settles (AfterAll ids c) (Lies steps) (visit_all v ids c)
  unfolding visit_all
  visit_all-none v [] c e s = record { after = After-refl s; closed = λ x h. cc }
  visit_all-none v (id ∷ ids) c e s = cc

  -- The visits of the dependencies of a step that is visited for the first time.
  visit_dependencies-Settles :
      (v : String → Colors → Result Colors) (fuel : ℕ) (id : String) (c : Colors)
      → Visits v fuel
      → remaining c < suc fuel
      → IsSound c
      → Above c id
      → nat_eq (color_of c id) 1 ≡ false
      → nat_eq (color_of c id) 2 ≡ false
      → Settles
          (AfterAll (step_of steps id).dependencies (insert id 1 c))
          (Lies steps)
          (visit_all v (step_of steps id).dependencies (insert id 1 c))
  visit_dependencies-Settles v fuel id c each left sound above idle new =
      elim (key_or_free steps id) [
        | inl key ↦
            visit_all-Settles v fuel (step_of steps id).dependencies (insert id 1 c) each
              (omega
                (arith, unvisited-insert_new (keys steps) id 1 c refl (rw (idle, new) refl) key))
              sound' (λ d dep. open-Above id d c above dep)
        | inr free ↦ visit_all-none v (step_of steps id).dependencies (insert id 1 c) free sound'
      ]
    where
      sound' : IsSound (insert id 1 c)
      sound' = open-IsSound id c sound (ground arith)

  visit-settles : (fuel : ℕ) → Visits (visit steps fuel) fuel
  unfolding visit
  visit-settles zero id c left sound above = absurd (omega arith)
  visit-settles (suc fuel) id c left sound above = elim (Bool-cases (nat_eq (color_of c id) 1)) [
    | inl busy ↦ rw busy (on_cycle (above id (ground arith)))
    | inr idle ↦ elim (Bool-cases (nat_eq (color_of c id) 2)) [
      | inl over ↦ rw (idle, over) (record { after = After-refl sound; closed = ground arith })
      | inr new ↦
          rw (idle, new)
            (let deps = (step_of steps id).dependencies in
              Settles-bind (AfterAll deps (insert id 1 c)) (AfterOne id c) (Lies steps)
                (visit_all (visit steps fuel) deps (insert id 1 c)) (λ done. ok (insert id 2 done))
                (visit_dependencies-Settles (visit steps fuel) fuel id c (visit-settles fuel) left
                  sound above idle new)
                (λ c1 all. close-After id c c1 (ground arith) all))
    ]
  ]

  -- The search from the uncoloured map either ends with all of the steps done, or on a cycle.
  pub record IsCleared (order : List String) (c : Colors) : Type 0 where
    pub founded : (x : String) → contains order x ≡ true → Acc (Dependency steps) x

  pub search-Settles :
      (order : List String)
      → Settles
          (IsCleared order)
          (Lies steps)
          (visit_all (visit steps (suc (length steps))) order [])
  unfolding lookup
  search-Settles order =
      Settles-map (AfterAll order []) (IsCleared order) (Lies steps)
        (visit_all (visit steps (suc (length steps))) order [])
        (visit_all-Settles (visit steps (suc (length steps))) (suc (length steps)) order []
          (visit-settles (suc (length steps))) (omega (arith, length-unvisited steps []))
          (record { done = λ x h. absurd (omega arith) }) (λ d m x h. absurd (omega arith)))
        λ c all. record { founded = λ x m. all.after.sound.done x (all.closed x m) }
