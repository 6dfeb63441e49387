-- ===== src/Engine/Runtime/Retry.antt =====
-- `withOptimisticRetry` of internal/engine/service.go. `call n` is what the operation returns on
-- attempt `n`, and `done n` says whether the context ends in the wait behind it. The source finds a
-- conflict by the words "run version conflict" in the error's text: that some other error holds them,
-- by the id of a step or a task, is not considered.
use go_project.Prelude.{
  ℕ, zero, suc, ◌+◌, ◌<◌, ◌≤◌, Bool, true, false, ◌≡◌, ◌∙◌, Result, ok, err, version_conflict,
  context_done, arith, nat_eq, Bool-cases, inl, inr,
}

unfoldable pub is_version_conflict {ℓ} : {A : Type ℓ} → Result A → Bool
is_version_conflict (err (version_conflict run_id)) = true
is_version_conflict _ = false

-- The loop with `rounds` attempts left, of which the next is `n`; `last` is `err` before it.
unfoldable pub retry_loop {ℓ} :
    {A : Type ℓ} → ℕ → ℕ → (ℕ → Result A) → (ℕ → Bool) → Result A → Result A
retry_loop zero n call done last = last
retry_loop (suc rounds) n call done last = elim (is_version_conflict (call n)) [
  | false ↦ call n
  | true ↦ elim (done n) [
    | true ↦ err context_done
    | false ↦ retry_loop rounds (suc n) call done (call n)
  ]
]

-- `nothing` is what a nil error stands for before the first attempt.
unfoldable pub with_optimistic_retry {ℓ} : {A : Type ℓ} → A → (ℕ → Result A) → (ℕ → Bool) → Result A
unfolding retry_loop
with_optimistic_retry nothing call done = retry_loop 5 0 call done (ok nothing)

module _ {ℓ} {A : Type ℓ} (call : ℕ → Result A) (done : ℕ → Bool) where
  settled_first :
      (rounds n : ℕ) (last : Result A)
      → is_version_conflict (call n) ≡ false
      → retry_loop (suc rounds) n call done last ≡ call n
  unfolding retry_loop
  settled_first rounds n last h = ground arith

  again_first :
      (rounds n : ℕ) (last : Result A)
      → is_version_conflict (call n) ≡ true
      → done n ≡ false
      → retry_loop (suc rounds) n call done last ≡ retry_loop rounds (suc n) call done (call n)
  unfolding retry_loop
  again_first rounds n last h k = ground arith

  retry_loop-first :
      (k m rounds n : ℕ) (last : Result A)
      → m ≡ n + k
      → k < rounds
      → ((i : ℕ) → n ≤ i → i < m → is_version_conflict (call i) ≡ true)
      → ((i : ℕ) → n ≤ i → i < m → done i ≡ false)
      → is_version_conflict (call m) ≡ false
      → retry_loop rounds n call done last ≡ call m
  unfolding retry_loop
  retry_loop-first zero m (suc rounds) n last e l conflicts waits settled =
      let here : n ≡ m = omega (arith, e) in rw here (settled_first rounds m last settled)
  retry_loop-first zero m zero n last e l conflicts waits settled = elim l [ ]
  retry_loop-first (suc k) m zero n last e l conflicts waits settled = elim l [ ]
  retry_loop-first (suc k) m (suc rounds) n last e l conflicts waits settled =
      again_first rounds n last (conflicts n (omega arith) (omega arith))
        (waits n (omega arith) (omega arith))
      ∙ (retry_loop-first k m rounds (suc n) (call n) (omega arith) (omega arith)
          (λ i a b. conflicts i (omega arith) b) (λ i a b. waits i (omega arith) b) settled)

  retry_loop-conflict :
      (rounds n : ℕ) (last : Result A)
      → is_version_conflict (retry_loop rounds n call done last) ≡ true
      → (i : ℕ) → n ≤ i
      → i < n + rounds
      → is_version_conflict (call i) ≡ true
  unfolding retry_loop is_version_conflict
  retry_loop-conflict zero n last h i a b = ground arith
  retry_loop-conflict (suc rounds) n last h i a b = elim (Bool-cases (nat_eq i n)) [
    | inl here ↦ at_first (ground arith) h
    | inr later ↦
        retry_loop-conflict rounds (suc n) (call n) (later_conflict h) i (ground arith)
          (omega arith)
  ]
    where
      later_conflict :
          is_version_conflict (retry_loop (suc rounds) n call done last) ≡ true
          → is_version_conflict (retry_loop rounds (suc n) call done (call n)) ≡ true
      later_conflict h = ground arith

      at_first :
          i ≡ n
          → is_version_conflict (retry_loop (suc rounds) n call done last) ≡ true
          → is_version_conflict (call i) ≡ true
      at_first e h = rw e (ground arith)

  -- If the first attempts conflict, an attempt among the first five does not, and the context does not
  -- end in the waits before it, then its result is the result.
  pub with_optimistic_retry-first :
      (nothing : A) (m : ℕ)
      → m < 5
      → ((i : ℕ) → i < m → is_version_conflict (call i) ≡ true)
      → ((i : ℕ) → i < m → done i ≡ false)
      → is_version_conflict (call m) ≡ false
      → with_optimistic_retry nothing call done ≡ call m
  unfolding with_optimistic_retry
  with_optimistic_retry-first nothing m l conflicts waits settled =
      retry_loop-first m m 5 0 (ok nothing) (omega arith) l (λ i a b. conflicts i b)
        (λ i a b. waits i b) settled

  -- A version conflict comes out only if all five attempts ended in one.
  pub with_optimistic_retry-conflict :
      (nothing : A)
      → is_version_conflict (with_optimistic_retry nothing call done) ≡ true
      → (i : ℕ) → i < 5
      → is_version_conflict (call i) ≡ true
  unfolding with_optimistic_retry
  with_optimistic_retry-conflict nothing h i l =
      retry_loop-conflict 5 0 (ok nothing) h i (omega arith) l
