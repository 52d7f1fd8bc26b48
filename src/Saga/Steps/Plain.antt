-- ===== src/Saga/Steps/Plain.antt =====
-- Steps without hooks whose `execute` is an async method, as all sagas of the program have them.
use plus_api.Common.{
  ℕ, zero, suc, ◌≤◌, String, ◌≡◌, refl, ap, ◌∙◌, inl, inr, Option, none, some, arith,
}
use plus_api.Common.Int.{ℤ}
use plus_api.Common.Dict.{lookup, insert}
use plus_api.Common.Result.{Result, ok, err, Error, Async, settle, throw, pure, ◌>>◌, Result-cases}
use plus_api.Saga.Types.{
  SagaEventType, Run, Promise, SagaStep, SagaStepStatus, SagaConfig, of_step, returned, Services,
}
use plus_api.Saga.Events.{Details, of_name}
use plus_api.Saga.Steps.{
  emit, emit_here, has_timeout, race, execute_with_timeout, set_result, result_of, hook,
  keep_result, perform_step, execute_step, perform_compensation,
}
use plus_api.Saga.Steps.Recovery.{Assertion, IsStable, StepRule, ForwardRule}

-- The promise settles within the time limit.
abbrev pub InTime : Option ℕ → ℕ → Type 0
InTime none n = Unit
InTime (some t) n = n ≤ t

race-InTime :
    {V : Type 0} (p : Promise V) (timeout : Option ℕ)
    → InTime timeout p.settles_after
    → race p (has_timeout timeout) ≡ p.outcome
unfolding race
race-InTime p none h = refl
race-InTime p (some zero) h = refl
race-InTime p (some (suc t)) h = ground arith

module _ {T V W : Type 0} where
  -- `{ name, order, execute: async (context) => …, compensate: async (context, result) => … }`.
  -- The promise takes as long as `elapsed` says of the state in which the step is called.
  abbrev pub plain :
      (Run T V W → ℕ)
      → String
      → ℤ
      → Async (Run T V W) V
      → (Option V → Async (Run T V W) (Unit {0}))
      → SagaStep T V W
  plain elapsed name order body undo = record {
    name = name;
    order = order;
    execute = λ r.
        let (result, r') = body r in (record { outcome = result; settles_after = elapsed r }, r');
    compensate = undo;
    on_step_complete = none;
    on_step_failed = none;
  }

  -- the state with one more step result
  abbrev pub with_result : String → V → Run T V W → Run T V W
  with_result name v r = record {
    context = record r.context { step_results = insert name v r.context.step_results };
    world = r.world;
  }

module _ {T V W : Type 0} (svc : Services T V W) (config : SagaConfig) (elapsed : Run T V W → ℕ)
    (name : String) (order : ℤ) (body : Async (Run T V W) V)
    (undo : Option V → Async (Run T V W) (Unit {0})) (Before After : Assertion (Run T V W)) where
  -- A hookless step meets its rule if its body, whether it returns in time or too late or throws, does.
  pub record PlainRule : Type 0 where
    pub stable : IsStable svc config Before
    pub settled : IsStable svc config After
    pub returns :
        (r : Run T V W) (v : V)
        → Before r
        → (body r).0 ≡ ok v
        → After (with_result name v (body r).1)
    pub throws : (r : Run T V W) (e : Error) → Before r → (body r).0 ≡ err e → Before (body r).1
    pub in_time : (r : Run T V W) → Before r → InTime config.timeout (elapsed r)
    pub undone : (r : Run T V W) → After r → Before (undo (lookup name r.context.step_results) r).1

  -- the same of a step that is never compensated
  pub record PlainForward : Type 0 where
    pub stable : IsStable svc config Before
    pub settled : IsStable svc config After
    pub returns :
        (r : Run T V W) (v : V)
        → Before r
        → (body r).0 ≡ ok v
        → After (with_result name v (body r).1)
    pub throws : (r : Run T V W) (e : Error) → Before r → (body r).0 ≡ err e → Before (body r).1
    pub in_time : (r : Run T V W) → Before r → InTime config.timeout (elapsed r)

  forward_of : PlainRule → PlainForward
  forward_of rule = record {
    stable = rule.stable;
    settled = rule.settled;
    returns = rule.returns;
    throws = rule.throws;
    in_time = rule.in_time;
  }

  abbrev step : SagaStep T V W
  step = plain elapsed name order body undo

  started : Run T V W → Run T V W
  started r =
      (emit svc config.saga_id SagaEventType.step_started
        (record {
          step_name = some name;
          status = some (of_step SagaStepStatus.in_progress);
          content = none;
          error = none;
        })
        r).1

  timed :
      (r : Run T V W) (result : Result V)
      → InTime config.timeout (elapsed r)
      → (body r).0 ≡ result
      → execute_with_timeout svc step config.timeout r ≡ (result, (body r).1)
  unfolding execute_with_timeout
  timed r result time settles =
      ap (λ x. (x, (body r).1)) (race-InTime _ config.timeout time ∙ settles)

  performed :
      (r : Run T V W) (result : Result V)
      → InTime config.timeout (elapsed r)
      → (body r).0 ≡ result
      → perform_step svc config step r
        ≡ settle result (keep_result svc config step) throw (body r).1
  unfolding perform_step
  performed r result time settles =
      ap (λ p. settle p.0 (keep_result svc config step) throw p.1) (timed r result time settles)

  abbrev completion : V → Details V
  completion v = record {
    step_name = some name;
    status = some (of_step SagaStepStatus.completed);
    content = some (returned v);
    error = none;
  }

  execute_step_ok :
      (r : Run T V W) (v : V)
      → InTime config.timeout (elapsed (started r))
      → (body (started r)).0 ≡ ok v
      → execute_step svc config step r
        ≡ emit svc config.saga_id SagaEventType.step_completed
            (completion v)
            (with_result name v (body (started r)).1)
  unfolding execute_step keep_result set_result hook emit started
  execute_step_ok r v time settles =
      ap (λ p. settle p.0 pure (λ e. hook svc step.on_step_failed e >> throw e) p.1)
        (performed (started r) (ok v) time settles)

  execute_step_err :
      (r : Run T V W) (e : Error)
      → InTime config.timeout (elapsed (started r))
      → (body (started r)).0 ≡ err e
      → execute_step svc config step r ≡ (err e, (body (started r)).1)
  unfolding execute_step hook emit started
  execute_step_err r e time settles =
      ap (λ p. settle p.0 pure (λ x. hook svc step.on_step_failed x >> throw x) p.1)
        (performed (started r) (err e) time settles)

  started_stable : PlainForward → (r : Run T V W) → Before r → Before (started r)
  unfolding started
  started_stable rule r h = rule.stable _ _ _ r h

  emitted_ok :
      (id : String) (type : SagaEventType) (d : Details V) (r : Run T V W)
      → (emit svc id type d r).0 ≡ ok tt
  unfolding emit
  emitted_ok id type d r = refl

  plain_completes :
      PlainForward
      → (r : Run T V W) → Before r
      → (execute_step svc config step r).0 ≡ ok tt
      → After (execute_step svc config step r).1
  plain_completes rule r h done =
      let h₁ = started_stable rule r h in
      elim (Result-cases (body (started r)).0) [
        | inl (v, e) ↦
            rw (execute_step_ok r v (rule.in_time (started r) h₁) e)
              (rule.settled _ _ _ _ (rule.returns (started r) v h₁ e))
        | inr (x, e) ↦
            let done' = rw (execute_step_err r x (rule.in_time (started r) h₁) e) at done in cc
      ]

  plain_fails :
      PlainForward
      → (r : Run T V W) (x : Error) → Before r
      → (execute_step svc config step r).0 ≡ err x
      → Before (execute_step svc config step r).1
  plain_fails rule r x h failed =
      let h₁ = started_stable rule r h in
      elim (Result-cases (body (started r)).0) [
        | inl (v, e) ↦
            let failed' = rw (execute_step_ok r v (rule.in_time (started r) h₁) e) at failed in
            let sent =
              emitted_ok config.saga_id SagaEventType.step_completed (completion v)
                (with_result name v (body (started r)).1) in
            cc
        | inr (y, e) ↦
            rw (execute_step_err r y (rule.in_time (started r) h₁) e)
              (rule.throws (started r) y h₁ e)
      ]

  plain_undoes : PlainRule → (r : Run T V W) → After r → Before (perform_compensation svc step r).1
  unfolding perform_compensation emit_here emit result_of
  plain_undoes rule r h =
      let r₁ = (emit svc r.context.saga_id SagaEventType.step_compensating (of_name name) r).1 in
      let h₁ = rule.undone r₁ (rule.settled _ _ _ r h) in
      elim (Result-cases (undo (lookup name r₁.context.step_results) r₁).0) [
        | inl (v, e) ↦ rw e (rule.stable _ _ _ _ h₁)
        | inr (x, e) ↦ rw e h₁
      ]

  pub plain_rule : PlainRule → StepRule svc config Before step After
  plain_rule rule = record {
    stable = rule.stable;
    completes = plain_completes (forward_of rule);
    fails = λ r x h failed. plain_fails (forward_of rule) r x h failed;
    undoes = plain_undoes rule;
  }

  pub plain_forward : PlainForward → ForwardRule svc config Before step After
  plain_forward rule = record {
    stable = rule.stable;
    completes = plain_completes rule;
    fails = λ r x h failed. plain_fails rule r x h failed;
  }
