-- ===== src/Saga/Steps/Trace.antt =====
-- What the loop over a saga's steps calls, and in which order: the calls of `execute` and
-- `compensate`, as an observer of the world sees them.
use plus_api.Common.{
  String, ◌≡◌, refl, ap, ◌∙◌, inl, inr, Option, none, some, List, [], ◌∷◌, ◌++◌, map,
}
use plus_api.Common.Dict.{lookup}
use plus_api.Common.Result.{Error, Async, Result-cases, pure, throw, try_catch, ◌>>=◌, ◌>>◌}
use plus_api.Saga.Types.{SagaEventType, Run, SagaStep, SagaConfig, Services}
use plus_api.Saga.Events.{Details}
use plus_api.Saga.Events.Quiet.{IsQuiet, publish_event_quiet}
use plus_api.Saga.Steps.{
  emit, emit_here, execute_with_timeout, set_result, result_of, hook, keep_result, perform_step,
  execute_step, perform_compensation,
}

-- A call that an observer of the world sees: a step's `execute` or its `compensate`.
pub data Call : Type 0 where
  executed : String → Call
  compensated : String → Call

module _ {T V W : Type 0} where
  abbrev pub executions : List (SagaStep T V W) → List Call
  executions = map (λ s. executed s.name)

  abbrev pub compensations : List (SagaStep T V W) → List Call
  compensations = map (λ s. compensated s.name)

module _ {T V W : Type 0} (observe : W → List Call) where
  -- A hook that the observer does not see.
  abbrev pub IsQuietHook : {A : Type 0} → Option (A → Async (Run T V W) (Unit {0})) → Type 0
  IsQuietHook none = Unit
  IsQuietHook {A} (some f) = (a : A) (r : Run T V W) → observe (f a r).1.world ≡ observe r.world

  -- Calls of the step are seen, and nothing else that it does.
  pub record IsObserved (s : SagaStep T V W) : Type 0 where
    pub executes :
        (r : Run T V W) → observe (s.execute r).1.world ≡ observe r.world ++ executed s.name ∷ []
    pub compensates :
        (v : Option V) (r : Run T V W)
        → observe (s.compensate v r).1.world ≡ observe r.world ++ compensated s.name ∷ []
    pub completes : IsQuietHook s.on_step_complete
    pub fails : IsQuietHook s.on_step_failed

  module _ (svc : Services T V W) (quiet : IsQuiet observe svc) where
    abbrev pub calls : Run T V W → List Call
    calls r = observe r.world

    pub emit_quiet :
        (id : String) (type : SagaEventType) (d : Details V) (r : Run T V W)
        → calls (emit svc id type d r).1 ≡ calls r
    unfolding emit
    emit_quiet id type d r = publish_event_quiet observe svc quiet id type d r.world

    pub emit_here_quiet :
        (type : SagaEventType) (d : Details V) (r : Run T V W)
        → calls (emit_here svc type d r).1 ≡ calls r
    unfolding emit_here
    emit_here_quiet type d r = emit_quiet r.context.saga_id type d r

    hook_quiet :
        {A : Type 0} (h : Option (A → Async (Run T V W) (Unit {0})))
        → IsQuietHook h
        → (a : A) (r : Run T V W) → calls (hook svc h a r).1 ≡ calls r
    unfolding hook
    hook_quiet none q a r = refl
    hook_quiet (some f) q a r = q a r

    -- A continuation that is not seen leaves the calls of what it continues.
    try_quiet :
        {A B : Type 0} (m : Async (Run T V W) A) (f : A → Async (Run T V W) B)
        (g : Error → Async (Run T V W) B)
        → ((a : A) (r : Run T V W) → calls (f a r).1 ≡ calls r)
        → ((e : Error) (r : Run T V W) → calls (g e r).1 ≡ calls r)
        → (r : Run T V W) → calls (try_catch m f g r).1 ≡ calls (m r).1
    try_quiet m f g qf qg r = elim (Result-cases (m r).0) [
      | inl (a, e) ↦ rw e (qf a (m r).1)
      | inr (x, e) ↦ rw e (qg x (m r).1)
    ]

    bind_quiet :
        {A B : Type 0} (m : Async (Run T V W) A) (f : A → Async (Run T V W) B)
        → ((a : A) (r : Run T V W) → calls (f a r).1 ≡ calls r)
        → (r : Run T V W) → calls ((m >>= f) r).1 ≡ calls (m r).1
    bind_quiet m f qf r = try_quiet m f throw qf (λ e r. refl) r

    module _ (s : SagaStep T V W) (seen : IsObserved s) where
      keep_result_quiet :
          (config : SagaConfig) (v : V) (r : Run T V W)
          → calls (keep_result svc config s v r).1 ≡ calls r
      unfolding keep_result set_result
      keep_result_quiet config v r =
          bind_quiet (hook svc s.on_step_complete v) _ (λ _. emit_quiet _ _ _) _
          ∙ hook_quiet s.on_step_complete seen.completes v _

      calls-perform_step :
          (config : SagaConfig) (r : Run T V W)
          → calls (perform_step svc config s r).1 ≡ calls r ++ executed s.name ∷ []
      unfolding perform_step execute_with_timeout
      calls-perform_step config r =
          bind_quiet (execute_with_timeout svc s config.timeout) (keep_result svc config s)
            (keep_result_quiet config) r
          ∙ seen.executes r

      -- Whether the step returns, throws or runs out of time, it is called once.
      pub calls-execute_step :
          (config : SagaConfig) (r : Run T V W)
          → calls (execute_step svc config s r).1 ≡ calls r ++ executed s.name ∷ []
      unfolding execute_step emit
      calls-execute_step config r =
          try_quiet (perform_step svc config s) pure (λ e. hook svc s.on_step_failed e >> throw e)
            (λ _ _. refl)
            (λ e r'.
              bind_quiet (hook svc s.on_step_failed e) (λ _. throw e) (λ _ _. refl) r'
              ∙ hook_quiet s.on_step_failed seen.fails e r')
            _
          ∙ calls-perform_step config _
          ∙ ap (λ c. c ++ executed s.name ∷ []) (publish_event_quiet observe svc quiet _ _ _ _)

      -- Whatever comes of it, a compensation is called once.
      pub calls-perform_compensation :
          (r : Run T V W)
          → calls (perform_compensation svc s r).1 ≡ calls r ++ compensated s.name ∷ []
      unfolding perform_compensation result_of emit_here emit
      calls-perform_compensation r =
          bind_quiet (s.compensate (lookup s.name r.context.step_results)) _
            (λ _. emit_here_quiet _ _) _
          ∙ seen.compensates _ _
          ∙ ap (λ c. c ++ compensated s.name ∷ []) (publish_event_quiet observe svc quiet _ _ _ _)
