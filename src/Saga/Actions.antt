-- ===== src/Saga/Actions.antt =====
-- What the bodies of saga steps are made of, in plugins/payment/src/saga/subscription-payment.saga.ts
-- and the like: calls of collaborators, reads of the context, and compensations that log errors.
pub mod Keeps
use plus_api.Common.{String, Option, none, some, str_eq, if◌then◌else◌}
use plus_api.Common.Dict.{lookup}
use plus_api.Common.Result.{ok, Error, Async, pure, throw, try_catch}
use plus_api.Saga.Types.{Run}

-- `if (text) { … }`
unfoldable pub when_text :
    {S : Type 0} → Option String → (String → Async S (Unit {0})) → Async S (Unit {0})
when_text none f = pure tt
when_text (some s) f = if str_eq s "" then pure tt else f s

-- `if (!text) throw error`
unfoldable pub needed : {S : Type 0} → Option String → Error → Async S String
needed none e = throw e
needed (some s) e = if str_eq s "" then throw e else pure s

-- `try { … } catch (error) { log }`
unfoldable pub logged : {S : Type 0} → Async S (Unit {0}) → Async S (Unit {0})
logged m = try_catch m pure (λ e. pure tt)

module _ {T V W : Type 0} where
  -- a call that touches the world
  unfoldable pub call : {A : Type 0} → Async W A → Async (Run T V W) A
  call m r = let (a, w) = m r.world in (a, record { context = r.context; world = w })

  -- `context.data`
  unfoldable pub data_of : Async (Run T V W) T
  data_of r = (ok r.context.content, r)

  -- `context.stepResults.get(name)`
  unfoldable pub get_result : String → Async (Run T V W) (Option V)
  get_result name r = (ok (lookup name r.context.step_results), r)
