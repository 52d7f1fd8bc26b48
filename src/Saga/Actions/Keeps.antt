-- ===== src/Saga/Actions/Keeps.antt =====
-- Actions of saga steps that an observer of the world does not see, and the rule of such a step.
use plus_api.Common.{
  ℕ, String, ◌≡◌, ◌∙◌, refl, sym, inl, inr, Bool, true, false, Option, none, some, str_eq,
  if◌then◌else◌,
}
use mathlib.Core.Path.{subst₂}
use plus_api.Common.Int.{ℤ}
use plus_api.Common.Dict.{insert}
use plus_api.Common.Result.{Result, err, Error, Async, pure, throw, try_catch, ◌>>=◌, Result-cases}
use plus_api.Saga.Types.{Run, SagaContext, SagaConfig, Services}
use plus_api.Saga.Events.Quiet.{IsQuiet}
use plus_api.Saga.Steps.Recovery.{StepRule, Seen, Seen-IsStable}
use plus_api.Saga.Steps.Plain.{plain, plain_rule, InTime}
use plus_api.Saga.Actions.{when_text, needed, logged, call, data_of, get_result}

module _ {T V W O : Type 0} (observe : W → O) where
  -- The action changes neither the context nor what the observer sees.
  pub record Keeps {A : Type 0} (m : Async (Run T V W) A) : Type 0 where
    pub at :
        (r : Run T V W) → ((m r).1.context ≡ r.context) × (observe (m r).1.world ≡ observe r.world)

  module _ {A : Type 0} where
    pub Keeps-pure : (a : A) → Keeps (pure a)
    Keeps-pure a = record { at = λ r. (refl, refl) }

    pub Keeps-throw : (e : Error) → Keeps (throw {A = A} e)
    Keeps-throw e = record { at = λ r. (refl, refl) }

    pub Keeps-call : (m : Async W A) → ((w : W) → observe (m w).1 ≡ observe w) → Keeps (call m)
    unfolding call
    Keeps-call m h = record { at = λ r. (refl, h r.world) }

  pub Keeps-needed : (o : Option String) (e : Error) → Keeps (needed o e)
  unfolding needed
  Keeps-needed none e = Keeps-throw e
  Keeps-needed (some s) e = Keeps-if (str_eq s "")
    where
      Keeps-if : (t : Bool) → Keeps (if t then throw e else pure s)
      Keeps-if true = Keeps-throw e
      Keeps-if false = Keeps-pure s

  pub Keeps-data_of : Keeps data_of
  unfolding data_of
  Keeps-data_of = record { at = λ r. (refl, refl) }

  pub Keeps-get_result : (name : String) → Keeps (get_result name)
  unfolding get_result
  Keeps-get_result name = record { at = λ r. (refl, refl) }

  pub Keeps-when_text :
      (o : Option String) (f : String → Async (Run T V W) (Unit {0}))
      → ((s : String) → Keeps (f s))
      → Keeps (when_text o f)
  unfolding when_text
  Keeps-when_text none f k = Keeps-pure tt
  Keeps-when_text (some s) f k = Keeps-if (str_eq s "")
    where
      Keeps-if : (t : Bool) → Keeps (if t then pure tt else f s)
      Keeps-if true = Keeps-pure tt
      Keeps-if false = k s

  module _ {A B : Type 0} where
    Keeps-try :
        (m : Async (Run T V W) A) (f : A → Async (Run T V W) B) (g : Error → Async (Run T V W) B)
        → Keeps m
        → ((a : A) → Keeps (f a))
        → ((e : Error) → Keeps (g e))
        → Keeps (try_catch m f g)
    Keeps-try m f g km kf kg = record {
      at = λ r. elim (Result-cases (m r).0) [
        | inl (a, is) ↦
            let (same, seen) = (kf a).at (m r).1 in rw is (same ∙ (km.at r).0, seen ∙ (km.at r).1)
        | inr (x, is) ↦
            let (same, seen) = (kg x).at (m r).1 in rw is (same ∙ (km.at r).0, seen ∙ (km.at r).1)
      ];
    }

    pub Keeps-bind :
        (m : Async (Run T V W) A) (f : A → Async (Run T V W) B)
        → Keeps m
        → ((a : A) → Keeps (f a))
        → Keeps (m >>= f)
    Keeps-bind m f km kf = Keeps-try m f throw km kf (λ e. Keeps-throw e)

  pub Keeps-logged : (m : Async (Run T V W) (Unit {0})) → Keeps m → Keeps (logged m)
  unfolding logged
  Keeps-logged m k = Keeps-try m pure (λ e. pure tt) k (λ a. Keeps-pure a) (λ e. Keeps-pure tt)

  -- What the observer sees before and after an action is related as `Q` tells.
  abbrev pub Yields : {A : Type 0} → (O → Result A → O → Type 0) → Async (Run T V W) A → Type 0
  Yields Q m = (r : Run T V W) → Q (observe r.world) (m r).0 (observe (m r).1.world)

  pub Yields-bind :
      {A B : Type 0} (Q : O → Result B → O → Type 0) (m : Async (Run T V W) A)
      (f : A → Async (Run T V W) B)
      → ((o : O) (e : Error) → Q o (err e) o)
      → Keeps m
      → ((a : A) → Yields Q (f a))
      → Yields Q (m >>= f)
  Yields-bind Q m f stays km kf r = elim (Result-cases (m r).0) [
    | inl (a, is) ↦ rw is (rw (← (km.at r).1) (kf a (m r).1))
    | inr (x, is) ↦ rw is (rw (km.at r).1 (stays (observe r.world) x))
  ]

  pub kept :
      (P : SagaContext T V → O → Type 0) {A : Type 0} (m : Async (Run T V W) A)
      → Keeps m
      → (r : Run T V W) → Seen observe P r
      → Seen observe P (m r).1
  kept P m k r h = subst₂ P (sym (k.at r).0) (sym (k.at r).1) h

  -- A step whose body and compensation are not seen keeps what does not depend on its own result.
  pub kept_rule :
      (svc : Services T V W) (config : SagaConfig)
      → IsQuiet observe svc
      → (P : SagaContext T V → O → Type 0) (elapsed : Run T V W → ℕ) (name : String) (order : ℤ)
        (body : Async (Run T V W) V) (undo : Option V → Async (Run T V W) (Unit {0}))
      → ((c : SagaContext T V) (o : O) (v : V)
          → P c o
          → P (record c { step_results = insert name v c.step_results }) o)
      → ((r : Run T V W) → InTime config.timeout (elapsed r))
      → Keeps body
      → ((v : Option V) → Keeps (undo v))
      → StepRule svc config (Seen observe P) (plain elapsed name order body undo) (Seen observe P)
  kept_rule svc config quiet P elapsed name order body undo insensitive in_time kb ku =
      plain_rule svc config elapsed name order body undo _ _ (record {
        stable = Seen-IsStable observe svc quiet config P;
        settled = Seen-IsStable observe svc quiet config P;
        returns = λ r v h done. insensitive _ _ v (kept P body kb r h);
        throws = λ r e h done. kept P body kb r h;
        in_time = λ r h. in_time r;
        undone = λ r h. kept P (undo _) (ku _) r h;
      })
