-- ===== src/Registration/Keeps.antt =====
-- The parts of the registration that leave alone the saga's context and what an observer of the user
-- table sees.
use plus_api.Common.{
  String, ◌≡◌, ◌∙◌, refl, inl, inr, Bool, true, false, Option, none, some, str_eq, if◌then◌else◌,
}
use plus_api.Common.Result.{
  Result, ok, err, Error, Async, pure, throw, try_catch, ◌>>=◌, Result-cases,
}
use plus_api.Registration.{
  UserEvent, Backend, StepResult, State, require_text, require, of_result, call, content, result_of,
  saga_id, swallow, no_compensation, validate, hash, when_text, assign, unassign, publish,
  unpublish,
}

module _ {W O : Type 0} (b : Backend W) (ids : W → O) where
  -- What an observer of the user table sees: reading, hashing, changing a user's roles and publishing
  -- leave it alone.
  pub record IsDirectory : Type 0 where
    pub finds : (email : String) (w : W) → ids (b.find_user email w).1 ≡ ids w
    pub finds_role : (key : String) (w : W) → ids (b.find_role key w).1 ≡ ids w
    pub hashes : (password : String) (w : W) → ids (b.hash_password password w).1 ≡ ids w
    pub connects : (user role : String) (w : W) → ids (b.connect_role user role w).1 ≡ ids w
    pub disconnects : (user role : String) (w : W) → ids (b.disconnect_role user role w).1 ≡ ids w
    pub publishes :
        (event : UserEvent) (source saga : String) (w : W)
        → ids (b.publish_user_event event source saga w).1 ≡ ids w

  -- An action that changes neither the context nor what the observer sees.
  pub record Keeps {A : Type 0} (m : Async (State W) A) : Type 0 where
    pub at : (r : State W) → ((m r).1.context ≡ r.context) × (ids (m r).1.world ≡ ids r.world)

  module _ {A : Type 0} where
    Keeps-pure : (a : A) → Keeps (pure a)
    Keeps-pure a = record { at = λ r. (refl, refl) }

    Keeps-throw : (e : Error) → Keeps (throw {A = A} e)
    Keeps-throw e = record { at = λ r. (refl, refl) }

    Keeps-call : (m : Async W A) → ((w : W) → ids (m w).1 ≡ ids w) → Keeps (call b m)
    unfolding call
    Keeps-call m h = record { at = λ r. (refl, h r.world) }

    Keeps-require : (o : Option A) (e : Error) → Keeps (require o e)
    unfolding require
    Keeps-require none e = Keeps-throw e
    Keeps-require (some a) e = Keeps-pure a

    pub Keeps-of_result : (x : Result A) → Keeps (of_result x)
    unfolding of_result
    Keeps-of_result (ok a) = Keeps-pure a
    Keeps-of_result (err e) = Keeps-throw e

  pub Keeps-require_text : (o : Option String) (e : Error) → Keeps (require_text o e)
  unfolding require_text
  Keeps-require_text none e = Keeps-throw e
  Keeps-require_text (some s) e = Keeps-if (str_eq s "")
    where
      Keeps-if : (t : Bool) → Keeps (if t then throw e else pure s)
      Keeps-if true = Keeps-throw e
      Keeps-if false = Keeps-pure s

  pub Keeps-content : Keeps (content b)
  unfolding content
  Keeps-content = record { at = λ r. (refl, refl) }

  Keeps-saga_id : Keeps (saga_id b)
  unfolding saga_id
  Keeps-saga_id = record { at = λ r. (refl, refl) }

  pub Keeps-result_of : (name : String) → Keeps (result_of b name)
  unfolding result_of
  Keeps-result_of name = record { at = λ r. (refl, refl) }

  module _ {A B : Type 0} where
    Keeps-try :
        (m : Async (State W) A) (f : A → Async (State W) B) (g : Error → Async (State W) B)
        → Keeps m
        → ((a : A) → Keeps (f a))
        → ((e : Error) → Keeps (g e))
        → Keeps (try_catch m f g)
    Keeps-try m f g km kf kg = record {
      at = λ r. elim (Result-cases (m r).0) [
        | inl (a, e) ↦
            rw e (((kf a).at (m r).1).0 ∙ (km.at r).0, ((kf a).at (m r).1).1 ∙ (km.at r).1)
        | inr (x, e) ↦
            rw e (((kg x).at (m r).1).0 ∙ (km.at r).0, ((kg x).at (m r).1).1 ∙ (km.at r).1)
      ];
    }

    pub Keeps-bind :
        (m : Async (State W) A) (f : A → Async (State W) B)
        → Keeps m
        → ((a : A) → Keeps (f a))
        → Keeps (m >>= f)
    Keeps-bind m f km kf = Keeps-try m f throw km kf (λ e. Keeps-throw e)

  Keeps-when_text :
      (o : Option String) (f : String → Async (State W) (Unit {0}))
      → ((s : String) → Keeps (f s))
      → Keeps (when_text b o f)
  unfolding when_text
  Keeps-when_text none f k = Keeps-pure tt
  Keeps-when_text (some s) f k = Keeps-if (str_eq s "")
    where
      Keeps-if : (t : Bool) → Keeps (if t then pure tt else f s)
      Keeps-if true = Keeps-pure tt
      Keeps-if false = k s

  Keeps-swallow : (m : Async (State W) (Unit {0})) → Keeps m → Keeps (swallow b m)
  unfolding swallow
  Keeps-swallow m k = Keeps-try m pure (λ e. pure tt) k (λ a. Keeps-pure a) (λ e. Keeps-pure tt)

  module _ (db : IsDirectory) where
    pub validate-Keeps : Keeps (validate b)
    unfolding validate
    validate-Keeps = Keeps-bind (content b) _ Keeps-content (λ d.
        Keeps-bind (call b (b.find_user d.email)) _ (Keeps-call _ (db.finds d.email))
          (elim [ some user ↦ Keeps-throw _ | none ↦ Keeps-pure _ ]))

    pub no_compensation-Keeps : (v : Option StepResult) → Keeps (no_compensation b v)
    unfolding no_compensation
    no_compensation-Keeps v = Keeps-pure tt

    pub hash-Keeps : Keeps (hash b)
    unfolding hash
    hash-Keeps = Keeps-bind (content b) _ Keeps-content (λ d.
        Keeps-bind (call b (b.hash_password d.password)) _ (Keeps-call _ (db.hashes d.password))
          (λ p. Keeps-pure _))

    pub assign-Keeps : Keeps (assign b)
    unfolding assign
    assign-Keeps = Keeps-bind (content b) _ Keeps-content (λ d.
        Keeps-bind (result_of b "CreateUser") _ (Keeps-result_of _) (λ result.
          Keeps-bind (require_text _ _) _ (Keeps-require_text _ _) (λ id.
            Keeps-bind (call b (b.find_role _)) _ (Keeps-call _ (db.finds_role _)) (λ found.
              Keeps-bind (require _ _) _ (Keeps-require _ _) (λ role.
                Keeps-bind (call b (b.connect_role id role.id)) _
                  (Keeps-call _ (db.connects id role.id)) (λ user. Keeps-pure _))))))

    pub unassign-Keeps : (v : Option StepResult) → Keeps (unassign b v)
    unfolding unassign
    unassign-Keeps v = Keeps-when_text _ _ (λ id.
        Keeps-when_text _ _ (λ role. Keeps-swallow _ (Keeps-call _ (db.disconnects id role))))

    pub publish-Keeps : Keeps (publish b)
    unfolding publish
    publish-Keeps = Keeps-bind (result_of b "AssignRole") _ (Keeps-result_of _) (λ result.
        Keeps-bind (require _ _) _ (Keeps-require _ _) (λ user.
          Keeps-bind (saga_id b) _ Keeps-saga_id (λ saga.
            Keeps-bind (call b (b.publish_user_event _ _ saga)) _
              (Keeps-call _ (db.publishes _ _ saga)) (λ _. Keeps-pure _))))

    pub unpublish-Keeps : (v : Option StepResult) → Keeps (unpublish b v)
    unfolding unpublish
    unpublish-Keeps v = Keeps-bind (result_of b "AssignRole") _ (Keeps-result_of _) (λ result.
        Keeps-bind (saga_id b) _ Keeps-saga_id (λ saga.
          Keeps-when_text _ _ (λ id. Keeps-swallow _ (Keeps-call _ (db.publishes _ _ saga)))))
