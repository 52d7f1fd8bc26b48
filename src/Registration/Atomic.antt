-- ===== src/Registration/Atomic.antt =====
-- The registration is all or nothing, as far as the ids in the user table tell, unless the database
-- refuses to delete a user.
use plus_api.Common.{
  ℕ, String, ◌≡◌, ◌≢◌, ◌∙◌, refl, sym, ap, inl, inr, Option, none, some, List, ◌∷◌, str_eq, eq_iff,
  Bool, Bool-cases, Option-cases, true, false, ◌⊎◌, ◌≤◌,
}
use mathlib.Core.Path.{subst₂}
use plus_api.Common.Dict.{lookup, insert, lookup-insert}
use plus_api.Common.Result.{Result, ok, err, Error, Async, Result-cases, pure, ◌>>=◌}
use plus_api.Saga.Types.{SagaContext, SagaResult, Services}
use plus_api.Saga.Events.Quiet.{IsQuiet}
use plus_api.Saga.Steps.{sort_steps}
use plus_api.Saga.Steps.Recovery.{StepRule, Recovers, last, next, Seen, Seen-IsStable}
use plus_api.Saga.Steps.Plain.{plain_rule}
use plus_api.Saga.Orchestrator.{execute}
use plus_api.Saga.Orchestrator.Quiet.{IsQuietStore, start_saga_quiet}
use plus_api.Saga.Orchestrator.Recovery.{Recovered, execute-Recovers}
use plus_api.Registration.{
  UserRegistrationData, User, NewUser, Backend, StepResult, created, State, steps,
  registration_config, register, require_text, of_result, call, content, result_of, swallow, create,
  when_text, delete_created, step, user_id,
}
use plus_api.Registration.Keeps.{
  IsDirectory, Keeps, validate-Keeps, no_compensation-Keeps, hash-Keeps, assign-Keeps,
  unassign-Keeps, publish-Keeps, unpublish-Keeps, Keeps-content, Keeps-result_of,
  Keeps-require_text, Keeps-of_result,
}

module _ {W : Type 0} (b : Backend W) (ids : W → List String) (refused : W → Bool) where
  -- the ids in the user table, and whether a deletion of a user has been refused
  abbrev pub see : W → List String × Bool
  see w = (ids w, refused w)

  -- `user.create` returns a user with an id, added to the table, or throws and adds none.
  abbrev pub Creates : List String × Bool → Result User → List String × Bool → Type 0
  Creates before (ok user) after = (user.id ≢ "") × (after ≡ (user.id ∷ before.0, before.1))
  Creates before (err e) after = after ≡ before

  -- How the database writes the user table: `delete` of the user that was added last removes it, or
  -- is refused; what has been refused stays so.
  pub record IsWritten : Type 0 where
    pub creates :
        (user : NewUser) (w : W)
        → Creates (see w) (b.create_user user w).0 (see (b.create_user user w).1)
    pub deletes :
        (id : String) (rest : List String) (w : W)
        → ids w ≡ id ∷ rest
        → (refused (b.delete_user id w).1 ≡ true) ⊎ (ids (b.delete_user id w).1 ≡ rest)
    pub stays : (id : String) (w : W) → refused w ≡ true → refused (b.delete_user id w).1 ≡ true

  -- What `create` did, by how it settled.
  abbrev Outcome : State W → Result StepResult × State W → Type 0
  Outcome r (ok v, r') =
      (user : User) × (v ≡ created user.id user)
      × (user.id ≢ "")
      × (see r'.world ≡ (user.id ∷ ids r.world, refused r.world))
  Outcome r (err e, r') = see r'.world ≡ see r.world

  Outcome-same :
      (r r' : State W) (x : Result StepResult × State W)
      → see r'.world ≡ see r.world
      → Outcome r' x
      → Outcome r x
  Outcome-same r r' (ok v, r'') same (user, made, named, added) =
      (user, made, named, added ∙ ap (λ o. (user.id ∷ o.0, o.1)) same)
  Outcome-same r r' (err e, r'') same h = h ∙ same

  Outcome-bind :
      {A : Type 0} (m : Async (State W) A) (f : A → Async (State W) StepResult)
      → Keeps b see m
      → ((a : A) (r : State W) → Outcome r (f a r))
      → (r : State W) → Outcome r ((m >>= f) r)
  Outcome-bind m f km kf r = elim (Result-cases (m r).0) [
    | inl (a, e) ↦ rw e (Outcome-same r (m r).1 (f a (m r).1) (km.at r).1 (kf a (m r).1))
    | inr (x, e) ↦ rw e (km.at r).1
  ]

  -- Where a deletion has been refused, that stays so.
  delete_created_stays :
      IsWritten
      → (v : Option StepResult) (r : State W) → refused r.world ≡ true
      → refused (delete_created b v r).1.world ≡ true
  unfolding delete_created when_text swallow call
  delete_created_stays written v r was = elim (Option-cases (user_id v)) [
    | inl none_there ↦ rw none_there was
    | inr (id, there) ↦ elim (Bool-cases (str_eq id "")) [
      | inl blank ↦ rw (there, blank) was
      | inr full ↦ elim (Result-cases (b.delete_user id r.world).0) [
        | inl (a, e) ↦ rw (there, full, e) (written.stays id r.world was)
        | inr (x, e) ↦ rw (there, full, e) (written.stays id r.world was)
      ]
    ]
  ]

  module _ (db : IsDirectory b see) (written : IsWritten)
      (in_time : (name : String) (w : W) → b.elapsed name w ≤ 30000)
      (svc : Services UserRegistrationData StepResult W) (quiet : IsQuiet see svc) (uuid : String)
      (before : List String) where
    abbrev Ctx : Type 0
    Ctx = SagaContext UserRegistrationData StepResult

    abbrev Clean : Ctx → List String × Bool → Type 0
    Clean c seen = (seen.1 ≡ true) ⊎ (seen.0 ≡ before)

    abbrev Created : Ctx → List String × Bool → Type 0
    Created c seen =
        (seen.1 ≡ true)
        ⊎ ((user : User) × (user.id ≢ "")
            × (lookup "CreateUser" c.step_results ≡ some (created user.id user))
            × (seen.0 ≡ user.id ∷ before))

    abbrev Rule :
        (Ctx → List String × Bool → Type 0)
        → String
        → ℕ
        → Async (State W) StepResult
        → (Option StepResult → Async (State W) (Unit {0}))
        → (Ctx → List String × Bool → Type 0)
        → Type 0
    Rule P name order body undo Q =
        StepRule svc (registration_config uuid) (Seen see P) (step b name order body undo)
          (Seen see Q)

    create_user_Outcome :
        (user : NewUser) (r : State W)
        → Outcome r ((call b (b.create_user user) >>= λ u. pure (created u.id u)) r)
    unfolding call
    create_user_Outcome user r = elim (Result-cases (b.create_user user r.world).0) [
      | inl (u, e) ↦
          let (named, added) = rw e at (written.creates user r.world) in
          rw e (u, refl, named, added)
      | inr (x, e) ↦ let same = rw e at (written.creates user r.world) in rw e same
    ]

    create-Outcome : (r : State W) → Outcome r (create b r)
    unfolding create
    create-Outcome = Outcome-bind (content b) _ (Keeps-content b see) λ d.
        Outcome-bind (result_of b "HashPassword") _ (Keeps-result_of b see _) λ result.
          Outcome-bind (require_text _ _) _ (Keeps-require_text b see _ _) λ password.
            Outcome-bind (of_result _) _ (Keeps-of_result b see _) λ username. create_user_Outcome _

    Outcome-ok :
        (r : State W) (v : StepResult) (x : Result StepResult × State W)
        → x.0 ≡ ok v
        → Outcome r x
        → (user : User) × (v ≡ created user.id user)
          × (user.id ≢ "")
          × (see x.1.world ≡ (user.id ∷ ids r.world, refused r.world))
    Outcome-ok r v (ok v', r') e (user, made, named, added) = (user, cc, named, added)
    Outcome-ok r v (err x, r') e h = cc

    Outcome-err :
        (r : State W) (e : Error) (x : Result StepResult × State W)
        → x.0 ≡ err e
        → Outcome r x
        → see x.1.world ≡ see r.world
    Outcome-err r e (ok v, r') h outcome = cc
    Outcome-err r e (err x, r') h outcome = outcome

    deleted :
        (user : User) (r : State W)
        → user.id ≢ ""
        → ids r.world ≡ user.id ∷ before
        → Seen see Clean (delete_created b (some (created user.id user)) r).1
    unfolding delete_created when_text swallow call
    deleted user r named listed = elim (Bool-cases (str_eq user.id "")) [
      | inl blank ↦ absurd (named ((eq_iff user.id "").0 blank))
      | inr full ↦ rw full (elim (Result-cases (b.delete_user user.id r.world).0) [
        | inl (a, e) ↦ rw e (written.deletes user.id before r.world listed)
        | inr (x, e) ↦ rw e (written.deletes user.id before r.world listed)
      ])
    ]

    kept :
        (P : Ctx → List String × Bool → Type 0) {A : Type 0} (m : Async (State W) A)
        → Keeps b see m
        → (r : State W) → Seen see P r
        → Seen see P (m r).1
    kept P m k r h = subst₂ P (sym (k.at r).0) (sym (k.at r).1) h

    keeping :
        (P : Ctx → List String × Bool → Type 0) (name : String) (order : ℕ)
        (body : Async (State W) StepResult) (undo : Option StepResult → Async (State W) (Unit {0}))
        → ((c : Ctx) (seen : List String × Bool) (v : StepResult)
            → P c seen
            → P (record c { step_results = insert name v c.step_results }) seen)
        → Keeps b see body
        → ((v : Option StepResult) → Keeps b see (undo v))
        → Rule P name order body undo P
    unfolding step
    keeping P name order body undo insensitive kb ku =
        plain_rule svc (registration_config uuid) _ name _ body undo _ _ (record {
          stable = Seen-IsStable see svc quiet (registration_config uuid) P;
          settled = Seen-IsStable see svc quiet (registration_config uuid) P;
          returns = λ r v h done. insensitive _ _ v (kept P body kb r h);
          throws = λ r e h done. kept P body kb r h;
          in_time = λ r h. in_time name r.world;
          undone = λ r h. kept P (undo _) (ku _) r h;
        })

    keep-Created :
        (name : String)
        → str_eq name "CreateUser" ≡ false
        → (c : Ctx) (seen : List String × Bool) (v : StepResult) → Created c seen
        → Created (record c { step_results = insert name v c.step_results }) seen
    keep-Created name other c seen v (inl was) = inl was
    keep-Created name other c seen v (inr (user, named, found, listed)) =
        inr (user, named, lookup-insert name "CreateUser" v c.step_results ∙ rw other found, listed)

    created_seen :
        (user : User) (v : StepResult) (r : State W) (c : Ctx) (w : W)
        → v ≡ created user.id user
        → user.id ≢ ""
        → see w ≡ (user.id ∷ ids r.world, refused r.world)
        → Seen see Clean r
        → Created (record c { step_results = insert "CreateUser" v c.step_results }) (see w)
    created_seen user v r c w made named added (inl was) = inl (ap (λ o. o.1) added ∙ was)
    created_seen user v r c w made named added (inr h) = inr (
      user,
      named,
      lookup-insert "CreateUser" "CreateUser" v _ ∙ ap some made,
      ap (λ o. o.0) added ∙ ap (λ l. user.id ∷ l) h,
    )

    undone_seen :
        (r : State W)
        → Seen see Created r
        → Seen see Clean (delete_created b (lookup "CreateUser" r.context.step_results) r).1
    undone_seen r (inl was) = inl (delete_created_stays written _ r was)
    undone_seen r (inr (user, named, found, listed)) = rw found (deleted user r named listed)

    Clean-same :
        (r r' : State W) → see r'.world ≡ see r.world → Seen see Clean r → Seen see Clean r'
    Clean-same r r' same (inl was) = inl (ap (λ o. o.1) same ∙ was)
    Clean-same r r' same (inr h) = inr (ap (λ o. o.0) same ∙ h)

    create_rule : Rule Clean "CreateUser" 3 (create b) (delete_created b) Created
    unfolding step
    create_rule =
        plain_rule svc (registration_config uuid) _ _ _ (create b) (delete_created b) _ _ (record {
          stable = Seen-IsStable see svc quiet (registration_config uuid) Clean;
          settled = Seen-IsStable see svc quiet (registration_config uuid) Created;
          returns = λ r v h done.
              let (user, made, named, added) =
                Outcome-ok r v (create b r) done (create-Outcome r) in
              created_seen user v r (create b r).1.context (create b r).1.world made named added h;
          throws = λ r e h done.
              Clean-same r (create b r).1 (Outcome-err r e (create b r) done (create-Outcome r)) h;
          in_time = λ r h. in_time "CreateUser" r.world;
          undone = λ r h. undone_seen r h;
        })

    chain :
        Recovers svc
          (registration_config uuid)
          (Seen see Created)
          (Seen see Clean)
          (sort_steps (steps b))
    unfolding sort_steps steps step
    chain =
        next
          (keeping Clean _ _ _ _ (λ c seen v h. h) (validate-Keeps b see db)
            (no_compensation-Keeps b see db))
          (next
            (keeping Clean _ _ _ _ (λ c seen v h. h) (hash-Keeps b see db)
              (no_compensation-Keeps b see db))
            (next create_rule (
              next
                (keeping Created "AssignRole" _ _ _ (keep-Created "AssignRole" refl)
                  (assign-Keeps b see db) (unassign-Keeps b see db))
                (next
                  (keeping Created "PublishEvent" _ _ _ (keep-Created "PublishEvent" refl)
                    (publish-Keeps b see db) (unpublish-Keeps b see db))
                  (last (λ r h. h))))))

  -- A registration without a failed step has added one user, any other has added none; or the
  -- database has refused to delete a user.
  abbrev pub AllOrNothing :
      List String
      → Result (SagaResult UserRegistrationData StepResult)
      → List String × Bool
      → Type 0
  AllOrNothing before (err e) after = after.0 ≡ before
  AllOrNothing before (ok result) after =
      ((result.failed_step ≡ none) × ((after.1 ≡ true) ⊎ ((id : String) × (after.0 ≡ id ∷ before))))
      ⊎ ((result.failed_step ≢ none) × ((after.1 ≡ true) ⊎ (after.0 ≡ before)))

  module _ (db : IsDirectory b see) (written : IsWritten)
      (in_time : (name : String) (w : W) → b.elapsed name w ≤ 30000)
      (svc : Services UserRegistrationData StepResult W) (quiet : IsQuiet see svc)
      (store : IsQuietStore see svc.state_store) where
    recovered :
        (uuid : String) (w : W) (result : Result (SagaResult UserRegistrationData StepResult))
        (w' : W)
        → Recovered see
            (Seen see (Clean db written in_time svc quiet uuid (ids w)))
            (Seen see (Created db written in_time svc quiet uuid (ids w)))
            w
            result
            w'
        → AllOrNothing (ids w) result (see w')
    recovered uuid w (err e) w' h = ap (λ o. o.0) h
    recovered uuid w (ok result) w' (inl (whole, (r, inl was, same))) =
        inl (whole, inl (ap (λ o. o.1) same ∙ was))
    recovered uuid w (ok result) w' (inl (whole, (r, inr (user, named, found, listed), same))) =
        inl (whole, inr (user.id, ap (λ o. o.0) same ∙ listed))
    recovered uuid w (ok result) w' (inr (failed, (r, inl was, same))) =
        inr (failed, inl (ap (λ o. o.1) same ∙ was))
    recovered uuid w (ok result) w' (inr (failed, (r, inr clean, same))) =
        inr (failed, inr (ap (λ o. o.0) same ∙ clean))

    register_lem :
        (uuid : String) (d : UserRegistrationData) (w : W)
        → register b svc uuid d w ≡ execute svc (registration_config uuid) (steps b) d w
    unfolding register
    register_lem uuid d w = refl

    -- Where no step takes longer than its limit of 30 seconds, over a database in which a deletion
    -- either removes the user or is refused, and with an event publisher, a clock and a state store
    -- that leave the user table alone: a registration whose result names no failed step has added
    -- exactly one user, and one that names a failed step has left the ids in the user table as they
    -- were, or in either case the database has refused a deletion, which the saga only logs. One
    -- that throws has left the ids as they were.
    pub register-AllOrNothing :
        (uuid : String) (d : UserRegistrationData) (w : W)
        → let (result, w') = register b svc uuid d w in AllOrNothing (ids w) result (see w')
    register-AllOrNothing uuid d w =
        let Before = Seen see (Clean db written in_time svc quiet uuid (ids w)) in
        let After = Seen see (Created db written in_time svc quiet uuid (ids w)) in
        rw (register_lem uuid d w) (
          recovered uuid w _ _ (
            execute-Recovers see svc quiet store (registration_config uuid) Before After (steps b) d
              w (chain db written in_time svc quiet uuid (ids w))
              (inr (
                ap (λ o. o.0)
                  (start_saga_quiet see svc quiet store (registration_config uuid) d w)))))
