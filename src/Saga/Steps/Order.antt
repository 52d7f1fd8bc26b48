-- ===== src/Saga/Steps/Order.antt =====
-- `sortSteps` sorts: the same steps, by `order`, and steps of one `order` keep their places.
use mathlib.Core.List.{Perm}
use mathlib.Core.List.Perm
use plus_api.Common.{
  ◌≡◌, refl, ◌∙◌, inl, inr, List, [], ◌∷◌, ◌&&◌, arith, Bool-cases, if◌then◌else◌,
}
use plus_api.Common.Lists.{All}
use plus_api.Common.Int.{ℤ, ◌≤ℤ◌, leb_ℤ}
use plus_api.Saga.Types.{SagaStep}
use plus_api.Saga.Steps.{insert_step, sort_steps}

module _ {T V W : Type 0} where
  -- Each step's order is at most that of every later step.
  abbrev pub NoneBefore : ℤ → List (SagaStep T V W) → Type 0
  NoneBefore o [] = Unit
  NoneBefore o (s ∷ ss) = (o ≤ℤ s.order) × NoneBefore o ss

  abbrev pub IsSorted : List (SagaStep T V W) → Type 0
  IsSorted [] = Unit
  IsSorted (s ∷ ss) = NoneBefore s.order ss × IsSorted ss

  -- The steps of one order, in their places.
  pub of_order : ℤ → List (SagaStep T V W) → List (SagaStep T V W)
  of_order o [] = []
  of_order o (s ∷ ss) =
      let rest = of_order o ss in if leb_ℤ o s.order && leb_ℤ s.order o then s ∷ rest else rest

  insert_step-perm :
      (s : SagaStep T V W) (ss : List (SagaStep T V W)) → Perm (insert_step s ss) (s ∷ ss)
  unfolding insert_step
  insert_step-perm s [] = Perm.refl (s ∷ [])
  insert_step-perm s (t ∷ ts) = elim (Bool-cases (leb_ℤ s.order t.order)) [
    | inl le ↦ rw le (Perm.refl (s ∷ t ∷ ts))
    | inr gt ↦ rw gt (Perm.trans (Perm.cons t (insert_step-perm s ts)) (Perm.swap s t ts))
  ]

  sort_steps-perm : (ss : List (SagaStep T V W)) → Perm (sort_steps ss) ss
  unfolding sort_steps
  sort_steps-perm [] = Perm.refl []
  sort_steps-perm (s ∷ ss) =
      Perm.trans (insert_step-perm s (sort_steps ss)) (Perm.cons s (sort_steps-perm ss))

  All-insert_step :
      (P : SagaStep T V W → Type 0) (s : SagaStep T V W) (ss : List (SagaStep T V W))
      → P s
      → All P ss
      → All P (insert_step s ss)
  unfolding insert_step
  All-insert_step P s [] p q = (p, tt)
  All-insert_step P s (t ∷ ts) p q = ground (arith, All-insert_step P s ts)

  pub All-sort_steps :
      (P : SagaStep T V W → Type 0) (ss : List (SagaStep T V W)) → All P ss → All P (sort_steps ss)
  unfolding sort_steps
  All-sort_steps P [] q = tt
  All-sort_steps P (s ∷ ss) q = All-insert_step P s (sort_steps ss) q.0 (All-sort_steps P ss q.1)

  NoneBefore-trans :
      (o p : ℤ) (ss : List (SagaStep T V W)) → o ≤ℤ p → NoneBefore p ss → NoneBefore o ss
  NoneBefore-trans o p [] h n = tt
  NoneBefore-trans o p (s ∷ ss) h n = (omega arith, NoneBefore-trans o p ss h n.1)

  insert_step-NoneBefore :
      (o : ℤ) (s : SagaStep T V W) (ss : List (SagaStep T V W))
      → o ≤ℤ s.order
      → NoneBefore o ss
      → NoneBefore o (insert_step s ss)
  unfolding insert_step
  insert_step-NoneBefore o s [] h n = (h, tt)
  insert_step-NoneBefore o s (t ∷ ts) h n = ground (arith, insert_step-NoneBefore o s ts)

  insert_step-IsSorted :
      (s : SagaStep T V W) (ss : List (SagaStep T V W)) → IsSorted ss → IsSorted (insert_step s ss)
  unfolding insert_step
  insert_step-IsSorted s [] h = (tt, tt)
  insert_step-IsSorted s (t ∷ ts) h = ground (
    arith,
    insert_step-IsSorted s ts,
    insert_step-NoneBefore t.order s ts,
    NoneBefore-trans s.order t.order ts,
  )

  sort_steps-IsSorted : (ss : List (SagaStep T V W)) → IsSorted (sort_steps ss)
  unfolding sort_steps
  sort_steps-IsSorted [] = tt
  sort_steps-IsSorted (s ∷ ss) = insert_step-IsSorted s (sort_steps ss) (sort_steps-IsSorted ss)

  of_order-insert_step :
      (o : ℤ) (s : SagaStep T V W) (ss : List (SagaStep T V W))
      → of_order o (insert_step s ss) ≡ of_order o (s ∷ ss)
  unfolding insert_step of_order
  of_order-insert_step o s [] = refl
  of_order-insert_step o s (t ∷ ts) = ground (arith, of_order-insert_step o s ts)

  of_order-sort_steps :
      (o : ℤ) (ss : List (SagaStep T V W)) → of_order o (sort_steps ss) ≡ of_order o ss
  unfolding sort_steps of_order
  of_order-sort_steps o [] = refl
  of_order-sort_steps o (s ∷ ss) =
      of_order-insert_step o s (sort_steps ss) ∙ ground (arith, of_order-sort_steps o ss)

  -- The sorted steps are a permutation of the given ones, each `order` is at most every later one,
  -- and the steps of any one `order` are the given ones in their given places.
  pub sort_steps_sorts :
      (ss : List (SagaStep T V W))
      → Perm (sort_steps ss) ss
        × IsSorted (sort_steps ss)
        × ((o : ℤ) → of_order o (sort_steps ss) ≡ of_order o ss)
  sort_steps_sorts ss = (sort_steps-perm ss, sort_steps-IsSorted ss, λ o. of_order-sort_steps o ss)
