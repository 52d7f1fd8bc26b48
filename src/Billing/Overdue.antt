-- ===== src/Billing/Overdue.antt =====
-- What processOverdueInvoices does to each invoice.
use plus_api.Common.{
  ℕ, ◌+◌, ◌≡◌, refl, ap, ◌∙◌, String, Bool, true, false, ◌&&◌, Bool-cases, Option, some, List, [],
  ◌∷◌, map, inl, inr, str_eq, ltb, ◌==◌, eq_iff,
}
use plus_api.Common.Lists.{length, member}
use plus_api.Common.Result.{ok}
use plus_api.Billing.Types.{Numbers, InvoiceStatus, Invoice, InvoiceData, InvoiceWhere, ShopClient}
use plus_api.Billing.Rows.{matches, with_invoice, status_number}
use plus_api.Billing.Invoices.{
  overdue_at, overdue_before, is_pending, mark_overdue, process_overdue_invoices,
}

abbrev pub marked : {D : Type 0} → ℕ → Invoice D → Invoice D
marked date i = record i {
  status = InvoiceStatus.overdue;
  dunning_level = i.dunning_level + 1;
  last_dunning_at = some date;
}

-- pending, with a due date before the given one
abbrev pub is_due : {D : Type 0} → ℕ → Invoice D → Bool
is_due now i = is_pending i.status && ltb i.due_date now

abbrev pub ids : {D : Type 0} → List (Invoice D) → List String
ids = map λ i. i.id

abbrev pub IsDistinct : {D : Type 0} → List (Invoice D) → Type 0
IsDistinct [] = Unit
IsDistinct (i ∷ is) = (member i.id (ids is) ≡ false) × IsDistinct is

-- The `where` of the query is the test for the invoices that are due.
matches-overdue_before :
    {D : Type 0} (now : ℕ) (i : Invoice D) → matches (overdue_before now) i ≡ is_due now i
matches-overdue_before now i = ap (λ b. b && ltb i.due_date now) (pending_lem i.status)
  where
    pending_lem : (s : InvoiceStatus) → (status_number s == 1) ≡ is_pending s
    pending_lem InvoiceStatus.draft = refl
    pending_lem InvoiceStatus.pending = refl
    pending_lem InvoiceStatus.paid = refl
    pending_lem InvoiceStatus.overdue = refl
    pending_lem InvoiceStatus.cancelled = refl
    pending_lem InvoiceStatus.refunded = refl

module _ {N D W : Type 0} (num : Numbers N D) (client : ShopClient N D W) where
  -- `row` is the row with an id, by Prisma's documentation: a query finds the rows that match its
  -- `where`, each once, and an update writes its `data` into one row. No update throws.
  pub record HoldsInvoices (row : String → W → Option (Invoice D)) : Type 0 where
    pub found : InvoiceWhere → W → List (Invoice D)
    pub finds : (q : InvoiceWhere) (w : W) → client.find_invoices q w ≡ (ok (found q w), w)
    pub distinct : (q : InvoiceWhere) (w : W) → IsDistinct (found q w)
    pub exact :
        (q : InvoiceWhere) (w : W) (id : String) (i : Invoice D)
        → row id w ≡ some i
        → member id (ids (found q w)) ≡ matches q i
    pub succeeds :
        (id : String) (d : InvoiceData) (w : W) → (client.update_invoice id d w).0 ≡ ok tt
    pub writes :
        (id : String) (d : InvoiceData) (w : W) (i : Invoice D)
        → row id w ≡ some i
        → row id (client.update_invoice id d w).1 ≡ some (with_invoice d i)
    pub spares :
        (id other : String) (d : InvoiceData) (w : W)
        → str_eq id other ≡ false
        → row other (client.update_invoice id d w).1 ≡ row other w

  module _ (row : String → W → Option (Invoice D)) (held : HoldsInvoices row) where
    abbrev after_one : Invoice D → W → W
    after_one j w = (client.update_invoice j.id (overdue_at (client.now w)) w).1

    mark_overdue-cons :
        (j : Invoice D) (js : List (Invoice D)) (w : W)
        → mark_overdue num client (j ∷ js) w ≡ mark_overdue num client js (after_one j w)
    unfolding mark_overdue
    mark_overdue-cons j js w = rw (held.succeeds j.id (overdue_at (client.now w)) w) refl

    mark_overdue_succeeds :
        (js : List (Invoice D)) (w : W) → (mark_overdue num client js w).0 ≡ ok tt
    unfolding mark_overdue
    mark_overdue_succeeds [] w = refl
    mark_overdue_succeeds (j ∷ js) w =
        rw (mark_overdue-cons j js w) (mark_overdue_succeeds js (after_one j w))

    mark_overdue_spares :
        (js : List (Invoice D)) (k : String) (w : W)
        → member k (ids js) ≡ false
        → row k (mark_overdue num client js w).1 ≡ row k w
    unfolding member mark_overdue
    mark_overdue_spares [] k w other = refl
    mark_overdue_spares (j ∷ js) k w other = elim (Bool-cases (str_eq j.id k)) [
      | inl same ↦ let never = rw same at other in cc
      | inr differs ↦
          let rest = rw differs at other in
          rw (mark_overdue-cons j js w) (
            mark_overdue_spares js k (after_one j w) rest
            ∙ held.spares j.id k (overdue_at (client.now w)) w differs)
    ]

    mark_overdue_marks :
        (js : List (Invoice D)) (k : String) (i : Invoice D) (w : W)
        → IsDistinct js
        → member k (ids js) ≡ true
        → row k w ≡ some i
        → (date : ℕ) × (row k (mark_overdue num client js w).1 ≡ some (marked date i))
    unfolding member
    mark_overdue_marks [] k i w distinct there held_row = cc
    mark_overdue_marks (j ∷ js) k i w (once, distinct) there held_row =
        elim (Bool-cases (str_eq j.id k)) [
          | inl same ↦
              let eq : j.id ≡ k = (eq_iff j.id k).0 same in
              let gone : member k (ids js) ≡ false = rw eq at once in
              let written = held.writes k (overdue_at (client.now w)) w i held_row in
              (
                client.now w,
                rw (mark_overdue-cons j js w) (
                    mark_overdue_spares js k (after_one j w) gone
                    ∙ ap (λ x. row k (client.update_invoice x (overdue_at (client.now w)) w).1) eq
                    ∙ written),
              )
          | inr differs ↦
              let rest = rw differs at there in
              let same_row = held.spares j.id k (overdue_at (client.now w)) w differs in
              rw (mark_overdue-cons j js w)
                (mark_overdue_marks js k i (after_one j w) distinct rest (same_row ∙ held_row))
        ]

    -- Over a database in which a query finds the rows that match it, an update writes its data into its
    -- row and none throws: the run returns how many invoices the query has found, and what becomes of
    -- each invoice depends only on whether it is due, which is pending and past its due date. One that
    -- is due is overdue, with one dunning level more, and any other, an overdue one among them, is
    -- as it was.
    pub process_overdue_invoices_lem :
        (w : W) (id : String) (i : Invoice D)
        → row id w ≡ some i
        → let (r, w') = process_overdue_invoices num client w in
          (r ≡ ok (length (held.found (overdue_before (client.now w)) w)))
          × (is_due (client.now w) i ≡ true → (date : ℕ) × (row id w' ≡ some (marked date i)))
          × (is_due (client.now w) i ≡ false → row id w' ≡ some i)
    unfolding process_overdue_invoices
    process_overdue_invoices_lem w id i there =
        let now = client.now w in
        let js = held.found (overdue_before now) w in
        let exact = held.exact (overdue_before now) w id i there ∙ matches-overdue_before now i in
        rw (held.finds (overdue_before now) w, mark_overdue_succeeds js w)
          (
            refl,
            (λ due.
                mark_overdue_marks js id i w (held.distinct (overdue_before now) w) (exact ∙ due)
                  there),
            (λ not_due. mark_overdue_spares js id w (exact ∙ not_due) ∙ there),
          )
