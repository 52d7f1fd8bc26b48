-- ===== src/Checkout/Refunds.antt =====
-- Refunds of one transaction, one after another.
use mathlib.Core.List.{append_assoc, append-nil}
use plus_api.Common.{
  ◌≡◌, refl, sym, ap, ◌∙◌, String, true, Bool-cases, Option, some, List, [], ◌∷◌, ◌++◌, map, ◌⊎◌,
  inl, inr,
}
use plus_api.Common.Result.{Async, ok, ◌>>=◌, Result-cases}
use plus_api.Billing.Types.{
  Numbers, Transaction, TransactionData, NewRefund, RefundDto, Refund, Provider, ShopClient,
}
use plus_api.Billing.Providers.{Factory, get_provider}
use plus_api.Billing.{name_of}
use plus_api.Billing.Rows.{with_transaction}
use plus_api.Checkout.{
  typed_refund, has_succeeded, refund_payment, keep_refund, record_refund, mark_refunded,
  refund_dto, is_full,
}

-- How an action that is made of two ends.
ends-bind :
    {W A B : Type 0} (P : W → Type 0) (m : Async W A) (f : A → Async W B) (w : W)
    → P (m w).1
    → ((a : A) → P (f a (m w).1).1)
    → P ((m >>= f) w).1
ends-bind P m f w now after = elim (Result-cases (m w).0) [
  | inl (a, is) ↦ rw is (after a)
  | inr (e, is) ↦ rw is now
]

module _ {N D W : Type 0} (num : Numbers N D) (client : ShopClient N D W) (factory : Factory N W)
    (id : String) (p : Provider N W) where
  -- `row` is the row of the transaction and `sent` what the provider has been asked to refund.
  pub record HoldsTransaction (row : W → Option (Transaction D)) (sent : W → List (RefundDto N))
      : Type 0 where
    pub finds : (w : W) → client.find_transaction id w ≡ (ok (row w), w)
    pub asks :
        (d : RefundDto N) (w : W)
        → let (r, w') = p.refund_payment d w in (row w' ≡ row w) × (sent w' ≡ sent w ++ d ∷ [])
    pub records :
        (d : NewRefund D) (w : W)
        → let (r, w') = client.create_refund d w in (row w' ≡ row w) × (sent w' ≡ sent w)
    pub retypes :
        (d : TransactionData) (t : Transaction D) (w : W)
        → row w ≡ some t
        → let (r, w') = client.update_transaction id d w in
          ((row w' ≡ some (with_transaction d t)) ⊎ (row w' ≡ some t)) × (sent w' ≡ sent w)

  -- refunds of these amounts and for these reasons, whether they return or throw
  unfoldable pub refund_all : List (Option N × Option String) → W → W
  refund_all [] w = w
  refund_all ((amount, reason) ∷ qs) w =
      refund_all qs (refund_payment num client factory id amount reason w).1

  module _ (row : W → Option (Transaction D)) (sent : W → List (RefundDto N))
      (held : HoldsTransaction row sent) (number : Option String) where
    -- The transaction is there, has succeeded, and `p` is its provider.
    abbrev pub IsRefundable : W → Type 0
    IsRefundable w =
        (t : Transaction D) × (row w ≡ some t)
        × (has_succeeded t.status ≡ true)
        × (t.provider_id ≡ number)
        × (get_provider client.to_upper_case factory (some (name_of t.provider)) ≡ ok p)

    abbrev pub asked : Option N × Option String → RefundDto N
    asked (amount, reason) = record { transaction_id = number; amount = amount; reason = reason }

    abbrev HasSent : List (RefundDto N) → W → Type 0
    HasSent ds w = IsRefundable w × (sent w ≡ ds)

    moves :
        (v w : W) (ds : List (RefundDto N))
        → row v ≡ row w
        → sent v ≡ sent w
        → HasSent ds w
        → HasSent ds v
    moves v w ds same sent_same ((t, there, done, numbered, chosen), all) =
        ((t, same ∙ there, done, numbered, chosen), sent_same ∙ all)

    mark-HasSent :
        (t : Transaction D) (amount : Option N) (w : W) (ds : List (RefundDto N))
        → HasSent ds w
        → HasSent ds (mark_refunded num client id amount t w).1
    mark-HasSent t amount w ds ((u, there, done, numbered, chosen), all) =
        elim (Bool-cases (is_full num client amount t)) [
          | inr part ↦ rw part ((u, there, done, numbered, chosen), all)
          | inl full ↦
              let (written, same) = held.retypes typed_refund u w there in
              rw full (elim written [
                | inl typed ↦
                    ((with_transaction typed_refund u, typed, done, numbered, chosen), same ∙ all)
                | inr kept ↦ ((u, kept, done, numbered, chosen), same ∙ all)
              ])
        ]

    keep-HasSent :
        (t : Transaction D) (amount : Option N) (reason : Option String) (r : Refund N) (w : W)
        (ds : List (RefundDto N))
        → HasSent ds w
        → HasSent ds (keep_refund num client id amount reason t r w).1
    keep-HasSent t amount reason r w ds before =
        let w1 = (record_refund num client t reason r w).1 in
        let (same, sent_same) = held.records _ w in
        let kept = moves w1 w ds same sent_same before in
        ends-bind (HasSent ds) (record_refund num client t reason r) _ w kept (λ refund_id.
          let marked = mark-HasSent t amount w1 ds kept in
          ends-bind (HasSent ds) (mark_refunded num client id amount t) _ w1 marked
            (λ done. marked))

    refund-HasSent :
        (amount : Option N) (reason : Option String) (w : W) (ds : List (RefundDto N))
        → HasSent ds w
        → HasSent
            (ds ++ asked (amount, reason) ∷ [])
            (refund_payment num client factory id amount reason w).1
    unfolding refund_payment
    refund-HasSent amount reason w ds ((t, there, done, numbered, chosen), all) =
        let d = refund_dto num client t amount reason in
        let w1 = (p.refund_payment d w).1 in
        let (same, sent_d) = held.asks d w in
        let now : HasSent (ds ++ asked (amount, reason) ∷ []) w1 = (
          (t, same ∙ there, done, numbered, chosen),
          sent_d
              ∙ ap (λ l. l ++ d ∷ []) all
              ∙ ap (λ n. ds ++ record { transaction_id = n; amount = amount; reason = reason } ∷ [])
                  numbered,
        ) in
        rw (held.finds w, there, done, chosen)
          (ends-bind (HasSent (ds ++ asked (amount, reason) ∷ [])) (p.refund_payment d) _ w now
            (λ r. keep-HasSent t amount reason r w1 _ now))

    -- Each refund of a transaction that has succeeded reaches its provider, whatever has been refunded
    -- of it before: after any number of refunds, full ones among them, the provider has been asked
    -- for all of them in order, and the transaction can be refunded again.
    pub refund_all-IsRefundable :
        (qs : List (Option N × Option String)) (w : W)
        → IsRefundable w
        → let w' = refund_all qs w in IsRefundable w' × (sent w' ≡ sent w ++ map asked qs)
    unfolding refund_all
    refund_all-IsRefundable [] w can = (can, sym (append-nil (sent w)))
    refund_all-IsRefundable ((amount, reason) ∷ qs) w can =
        let w1 = (refund_payment num client factory id amount reason w).1 in
        let (again, grown) = refund-HasSent amount reason w (sent w) (can, refl) in
        let (still, all) = refund_all-IsRefundable qs w1 again in
        (still, all ∙ ap (λ l. l ++ map asked qs) grown ∙ append_assoc (sent w) _ _)
