-- ===== src/Payment/Simulated.antt =====
-- The payment saga over the helper methods that stand in
-- plugins/payment/src/saga/subscription-payment.saga.ts. They only wait and make up ids, so the payments
-- that stand are read off their calls: `recorded` notes beside the world which payments have
-- succeeded and have not been refunded since, and gives the saga what the methods give.
use Prim.Native.String.{◌++◌ as concat}
use plus_api.Common.{ℕ, String, Bool, true, false, List, [], ◌∷◌, str_eq, if◌then◌else◌}
use plus_api.Common.Result.{Result, ok, err, Async}
use plus_api.Payment.{Payment, Gateway, Simulation, simulated}

unfoldable pub remove_first : String → List String → List String
remove_first id [] = []
remove_first id (p ∷ ps) = let rest = remove_first id ps in if str_eq p id then ps else p ∷ rest

abbrev pub entered : Result Payment → List String → List String
entered (ok p) ps = p.id ∷ ps
entered (err e) ps = ps

abbrev pub removed : Result (Unit {0}) → String → List String → List String
removed (ok _) id ps = remove_first id ps
removed (err e) id ps = ps

module _ {W : Type 0} (g : Gateway W) where
  -- a call that is no payment and no refund
  abbrev pub beside : {A : Type 0} → Async W A → Async (W × List String) A
  beside m (w, ps) = let (r, w') = m w in (r, (w', ps))

  abbrev pub recorded : Gateway (W × List String)
  recorded = record {
    validate_payment_method = λ id. beside (g.validate_payment_method id);
    create_subscription = λ d. beside (g.create_subscription d);
    delete_subscription = λ id. beside (g.delete_subscription id);
    process_payment =
        λ d id s. let (r, w') = g.process_payment d id s.0 in (r, (w', entered r s.1));
    refund_payment = λ id s. let (r, w') = g.refund_payment id s.0 in (r, (w', removed r id s.1));
    generate_invoice = λ s p d. beside (g.generate_invoice s p d);
    cancel_invoice = λ id. beside (g.cancel_invoice id);
    activate_subscription = λ id. beside (g.activate_subscription id);
    deactivate_subscription = λ id. beside (g.deactivate_subscription id);
    elapsed = λ name s. g.elapsed name s.0;
  }

abbrev has_text : String → Bool
has_text String.[] = false
has_text (String.◌∷◌ c s) = true

abbrev pub payments : Simulation × List String → List String
payments s = s.1

module _ (decimal : ℕ → String) where
  abbrev pub helpers : Gateway (Simulation × List String)
  helpers = recorded (simulated decimal)
