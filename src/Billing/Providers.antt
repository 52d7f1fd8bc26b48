-- ===== src/Billing/Providers.antt =====
-- The registry of payment providers: plugins/payment/src/providers/provider.factory.ts. The map and the
-- default provider are the record `Factory`; log output is left out.
use Prim.Native.String.{◌++◌ as concat}
use plus_api.Common.{
  String, Bool, true, false, Option, none, some, List, [], ◌∷◌, if◌then◌else◌, str_eq,
}
use plus_api.Common.Text.{or_text}
use plus_api.Common.Dict.{Dict, insert, lookup}
use plus_api.Common.Result.{Result, ok, err, new_error}
use plus_api.Billing.Types.{Provider}

pub record Factory (N W : Type 0) : Type 0 where
  pub providers : Dict (Provider N W)
  pub default_provider : String

abbrev pub join_names : List String → String
join_names [] = ""
join_names (n ∷ []) = n
join_names (n ∷ m ∷ ns) = concat n (concat ", " (join_names (m ∷ ns)))

module _ {N W : Type 0} (upper : String → String) where
  unfoldable pub register_provider :
      String → Provider N W → Dict (Provider N W) → Dict (Provider N W)
  register_provider name provider m =
      if provider.is_configured then insert (upper name) provider m else m

  unfoldable pub on_module_init :
      Provider N W → Provider N W → Provider N W → Factory N W → Factory N W
  on_module_init stripe paypal sepay f = record f {
    providers =
        register_provider "SEPAY" sepay
          (register_provider "PAYPAL" paypal (register_provider "STRIPE" stripe f.providers));
  }

  abbrev pub get_available_providers : Factory N W → List String
  get_available_providers f = keys f.providers
    where
      keys : Dict (Provider N W) → List String
      keys [] = []
      keys ((k, p) ∷ m) = k ∷ keys m

  abbrev pub found_or_throw : Factory N W → String → Option (Provider N W) → Result (Provider N W)
  found_or_throw f name (some provider) = ok provider
  found_or_throw f name none = err (
      new_error (
        concat "Payment provider '" (
          concat name (
            concat "' is not available. Available providers: "
              (join_names (get_available_providers f))))))

  unfoldable pub get_provider : Factory N W → Option String → Result (Provider N W)
  get_provider f name =
      let provider_name = upper (or_text name f.default_provider) in
      found_or_throw f provider_name (lookup provider_name f.providers)

  pub get_default_provider : Factory N W → Result (Provider N W)
  get_default_provider f = get_provider f (some f.default_provider)

  pub is_provider_available : Factory N W → String → Bool
  is_provider_available f name = is_there (lookup (upper name) f.providers)
    where
      is_there : Option (Provider N W) → Bool
      is_there none = false
      is_there (some p) = true

  unfoldable pub get_provider_by_webhook_path : String → Dict (Provider N W) → Option (Provider N W)
  get_provider_by_webhook_path path [] = none
  get_provider_by_webhook_path path ((k, p) ∷ m) =
      if str_eq p.webhook_path path then some p else get_provider_by_webhook_path path m
