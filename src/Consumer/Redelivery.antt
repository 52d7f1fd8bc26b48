-- ===== src/Consumer/Redelivery.antt =====
-- Kafka delivers a message again, as it was, after a delivery that threw.
use plus_api.Common.{ℕ, zero, suc, String, ◌≡◌, ◌∙◌, ap, none}
use plus_api.Common.Dict.{Dict, lookup}
use plus_api.Common.Result.{err, Error, Async, settle, pure}
use plus_api.Consumer.Attempts.{below_limit}
use plus_api.Consumer.{RawMessage, Broker, Handler, retry_attempt_of, process, handle_message}
use plus_api.Consumer.Delivery.{handle_message_retries}

module _ {J W : Type 0} (broker : Broker J W) (handlers : Dict (Handler J W)) (topic : String)
    (partition : ℕ) (m : RawMessage) where
  -- a delivery, and up to `n` more while they throw
  abbrev pub deliveries : ℕ → Async W (Unit {0})
  deliveries zero w = handle_message broker handlers topic partition m w
  deliveries (suc n) w =
      let (r, w') = handle_message broker handlers topic partition m w in
      settle r pure (λ e. deliveries n) w'

  module _ {O : Type 0} (observe : W → O) where
    failing :
        ((w : W)
          → (e : Error) × (w' : W) × (process broker handlers topic partition m w ≡ (err e, w'))
            × (observe w' ≡ observe w))
        → ((ms : ℕ) (w : W) → observe (broker.sleep ms w) ≡ observe w)
        → lookup "x-retry-count" m.headers ≡ none
        → (w : W)
        → (e : Error) × (w' : W) × (handle_message broker handlers topic partition m w
            ≡ (err e, w'))
          × (observe w' ≡ observe w)
    failing fails waits plain w =
        let (e, w', failed, same) = fails w in
        let first = ap retry_attempt_of plain in
        (
          e,
          _,
          handle_message_retries broker handlers topic partition m w w' e failed
              (ap below_limit first),
          waits _ w' ∙ same,
        )

    -- A message without the header `x-retry-count`, whose processing always fails and, like waiting,
    -- is not seen by an observer, is delivered any number of times without the observer seeing
    -- anything: an observer of the dead-letter topic or of the commits sees none of this message.
    pub deliveries_unseen :
        ((w : W)
          → (e : Error) × (w' : W) × (process broker handlers topic partition m w ≡ (err e, w'))
            × (observe w' ≡ observe w))
        → ((ms : ℕ) (w : W) → observe (broker.sleep ms w) ≡ observe w)
        → lookup "x-retry-count" m.headers ≡ none
        → (n : ℕ) (w : W)
        → (e : Error) × (w' : W) × (deliveries n w ≡ (err e, w')) × (observe w' ≡ observe w)
    deliveries_unseen fails waits plain zero w = failing fails waits plain w
    deliveries_unseen fails waits plain (suc n) w =
        let (e, w', failed, same) = failing fails waits plain w in
        let (e', w'', again, unseen) = deliveries_unseen fails waits plain n w' in
        (e', w'', ap (λ x. settle x.0 pure (λ e. deliveries n) x.1) failed ∙ again, unseen ∙ same)
