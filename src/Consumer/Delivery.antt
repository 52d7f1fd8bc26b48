-- ===== src/Consumer/Delivery.antt =====
-- When an offset is committed, and when a message is given back to Kafka.
use plus_api.Common.{
  ℕ, String, ◌≡◌, ◌⊎◌, ◌∙◌, ap, sym, refl, inl, inr, Option, none, some, Bool, true, false,
  if◌then◌else◌, arith,
}
use plus_api.Common.Dict.{Dict, lookup}
use plus_api.Common.Result.{Result, ok, err, Error, Async, settle, pure, throw, ◌>>◌}
use plus_api.Consumer.Attempts.{below_limit, delay}
use plus_api.Consumer.{
  RawMessage, Broker, Handler, get_retry_attempt, parse_value, message_of, commit, dispatch,
  process, parse_result, send_to_dead_letter_queue, retry_or_bury, handle_message,
}

module _ {W : Type 0} where
  after :
      (x : Result (Unit {0}) × W) (next : Async W (Unit {0})) (w : W)
      → settle x.0 (λ _. next) throw x.1 ≡ (ok tt, w)
      → (x ≡ (ok tt, x.1)) × (next x.1 ≡ (ok tt, w))
  after (ok u, w') next w h = (refl, h)
  after (err e, w') next w h = ground arith

  caught :
      (x : Result (Unit {0}) × W) (handle : Error → Async W (Unit {0})) (w : W)
      → settle x.0 pure handle x.1 ≡ (ok tt, w)
      → (x ≡ (ok tt, w)) ⊎ ((e : Error) × (x ≡ (err e, x.1)) × (handle e x.1 ≡ (ok tt, w)))
  caught (ok u, w') handle w h = inl h
  caught (err e, w') handle w h = inr (e, refl, h)

module _ {W : Type 0} where
  spent :
      (b : Bool) (e : Error) (w : W) (x : Result (Unit {0}) × W) (w' : W)
      → (if b then (err e, w) else x) ≡ (ok tt, w')
      → (b ≡ false) × (x ≡ (ok tt, w'))
  spent true e w x w' h = ground arith
  spent false e w x w' h = (refl, h)

parse_result_same : {J W : Type 0} (r : Result J) (w : W) → (parse_result r w).1 ≡ w
parse_result_same (ok j) w = refl
parse_result_same (err e) w = refl

module _ {J W : Type 0} (broker : Broker J W) (handlers : Dict (Handler J W)) (topic : String)
    (partition : ℕ) (m : RawMessage) where
  -- The body was parsed, and the topic's handler, if there is one, has returned in the world `w'`.
  abbrev pub IsHandled : W → W → Type 0
  IsHandled w w' =
      (value : Option J) × (parse_value broker m.value w ≡ (ok value, w))
      × (dispatch (lookup topic handlers) (message_of topic (some partition) m value) w
          ≡ (ok tt, w'))

  -- Processing has failed, the attempts are used up, and `w'` is what the dead-letter queue left.
  abbrev pub IsBuried : W → W → Type 0
  IsBuried w w' =
      (e : Error) × (w'' : W) × (process broker handlers topic partition m w ≡ (err e, w''))
      × (below_limit (get_retry_attempt m) ≡ false)
      × (w' ≡ (send_to_dead_letter_queue broker topic m e (get_retry_attempt m) w'').1)

  parsed :
      (x : Result (Option J) × W) (f : Option J → Async W (Unit {0})) (w : W)
      → settle x.0 f throw x.1 ≡ (ok tt, w)
      → (value : Option J) × (x ≡ (ok value, x.1)) × (f value x.1 ≡ (ok tt, w))
  parsed (ok value, w') f w h = (value, refl, h)
  parsed (err e, w') f w h = ground arith

  parse_value_same : (value : Option String) (w : W) → (parse_value broker value w).1 ≡ w
  parse_value_same none w = refl
  parse_value_same (some text) w = parse_result_same (broker.parse text) w

  processed :
      (w w' : W)
      → process broker handlers topic partition m w ≡ (ok tt, w')
      → (w'' : W) × IsHandled w w'' × (commit broker topic partition m w'' ≡ (ok tt, w'))
  unfolding process
  processed w w' h =
      let (value, is, rest) = parsed (parse_value broker m.value w) _ w' h in
      let same = parse_value_same m.value w in
      let (ran, committed) = after (dispatch (lookup topic handlers) _ _) _ w' rest in
      (
        _,
        (
          value,
          is ∙ ap (λ x. (ok value, x)) same,
          ap (dispatch (lookup topic handlers) _) (sym same) ∙ ran,
        ),
        committed,
      )

  buried :
      (e : Error) (w w' : W)
      → retry_or_bury broker topic partition m (get_retry_attempt m) e w ≡ (ok tt, w')
      → (below_limit (get_retry_attempt m) ≡ false)
        × (commit broker topic partition m
              (send_to_dead_letter_queue broker topic m e (get_retry_attempt m) w).1
            ≡ (ok tt, w'))
  unfolding retry_or_bury
  buried e w w' h =
      let (reached, h') = spent _ _ _ _ _ h in
      (
        reached,
        (after (send_to_dead_letter_queue broker topic m e (get_retry_attempt m) w)
            (commit broker topic partition m) w' h').1,
      )

  -- If `handle_message` returns, its last action was to commit the offset after the message's, with
  -- success; and before that, either the body was parsed and the topic's handler, if any, returned,
  -- or processing failed, the attempts of the message's header were used up, and the message was
  -- given to the dead-letter queue, which may have failed.
  pub handle_message_commits :
      (w w' : W)
      → handle_message broker handlers topic partition m w ≡ (ok tt, w')
      → (w'' : W) × (IsHandled w w'' ⊎ IsBuried w w'')
        × (commit broker topic partition m w'' ≡ (ok tt, w'))
  unfolding handle_message
  handle_message_commits w w' h =
      elim (caught (process broker handlers topic partition m w) _ w' h) [
        | inl done ↦
            let (w'', handled, committed) = processed w w' done in (w'', inl handled, committed)
        | inr failed ↦
            let (e, is, h') = failed in
            let (reached, committed) = buried e _ w' h' in
            (_, inr (e, _, is, reached, refl), committed)
      ]

  -- If processing fails and the message's header tells fewer than three attempts, `handle_message`
  -- waits and throws the same error, and the dead-letter queue and the offset are not touched.
  pub handle_message_retries :
      (w w' : W) (e : Error)
      → process broker handlers topic partition m w ≡ (err e, w')
      → below_limit (get_retry_attempt m) ≡ true
      → handle_message broker handlers topic partition m w
        ≡ (err e, broker.sleep (delay (get_retry_attempt m)) w')
  unfolding handle_message retry_or_bury
  handle_message_retries w w' e failed below =
      ap (λ x. settle x.0 pure (retry_or_bury broker topic partition m (get_retry_attempt m)) x.1)
        failed
      ∙ ap
          (λ b.
            if b
            then (err e, broker.sleep (delay (get_retry_attempt m)) w')
            else (send_to_dead_letter_queue broker topic m e (get_retry_attempt m)
                  >> commit broker topic partition m)
                w')
          below
