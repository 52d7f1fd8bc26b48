-- ===== src/Saga/Publisher/Flat.antt =====
-- The publisher against a plain list of subscriptions in the order in which they were made.
use plus_api.Common.{
  ◌≡◌, ◌∙◌, refl, sym, ap, inl, inr, Bool, not, List, [], ◌∷◌, ◌++◌, str_eq, eq_iff, arith,
  Bool-cases, if◌then◌else◌,
}
use plus_api.Common.Lists.{keep}
use plus_api.Common.Dict.{lookup, lookup-erase}
use plus_api.Common.Dict.Multi.{list_or_empty, lookup-push_at}
use plus_api.Common.Result.{Result, ok}
use plus_api.Saga.Types.{SagaEvent, SagaEventType}
use plus_api.Saga.Publisher.{
  event_key, Handler, Handlers, list_or_empty, call_each, publish, subscribe, unsubscribe,
  clear_all,
}

pub data Command (V W : Type 0) : Type 0 where
  subscribed : SagaEventType → Handler V W → Command V W
  unsubscribed : SagaEventType → Command V W
  cleared : Command V W
  published : SagaEvent V → Command V W

-- what the callers see: how each call settled, and the world
abbrev pub Seen : Type 0 → Type 0
Seen W = List (Result (Unit {0})) × W

-- Subscriptions as a list, the oldest first.
abbrev pub Flat : Type 0 → Type 0 → Type 0
Flat V W = List (SagaEventType × Handler V W)

abbrev also : {W : Type 0} → Result (Unit {0}) → Seen W → Seen W
also r (rs, w) = (r ∷ rs, w)

module _ {V W : Type 0} where
  -- a sequence of calls of the publisher
  unfoldable pub run : List (Command V W) → Handlers V W → W → Seen W
  run [] m w = ([], w)
  run (subscribed type h ∷ cs) m w = also (ok tt) (run cs (subscribe type h m) w)
  run (unsubscribed type ∷ cs) m w = also (ok tt) (run cs (unsubscribe type m) w)
  run (cleared ∷ cs) m w = also (ok tt) (run cs (clear_all m) w)
  run (published event ∷ cs) m w = let (result, w') = publish event m w in also result (run cs m w')

  abbrev pub is_of : SagaEventType → SagaEventType × Handler V W → Bool
  is_of type s = str_eq (event_key s.0) (event_key type)

  -- the handlers of an event type
  unfoldable pub handlers_of : SagaEventType → Flat V W → List (Handler V W)
  handlers_of type [] = []
  handlers_of type ((t, h) ∷ l) =
      if is_of type (t, h) then h ∷ handlers_of type l else handlers_of type l

  -- the same sequence of calls, on such a list
  unfoldable pub run_flat : List (Command V W) → Flat V W → W → Seen W
  unfolding handlers_of keep event_key call_each
  run_flat [] l w = ([], w)
  run_flat (subscribed type h ∷ cs) l w = also (ok tt) (run_flat cs (l ++ (type, h) ∷ []) w)
  run_flat (unsubscribed type ∷ cs) l w =
      also (ok tt) (run_flat cs (keep (λ s. not (is_of type s)) l) w)
  run_flat (cleared ∷ cs) l w = also (ok tt) (run_flat cs [] w)
  run_flat (published event ∷ cs) l w =
      let (result, w') = call_each (handlers_of event.event_type l) event w in
      also result (run_flat cs l w')

  -- The map and the list hold the same handlers of every type, in the same order.
  Agree : Handlers V W → Flat V W → Type 0
  Agree m l =
      (type : SagaEventType) → list_or_empty (lookup (event_key type) m) ≡ handlers_of type l

  handlers_of-append :
      (type : SagaEventType) (l k : Flat V W)
      → handlers_of type (l ++ k) ≡ handlers_of type l ++ handlers_of type k
  unfolding handlers_of
  handlers_of-append type [] k = refl
  handlers_of-append type ((t, h) ∷ l) k = elim (Bool-cases (is_of type (t, h))) [
    | inl e ↦ rw e (ap (λ x. h ∷ x) (handlers_of-append type l k))
    | inr e ↦ rw e (handlers_of-append type l k)
  ]

  handlers_of-keep :
      (type other : SagaEventType) (l : Flat V W)
      → handlers_of type (keep (λ s. not (is_of other s)) l)
        ≡ (if str_eq (event_key other) (event_key type) then [] else handlers_of type l)
  unfolding handlers_of keep
  handlers_of-keep type other [] = ground arith
  handlers_of-keep type other ((t, h) ∷ l) = ground (
    arith,
    handlers_of-keep type other l,
    eq_iff (event_key t) (event_key other),
    eq_iff (event_key t) (event_key type),
    eq_iff (event_key other) (event_key type),
  )

  subscribe-Agree :
      (type : SagaEventType) (h : Handler V W) (m : Handlers V W) (l : Flat V W)
      → Agree m l
      → Agree (subscribe type h m) (l ++ (type, h) ∷ [])
  unfolding Agree subscribe handlers_of
  subscribe-Agree type h m l agree t =
      lookup-push_at (event_key type) (event_key t) h m
      ∙ ap (λ x. x ++ (if str_eq (event_key type) (event_key t) then h ∷ [] else [])) (agree t)
      ∙ sym (handlers_of-append t l ((type, h) ∷ []))

  unsubscribe-Agree :
      (type : SagaEventType) (m : Handlers V W) (l : Flat V W)
      → Agree m l
      → Agree (unsubscribe type m) (keep (λ s. not (is_of type s)) l)
  unfolding Agree unsubscribe
  unsubscribe-Agree type m l agree t =
      ground
        (arith, lookup-erase (event_key type) (event_key t) m, handlers_of-keep t type l, agree t)

  no_handlers-Agree : (m : Handlers V W) → Agree (clear_all m) []
  unfolding Agree clear_all handlers_of lookup
  no_handlers-Agree m t = refl

  call_agrees :
      (event : SagaEvent V) (m : Handlers V W) (l : Flat V W) (w : W)
      → Agree m l
      → publish event m w ≡ call_each (handlers_of event.event_type l) event w
  unfolding Agree publish
  call_agrees event m l w agree = ap (λ hs. call_each hs event w) (agree event.event_type)

  run_agrees :
      (cs : List (Command V W)) (m : Handlers V W) (l : Flat V W) (w : W)
      → Agree m l
      → run cs m w ≡ run_flat cs l w
  unfolding run run_flat
  run_agrees [] m l w agree = refl
  run_agrees (subscribed type h ∷ cs) m l w agree =
      ap (also (ok tt)) (run_agrees cs _ _ w (subscribe-Agree type h m l agree))
  run_agrees (unsubscribed type ∷ cs) m l w agree =
      ap (also (ok tt)) (run_agrees cs _ _ w (unsubscribe-Agree type m l agree))
  run_agrees (cleared ∷ cs) m l w agree =
      ap (also (ok tt)) (run_agrees cs _ _ w (no_handlers-Agree m))
  run_agrees (published event ∷ cs) m l w agree =
      let same : publish event m w ≡ call_each (handlers_of event.event_type l) event w =
        call_agrees event m l w agree in
      ap (λ x. also x.0 (run cs m x.1)) same ∙ ap (also _) (run_agrees cs m l _ agree)

  -- Whatever is subscribed, unsubscribed, cleared and published in whatever order: the calls settle,
  -- and the world ends, as if the publisher kept one list of subscriptions and called, at each
  -- event, those of its type, the oldest first, up to the first one that throws in the call itself.
  pub run-run_flat : (cs : List (Command V W)) (w : W) → run cs [] w ≡ run_flat cs [] w
  unfolding clear_all
  run-run_flat cs w = run_agrees cs [] [] w (no_handlers-Agree [])
