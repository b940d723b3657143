-- ===== src/Concurrency/SharedState/Laws.antt =====
-- concurrency/futures/detail/state-inl.hpp: the callback is called exactly once, with the result.
use dsac.Prelude.{
  ◌≡◌, ◌≢◌, refl, Bool, true, false, ◌&&◌, [], ◌∷◌, some, arith, ◌⊎◌, inl, inr, Bool-cases,
}
use dsac.Concurrency.Run.{Reach, Reach-invariant}
use dsac.Concurrency.SharedState.{
  SharedState, State, start, only_result, only_callback, done, Pc, before, emplaced, loaded,
  storing, calling, returned, threw, Step, make, has_result, has_callback, called, produce,
  produce_asserts, produce_load, produce_switch, produce_exchange, produce_exchange_fails,
  produce_store, produce_call, consume, consume_asserts, consume_load, consume_test,
  consume_exchange, consume_exchange_fails, consume_store, consume_call, produce_call_fails,
  consume_call_fails, executor_runs,
}

State-discrete : Discrete State
State-discrete = hlevel

-- the other thread is first, or nobody has exchanged yet
is_early : Pc → Bool
is_early before = true
is_early emplaced = true
is_early (loaded start) = true
is_early _ = false

-- second at a word `only_callback` (a producer) or `only_result` (a consumer)
is_second_producer : Pc → Bool
unfolding is_early
is_second_producer (loaded only_callback) = true
is_second_producer storing = true
is_second_producer p = is_early p

is_second_consumer : Pc → Bool
unfolding is_early
is_second_consumer (loaded only_result) = true
is_second_consumer storing = true
is_second_consumer p = is_early p

is_finishing : Pc → Bool
is_finishing calling = true
is_finishing returned = true
is_finishing _ = false

is_returned : Pc → Bool
is_returned returned = true
is_returned _ = false

is_before : Pc → Bool
is_before before = true
is_before _ = false

-- where the two threads may stand at a word
may_stand : State → Pc → Pc → Bool
unfolding is_early is_second_producer is_second_consumer is_finishing is_returned
may_stand start p c = is_early p && is_early c
may_stand only_result p c = is_returned p && is_second_consumer c
may_stand only_callback p c = is_second_producer p && is_returned c
may_stand done calling returned = true
may_stand done returned calling = true
may_stand done returned returned = true
may_stand done _ _ = false

both_returned : State → Pc → Pc → Bool
unfolding is_returned
both_returned done p c = is_returned p && is_returned c
both_returned _ p c = false

module _ {T : Type 0} (v : T) where
  -- once both calls have returned: the callback ran, or the executor has still to run it
  HasCalled : SharedState T → Type 0
  HasCalled s =
      ((s.invoked ≡ v ∷ []) × (s.submitted ≡ []))
      ⊎ ((s.executor ≡ true) × (s.submitted ≡ v ∷ []) × (s.invoked ≡ []))

  record IsValid (s : SharedState T) : Type 0 where
    stand : may_stand s.state s.producer s.consumer ≡ true
    calls_none : both_returned s.state s.producer s.consumer ≡ false → s.invoked ≡ []
    submits_none : both_returned s.state s.producer s.consumer ≡ false → s.submitted ≡ []
    calls_once : both_returned s.state s.producer s.consumer ≡ true → HasCalled s
    result_set : is_before s.producer ≡ false → s.result ≡ some v
    callback_set : is_before s.consumer ≡ false → s.has_callback_stored ≡ true

  Step-IsValid : (s t : SharedState T) → Step v s t → IsValid s → IsValid t
  unfolding has_result has_callback may_stand both_returned is_before HasCalled
  Step-IsValid s _ (produce e n) h = ground arith
  Step-IsValid s _ (produce_asserts e n) h = ground arith
  Step-IsValid s _ (produce_load e) h = ground arith
  Step-IsValid s _ (produce_switch e n) h = ground arith
  Step-IsValid s _ (produce_exchange e f) h = ground arith
  Step-IsValid s _ (produce_exchange_fails e f) h = ground arith
  Step-IsValid s _ (produce_store e) h = ground arith
  Step-IsValid s _ (produce_call e d f g) h = ground arith
  Step-IsValid s _ (produce_call_fails e f) h = ground arith
  Step-IsValid s _ (executor_runs e) h = ground arith
  Step-IsValid s _ (consume_call_fails e f) h = ground arith
  Step-IsValid s _ (consume e n) h = ground arith
  Step-IsValid s _ (consume_asserts e n) h = ground arith
  Step-IsValid s _ (consume_load e) h = ground arith
  Step-IsValid s _ (consume_test e n) h = ground arith
  Step-IsValid s _ (consume_exchange e f) h = ground arith
  Step-IsValid s _ (consume_exchange_fails e f) h = ground arith
  Step-IsValid s _ (consume_store e) h = ground arith
  Step-IsValid s _ (consume_call e d f g) h = ground arith

  Reach-IsValid :
      {executor : Bool} {s : SharedState T} → Reach (Step v) (make executor) s → IsValid s
  unfolding may_stand both_returned is_before
  Reach-IsValid r = Reach-invariant IsValid Step-IsValid r (ground arith)

  -- In every interleaving of one `set_result`, one `set_callback` and the executor, if there is one: neither call
  -- throws, fails an assertion or reads an optional that is not set; the callback has been called at most once, with
  -- the result; and once both have returned, it has been called exactly once with the result, or it is the one call
  -- that the executor has still to make.
  pub callback_called_once :
      {executor : Bool} {s : SharedState T}
      → Reach (Step v) (make executor) s
      → (s.producer ≢ threw)
        × (s.consumer ≢ threw)
        × ((s.invoked ≡ []) ⊎ (s.invoked ≡ v ∷ []))
        × (s.producer ≡ returned
            → s.consumer ≡ returned
            → ((s.invoked ≡ v ∷ []) × (s.submitted ≡ []))
              ⊎ ((s.executor ≡ true) × (s.submitted ≡ v ∷ []) × (s.invoked ≡ [])))
  unfolding may_stand both_returned HasCalled
  callback_called_once r =
      let h = Reach-IsValid r in (ground arith, ground arith, ground arith, λ p c. ground arith)

  called-pc :
      (x : T) (s : SharedState T)
      → ((called x s).consumer ≡ s.consumer) × ((called x s).producer ≡ s.producer)
  called-pc x s = elim (Bool-cases s.executor) [
    | inl e ↦ ground (arith, e)
    | inr e ↦ ground (arith, e)
  ]

  producer_next :
      (s : SharedState T) (p : Pc)
      → s.producer ≡ p
      → IsValid s
      → p ≢ returned
      → (t : SharedState T) × Step v s t × (t.consumer ≡ s.consumer)
  unfolding has_result may_stand is_before
  producer_next s before e h n = (_, produce e (ground arith), refl)
  producer_next s emplaced e h n = (_, produce_load e, refl)
  producer_next s (loaded start) e h n = elim (State-discrete s.state start) [
    | yes f ↦ (_, produce_exchange e f, refl)
    | no f ↦ (_, produce_exchange_fails e f, refl)
  ]
  producer_next s (loaded only_result) e h n = (_, produce_switch e (λ q. cc), refl)
  producer_next s (loaded only_callback) e h n = (_, produce_switch e (λ q. cc), refl)
  producer_next s (loaded done) e h n = (_, produce_switch e (λ q. cc), refl)
  producer_next s storing e h n = (_, produce_store e, refl)
  producer_next s calling e h n =
      (_, produce_call {x = v} e (ground arith) (ground arith) (ground arith), (called-pc v s).0)
  producer_next s returned e h n = absurd (n refl)
  producer_next s threw e h n = absurd (ground arith)

  consumer_next :
      (s : SharedState T) (c : Pc)
      → s.consumer ≡ c
      → IsValid s
      → c ≢ returned
      → (t : SharedState T) × Step v s t × (t.producer ≡ s.producer)
  unfolding has_callback may_stand is_before
  consumer_next s before e h n = (_, consume e (ground arith), refl)
  consumer_next s emplaced e h n = (_, consume_load e, refl)
  consumer_next s (loaded start) e h n = elim (State-discrete s.state start) [
    | yes f ↦ (_, consume_exchange e f, refl)
    | no f ↦ (_, consume_exchange_fails e f, refl)
  ]
  consumer_next s (loaded only_result) e h n = (_, consume_test e (λ q. cc), refl)
  consumer_next s (loaded only_callback) e h n = (_, consume_test e (λ q. cc), refl)
  consumer_next s (loaded done) e h n = (_, consume_test e (λ q. cc), refl)
  consumer_next s storing e h n = (_, consume_store e, refl)
  consumer_next s calling e h n =
      (_, consume_call {x = v} e (ground arith) (ground arith) (ground arith), (called-pc v s).1)
  consumer_next s returned e h n = absurd (n refl)
  consumer_next s threw e h n = absurd (ground arith)

  -- Neither thread waits for the other: in every reachable state, each has a next step until its call
  -- has returned.
  no_stuck_call :
      {executor : Bool} {s : SharedState T}
      → Reach (Step v) (make executor) s
      → (s.producer ≢ returned → (t : SharedState T) × Step v s t × (t.consumer ≡ s.consumer))
        × (s.consumer ≢ returned → (t : SharedState T) × Step v s t × (t.producer ≡ s.producer))
  no_stuck_call {executor} {s} r =
      let h = Reach-IsValid r in
      (producer_next s s.producer refl h, consumer_next s s.consumer refl h)
