-- ===== src/Concurrency/SharedState.antt =====
-- concurrency/futures/state.hpp and concurrency/futures/detail/state-inl.hpp: the state that a promise
-- and a future share. One thread calls `set_result`, another `set_callback`; each access to `state_` is
-- a step, and the executor runs later what is submitted to it.
pub mod Laws
use dsac.Prelude.{◌≡◌, ◌≢◌, ◌⊎◌, Bool, true, false, List, [], ◌∷◌, Option, none, some}

-- `enum class state`
pub data State : Type 0 where
  start only_result only_callback done : State

-- where a thread stands in its one call
pub data Pc : Type 0 where
  before : Pc
  emplaced : Pc  -- the result or the callback is stored
  loaded : State → Pc  -- `current_state` is loaded
  storing : Pc  -- before `state_.store(done)`
  calling : Pc  -- before `do_callback`
  returned : Pc
  threw : Pc  -- `shared_state_unexpected_state`, or a failed assertion

pub record SharedState (T : Type 0) : Type 0 where
  pub result : Option T
  pub has_callback_stored : Bool
  pub state : State
  pub producer : Pc
  pub consumer : Pc
  pub executor : Bool  -- whether `executor_` is not null
  pub submitted : List T  -- the arguments of the calls that the executor has still to make
  pub invoked : List T  -- the arguments with which the callback was called

-- a state whose executor, if any, is already set
abbrev pub make : {T : Type 0} → Bool → SharedState T
make executor = record {
  result = none;
  has_callback_stored = false;
  state = start;
  producer = before;
  consumer = before;
  executor = executor;
  submitted = [];
  invoked = [];
}

-- where `set_result` goes after the load of `state_`, unless it may exchange
abbrev pub after_load_producer : State → Pc
after_load_producer only_callback = storing
after_load_producer _ = threw

abbrev pub after_load_consumer : State → Pc
after_load_consumer only_result = storing
after_load_consumer _ = threw

module _ {T : Type 0} where
  unfoldable pub has_result : SharedState T → Bool
  has_result s = elim s.state [ only_result ↦ true | done ↦ true | _ ↦ false ]

  unfoldable pub has_callback : SharedState T → Bool
  has_callback s = elim s.state [ only_callback ↦ true | done ↦ true | _ ↦ false ]

  -- `do_callback` after its assertion: the call of the callback, or its submission to the executor
  abbrev pub called : T → SharedState T → SharedState T
  called x s = elim s.executor [
    | true ↦ record s { submitted = x ∷ s.submitted }
    | false ↦ record s { invoked = x ∷ s.invoked }
  ]

  -- the assertion of `do_callback` fails, or an optional is read that is not set
  abbrev pub CallFails : SharedState T → Type 0
  CallFails s = (s.state ≢ done) ⊎ ((s.result ≡ none) ⊎ (s.has_callback_stored ≡ false))

  pub data Step (v : T) (s : SharedState T) : SharedState T → Type 0 where
    -- `set_result`
    produce :
        s.producer ≡ before
        → has_result s ≡ false
        → Step v s (record s { result = some v; producer = emplaced })
    produce_asserts :
        s.producer ≡ before → has_result s ≡ true → Step v s (record s { producer = threw })
    produce_load : s.producer ≡ emplaced → Step v s (record s { producer = loaded s.state })
    produce_switch :
        {c : State}
        → s.producer ≡ loaded c
        → c ≢ start
        → Step v s (record s { producer = after_load_producer c })
    produce_exchange :
        s.producer ≡ loaded start
        → s.state ≡ start
        → Step v s (record s { state = only_result; producer = returned })
    produce_exchange_fails :
        s.producer ≡ loaded start
        → s.state ≢ start
        → Step v s (record s { producer = after_load_producer s.state })
    produce_store : s.producer ≡ storing → Step v s (record s { state = done; producer = calling })
    produce_call :
        {x : T}
        → s.producer ≡ calling
        → s.state ≡ done
        → s.result ≡ some x
        → s.has_callback_stored ≡ true
        → Step v s (record (called x s) { producer = returned })
    produce_call_fails :
        s.producer ≡ calling → CallFails s → Step v s (record s { producer = threw })
    -- `set_callback`
    consume :
        s.consumer ≡ before
        → has_callback s ≡ false
        → Step v s (record s { has_callback_stored = true; consumer = emplaced })
    consume_asserts :
        s.consumer ≡ before → has_callback s ≡ true → Step v s (record s { consumer = threw })
    consume_load : s.consumer ≡ emplaced → Step v s (record s { consumer = loaded s.state })
    consume_test :
        {c : State}
        → s.consumer ≡ loaded c
        → c ≢ start
        → Step v s (record s { consumer = after_load_consumer c })
    consume_exchange :
        s.consumer ≡ loaded start
        → s.state ≡ start
        → Step v s (record s { state = only_callback; consumer = returned })
    consume_exchange_fails :
        s.consumer ≡ loaded start
        → s.state ≢ start
        → Step v s (record s { consumer = after_load_consumer s.state })
    consume_store : s.consumer ≡ storing → Step v s (record s { state = done; consumer = calling })
    consume_call :
        {x : T}
        → s.consumer ≡ calling
        → s.state ≡ done
        → s.result ≡ some x
        → s.has_callback_stored ≡ true
        → Step v s (record (called x s) { consumer = returned })
    consume_call_fails :
        s.consumer ≡ calling → CallFails s → Step v s (record s { consumer = threw })
    -- a worker of the executor takes the call
    executor_runs :
        {x : T}
        → {rest : List T} → s.submitted ≡ x ∷ rest
        → Step v s (record s { submitted = rest; invoked = x ∷ s.invoked })
