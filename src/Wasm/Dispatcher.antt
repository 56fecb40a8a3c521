-- ===== src/Wasm/Dispatcher.antt =====
-- x/wasm/keeper/msg_dispatcher.go: the messages that a contract returns are dispatched, each
-- submessage in a cached context, and the contract is called back with the outcome.
pub mod GasLimit
pub mod Revert
pub mod Events
use bignftd.Base.{
  ℕ, ◌+◌, ◌-◌, ◌%◌, ◌^◌, Text, codes, Bool, true, false, not, ◌&&◌, Option, none, some, List, [],
  ◌∷◌, ◌++◌, map, ltb, text_eq, text_lt, if◌then◌else◌,
}
use bignftd.Chain.Outcome.{
  Result, ok, err, panic, Panic, out_of_gas, fatal, Exec, continue, ◌>>=◌, ◌>>◌, pure, raise,
}

-- `sdk.Event`, with its attributes as keys and values.
pub record Event : Type 0 where
  pub kind : Text
  pub attributes : List (Text × Text)

-- `ReplyOn`; `unknown` is any other value of the Go string type.
pub data ReplyOn : Type 0 where
  always on_error on_success never unknown : ReplyOn

-- The values that the dispatcher knows, and the two tests for a submessage with no reply.
abbrev pub is_known : ReplyOn → Bool
is_known unknown = false
is_known _ = true

-- `ReplyOn == ReplyNever || ReplyOn == ReplyError`
abbrev pub skips_success : ReplyOn → Bool
skips_success never = true
skips_success on_error = true
skips_success _ = false

-- `ReplyOn == ReplySuccess || ReplyOn == ReplyNever`
abbrev pub skips_failure : ReplyOn → Bool
skips_failure never = true
skips_failure on_success = true
skips_failure _ = false

-- What the dispatcher calls and the repository's other parts or the SDK implement: the store of a
-- context, the gas meter, the messenger, the reply entry point and the errors.
pub record Host : Type 1 where
  pub Store : Type 0
  pub Meter : Type 0
  pub Error : Type 0
  pub Msg : Type 0
  -- `NewGasMeter`, `Limit`, `GasConsumed` and `ConsumeGas`, which may panic
  pub new_meter : ℕ → Meter
  pub limit : Meter → ℕ
  pub consumed : Meter → ℕ
  pub consume : ℕ → Meter → Option Panic × Meter
  -- errors of this file, and what the redaction asks of an error
  pub out_of_gas_error : Error
  pub invalid_reply_on : Error
  pub wrap_reply : Error → Error
  pub show_error : Error → Text
  pub is_system_error : Error → Bool
  pub is_deterministic : Error → Bool
  pub abci_info : Error → Text
  -- whether the message is one of the wasm module: `msg.Msg.Wasm != nil`
  pub is_wasm : Msg → Bool

-- `sdk.Context`, as far as the dispatcher changes it.
pub record Ctx (host : Host) : Type 0 where
  pub store : host.Store
  pub meter : host.Meter
  pub events : List Event

-- What `DispatchMsg` of the messenger returns.
pub record Response : Type 0 where
  pub events : List Event
  pub response_data : List Text
  pub msg_responses : List (List (Text × Text))

-- `wasmvmtypes.SubMsg`
pub record SubMsg (host : Host) : Type 0 where
  pub id : ℕ
  pub msg : host.Msg
  pub payload : Text
  pub gas_limit : Option ℕ
  pub reply_on : ReplyOn

-- `wasmvmtypes.SubMsgResult`
pub data SubMsgResult : Type 0 where
  success : List Event → Text → List (Text × Text) → SubMsgResult
  failure : Text → SubMsgResult

-- `wasmvmtypes.Reply`
pub record Reply : Type 0 where
  pub id : ℕ
  pub result : SubMsgResult
  pub payload : Text

-- `filterEvents`
unfoldable pub filter_events : List Event → List Event
filter_events [] = []
filter_events (e ∷ events) =
    if text_eq e.kind (codes "message") then filter_events events else e ∷ filter_events events

-- `sort.SliceStable` by the keys, as an insertion that keeps the order of equal keys.
unfoldable pub insert_attribute : Text × Text → List (Text × Text) → List (Text × Text)
insert_attribute a [] = a ∷ []
insert_attribute a (b ∷ rest) =
    if text_lt b.0 a.0 then b ∷ insert_attribute a rest else a ∷ b ∷ rest

unfoldable pub sort_attributes : List (Text × Text) → List (Text × Text)
sort_attributes [] = []
sort_attributes (a ∷ rest) = insert_attribute a (sort_attributes rest)

unfoldable pub sort_event : Event → Event
sort_event e = record e { attributes = sort_attributes e.attributes }

unfoldable pub flatten_responses : List (List (Text × Text)) → List (Text × Text)
flatten_responses [] = []
flatten_responses (r ∷ rest) = r ++ flatten_responses rest

abbrev pub first_data : List Text → Text
first_data [] = []
first_data (d ∷ rest) = d

module _ (host : Host) where
  abbrev pub Action : Type 0 → Type 0
  Action A = Exec host.Error (Ctx host) A

  -- `redactError`
  unfoldable pub redact_error : host.Error → Text
  redact_error e =
      if host.is_system_error e
      then host.show_error e
      else if host.is_deterministic e
      then host.show_error e
      else host.abci_info e

  -- `ctx.GasMeter().ConsumeGas`
  abbrev pub on_meter : Ctx host → Option Panic × host.Meter → Result host.Error Unit × Ctx host
  on_meter c (none, m) = (ok tt, record c { meter = m })
  on_meter c (some p, m) = (panic p, record c { meter = m })

  unfoldable pub consume_gas : ℕ → Action Unit
  consume_gas n c = on_meter c (host.consume n c.meter)

  unfoldable pub emit_events : List Event → Action Unit
  emit_events es c = (ok tt, record c { events = c.events ++ es })

  -- The messenger, and the keeper's `reply`, for the contract that is being served.
  module _ (dispatch_msg : host.Msg → Action Response) (reply : Reply → Action (Option Text)) where
    -- `DispatchMessages`
    unfoldable pub dispatch_messages : List host.Msg → Action Unit
    dispatch_messages [] = pure tt
    dispatch_messages (m ∷ msgs) =
        (dispatch_msg m >>= λ r. emit_events r.events) >> dispatch_messages msgs

    -- The parent's meter is charged what was spent on the meter of the message.
    unfoldable pub charge_parent :
        host.Meter → Result host.Error Response × Ctx host → Result host.Error Response × Ctx host
    charge_parent parent (ok a, sub) =
        (consume_gas (host.consumed sub.meter) >> pure a) (record sub { meter = parent })
    charge_parent parent (err e, sub) =
        (consume_gas (host.consumed sub.meter) >> raise e) (record sub { meter = parent })
    charge_parent parent (panic p, sub) = (panic p, record sub { meter = parent })

    -- The body of `dispatchMsgWithGasLimit` before its deferred function: the message runs on a
    -- meter of its own.
    unfoldable pub dispatch_limited : host.Msg → ℕ → Action Response
    dispatch_limited m gas_limit c =
        charge_parent c.meter (dispatch_msg m (record c { meter = host.new_meter gas_limit }))

    -- The deferred function: an out-of-gas panic becomes an error, for which the parent pays the
    -- whole limit; any other panic goes on.
    unfoldable pub recover_out_of_gas :
        ℕ → Result host.Error Response × Ctx host → Result host.Error Response × Ctx host
    recover_out_of_gas gas_limit (ok a, c) = (ok a, c)
    recover_out_of_gas gas_limit (err e, c) = (err e, c)
    recover_out_of_gas gas_limit (panic fatal, c) = (panic fatal, c)
    recover_out_of_gas gas_limit (panic out_of_gas, c) =
        (consume_gas gas_limit >> raise host.out_of_gas_error) c

    -- `dispatchMsgWithGasLimit`
    unfoldable pub dispatch_msg_with_gas_limit : host.Msg → ℕ → Action Response
    unfolding recover_out_of_gas dispatch_limited
    dispatch_msg_with_gas_limit m gas_limit c =
        recover_out_of_gas gas_limit (dispatch_limited m gas_limit c)

    -- What is left on the meter, in uint64.
    unfoldable pub gas_remaining : host.Meter → ℕ
    gas_remaining m = (host.limit m + 2 ^ 64 - host.consumed m) % 2 ^ 64

    -- A gas limit counts if it is below what is left.
    unfoldable pub dispatch_with_limit : host.Msg → Option ℕ → ℕ → Action Response
    dispatch_with_limit m none remaining = dispatch_msg m
    dispatch_with_limit m (some gas_limit) remaining =
        if ltb gas_limit remaining then dispatch_msg_with_gas_limit m gas_limit else dispatch_msg m

    -- The submessage in a cached context with a new event manager; the gas meter is shared.
    unfoldable pub run_cached : SubMsg host → Ctx host → Result host.Error Response × Ctx host
    run_cached m c =
        dispatch_with_limit m.msg m.gas_limit (gas_remaining c.meter) (record c { events = [] })

    -- The events that a wasm message emits have their attributes sorted: the sorting works in
    -- place, so it is seen in the parent's event manager too.
    abbrev pub order_events : Bool → List Event → List Event
    order_events true es = map sort_event es
    order_events false es = es

    -- The events that the contract is told of: those of a wasm message.
    abbrev pub reply_events : Bool → List Event → List Event
    reply_events true es = map sort_event es
    reply_events false es = []

    -- What the reply returned: its error is wrapped, and its data, if any, takes the place of `rsp`.
    unfoldable pub replied :
        Option Text
        → Result host.Error (Option Text) × Ctx host
        → Result host.Error (Option Text) × Ctx host
    replied rsp (ok none, c) = (ok rsp, c)
    replied rsp (ok (some bz), c) = (ok (some bz), c)
    replied rsp (err e, c) = (err (host.wrap_reply e), c)
    replied rsp (panic p, c) = (panic p, c)

    -- `keeper.reply`
    unfoldable pub call_back : SubMsg host → SubMsgResult → Option Text → Action (Option Text)
    call_back m result rsp c =
        replied rsp (reply (record { id = m.id; result = result; payload = m.payload }) c)

    -- After a submessage that succeeded: the cached store and the events are committed.
    unfoldable pub after_success :
        SubMsg host
        → Option Text
        → Response
        → Ctx host
        → Ctx host
        → Result host.Error (Option Text) × Ctx host
    after_success m rsp response sub c =
        let events = filter_events (sub.events ++ response.events) in
        let committed : Ctx host = record {
          store = sub.store;
          meter = sub.meter;
          events = c.events ++ order_events (host.is_wasm m.msg) events;
        } in
        let result =
          success (reply_events (host.is_wasm m.msg) events) (first_data response.response_data)
            (flatten_responses response.msg_responses) in
        if skips_success m.reply_on then (ok rsp, committed) else call_back m result rsp committed

    -- After a submessage that failed: only the gas is spent.
    unfoldable pub after_failure :
        SubMsg host
        → Option Text
        → host.Error
        → Ctx host
        → Ctx host
        → Result host.Error (Option Text) × Ctx host
    after_failure m rsp e sub c =
        let reverted = record c { meter = sub.meter } in
        if skips_failure m.reply_on
        then (err e, reverted)
        else call_back m (failure (redact_error e)) rsp reverted

    unfoldable pub settle :
        SubMsg host
        → Option Text
        → Result host.Error Response × Ctx host
        → Ctx host
        → Result host.Error (Option Text) × Ctx host
    unfolding after_success after_failure
    settle m rsp (ok response, sub) c = after_success m rsp response sub c
    settle m rsp (err e, sub) c = after_failure m rsp e sub c
    settle m rsp (panic p, sub) c = (panic p, record c { meter = sub.meter })

    -- One round of the loop of `DispatchSubmessages`, with the response data so far.
    unfoldable pub dispatch_submessage : SubMsg host → Option Text → Action (Option Text)
    unfolding settle
    dispatch_submessage m rsp c =
        if is_known m.reply_on
        then settle m rsp (run_cached m c) c
        else (err host.invalid_reply_on, c)

    unfoldable pub submessage_loop : List (SubMsg host) → Option Text → Action (Option Text)
    submessage_loop [] rsp = pure rsp
    submessage_loop (m ∷ msgs) rsp = dispatch_submessage m rsp >>= λ rsp'. submessage_loop msgs rsp'

    -- `DispatchSubmessages`
    unfoldable pub dispatch_submessages : List (SubMsg host) → Action (Option Text)
    dispatch_submessages msgs = submessage_loop msgs none
