-- ===== src/Tests/Dispatch.antt =====
-- The theorems on the dispatch of submessages at work, on a host whose messages spend gas.
use bignftd.Base.{
  ℕ, ◌+◌, ◌≤◌, refl, Text, codes, true, false, Option, none, some, [], ◌∷◌, leb, leb→le, ◌==◌,
  Bool-cases, inl, inr, arith, if◌then◌else◌,
}
use bignftd.Chain.Outcome.{ok, Panic, out_of_gas, ◌>>◌, pure, raise}
use bignftd.Chain.Keeps.{Keeps-pure}
use bignftd.Wasm.Dispatcher.{
  Host, Ctx, Response, Reply, SubMsg, never, Action, consume_gas, dispatch_msg_with_gas_limit,
  dispatch_submessage, dispatch_submessages,
}
use bignftd.Wasm.Dispatcher.GasLimit.{
  MeterLaws, ReturnsWithin, dispatch_msg_with_gas_limit-ReturnsWithin,
}
use bignftd.Wasm.Dispatcher.Events.{NoMessageEvent, dispatch_submessages-NoMessageEvent}
use bignftd.Wasm.Dispatcher.Revert.{UnchangedOnError, dispatch_submessage-UnchangedOnError}

-- A meter is its limit and what was consumed.
abbrev spend : ℕ → ℕ × ℕ → Option Panic × (ℕ × ℕ)
spend n (l, c) = if leb (c + n) l then (none, (l, c + n)) else (some out_of_gas, (l, c + n))

-- Errors are texts, with one code for all.
abbrev host : Host
host = record {
  Store = ℕ;
  Meter = ℕ × ℕ;
  Error = Text;
  Msg = ℕ;
  new_meter = λ n. (n, 0);
  limit = λ m. m.0;
  consumed = λ m. m.1;
  consume = spend;
  out_of_gas_error = codes "out of gas";
  invalid_reply_on = codes "replyOn value";
  wrap_reply = λ e. e;
  show_error = λ e. e;
  is_system_error = λ e. false;
  is_deterministic = λ e. false;
  abci_info = λ e. codes "codespace: undefined, code: 1";
  is_wasm = λ m. true;
}

meters : MeterLaws host
meters = record {
  limit-new = λ n. refl;
  consume-none = λ n (l, c) m' e. ground arith;
  consume-some = λ n (l, c) m' e. ground arith;
  consume-limit = λ n (l, c). ground arith;
}

abbrev response : Response
response = record {
  events =
      record { kind = codes "message"; attributes = [] }
      ∷ record { kind = codes "moved"; attributes = [] }
      ∷ [];
  response_data = [];
  msg_responses = [];
}

-- The message `n` writes to the store and spends `n` gas; 13 fails after that.
abbrev answer : ℕ → Action host Response
answer n = if n == 13 then raise (codes "unlucky") else pure response

abbrev write : Action host Unit
write c = (ok tt, record c { store = c.store + 1 })

abbrev messenger : host.Msg → Action host Response
messenger n = write >> (consume_gas host n >> answer n)

abbrev silent : Reply → Action host (Option Text)
silent r = pure none

answer-ReturnsWithin :
    (n bound : ℕ) (c : Ctx host) → c.meter.1 ≤ bound → ReturnsWithin host bound (answer n c)
answer-ReturnsWithin n bound c h = elim (Bool-cases (n == 13)) [ inl e ↦ rw e h | inr e ↦ rw e h ]

messenger-ReturnsWithin :
    (n : ℕ) (c : Ctx host) → ReturnsWithin host (host.limit c.meter) (messenger n c)
unfolding consume_gas
messenger-ReturnsWithin n c = elim (Bool-cases (leb (c.meter.1 + n) c.meter.0)) [
  | inl e ↦ rw e (answer-ReturnsWithin n c.meter.0 _ (leb→le (c.meter.1 + n) c.meter.0 e))
  | inr e ↦ rw e tt
]

abbrev start : Ctx host
start = record { store = 7; meter = (100, 10); events = [] }

dispatch_msg_with_gas_limit-ReturnsWithin_example :
    ReturnsWithin host 30 (dispatch_msg_with_gas_limit host messenger silent 15 20 start)
dispatch_msg_with_gas_limit-ReturnsWithin_example =
    dispatch_msg_with_gas_limit-ReturnsWithin host meters messenger silent messenger-ReturnsWithin
      15 20 start

abbrev submessage : ℕ → SubMsg host
submessage n = record { id = 1; msg = n; payload = []; gas_limit = some 20; reply_on = never }

dispatch_submessages-NoMessageEvent_example :
    NoMessageEvent host messenger silent
      (dispatch_submessages host messenger silent (submessage 15 ∷ submessage 13 ∷ []) start).1
dispatch_submessages-NoMessageEvent_example =
    dispatch_submessages-NoMessageEvent host messenger silent (λ r. Keeps-pure none)
      (submessage 15 ∷ submessage 13 ∷ []) start tt

dispatch_submessage-UnchangedOnError_example :
    UnchangedOnError host start
      (dispatch_submessage host messenger silent (submessage 13) none start)
dispatch_submessage-UnchangedOnError_example =
    dispatch_submessage-UnchangedOnError host messenger silent (submessage 13) none start refl
