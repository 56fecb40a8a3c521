-- ===== src/Wasm/Dispatcher/Revert.antt =====
-- What is left of a submessage that failed, and what the contract learns of it.
use bignftd.Base.{◌≡◌, refl, Text, true, false, Option}
use bignftd.Chain.Outcome.{Result, ok, err, panic}
use bignftd.Wasm.Dispatcher.{
  Host, Ctx, Response, Reply, SubMsg, never, is_known, skips_failure, Action, run_cached,
  after_success, after_failure, settle, dispatch_submessage, redact_error,
}

module _ (host : Host) where
  -- If the call ended with an error, then its state is that of `c` but for the gas.
  abbrev pub UnchangedOnError : {A : Type 0} → Ctx host → Result host.Error A × Ctx host → Type 0
  UnchangedOnError c (ok a, c') = Unit
  UnchangedOnError c (err e, c') = (c'.store ≡ c.store) × (c'.events ≡ c.events)
  UnchangedOnError c (panic p, c') = Unit

  module _ (dispatch_msg : host.Msg → Action host Response)
      (reply : Reply → Action host (Option Text)) where
    settle-never :
        (m : SubMsg host) (rsp : Option Text) (r : Result host.Error Response × Ctx host)
        (c : Ctx host)
        → m.reply_on ≡ never
        → UnchangedOnError c (settle host dispatch_msg reply m rsp r c)
    unfolding settle after_success after_failure
    settle-never m rsp (ok a, sub) c e = rw e tt
    settle-never m rsp (err x, sub) c e = rw e (refl, refl)
    settle-never m rsp (panic p, sub) c e = tt

    -- A submessage that wants no reply and ends with an error leaves the store and the events of
    -- the context as they were, whatever the message did before it failed.
    pub dispatch_submessage-UnchangedOnError :
        (m : SubMsg host) (rsp : Option Text) (c : Ctx host)
        → m.reply_on ≡ never
        → UnchangedOnError c (dispatch_submessage host dispatch_msg reply m rsp c)
    unfolding dispatch_submessage
    dispatch_submessage-UnchangedOnError m rsp c e =
        let known : is_known m.reply_on ≡ true = rw e refl in
        rw known (settle-never m rsp (run_cached host dispatch_msg reply m c) c e)

    -- Two errors that are neither system errors nor deterministic ones, and have the same
    -- codespace and code, cannot be told apart by a contract that is called back: the dispatch
    -- goes on in the same way.
    pub settle_redacts :
        (m : SubMsg host) (rsp : Option Text) (e e' : host.Error) (sub c : Ctx host)
        → skips_failure m.reply_on ≡ false
        → host.is_system_error e ≡ false
        → host.is_system_error e' ≡ false
        → host.is_deterministic e ≡ false
        → host.is_deterministic e' ≡ false
        → host.abci_info e ≡ host.abci_info e'
        → settle host dispatch_msg reply m rsp (err e, sub) c
          ≡ settle host dispatch_msg reply m rsp (err e', sub) c
    unfolding settle after_failure redact_error
    settle_redacts m rsp e e' sub c asks s s' d d' same = rw (asks, s, s', d, d', same) refl
