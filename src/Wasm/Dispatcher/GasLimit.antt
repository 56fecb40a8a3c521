-- ===== src/Wasm/Dispatcher/GasLimit.antt =====
-- A gas limit on a submessage (`dispatchMsgWithGasLimit`) bounds what the parent pays.
use bignftd.Base.{ℕ, ◌+◌, ◌≤◌, ◌<◌, ◌≡◌, refl, ap, Option, none, some, arith, Text}
use bignftd.Chain.Outcome.{Result, ok, err, panic, Panic, out_of_gas, fatal, pure, raise, continue}
use bignftd.Wasm.Dispatcher.{
  Host, Ctx, Response, Reply, Action, on_meter, consume_gas, charge_parent, dispatch_limited,
  recover_out_of_gas, dispatch_msg_with_gas_limit,
}

-- The SDK's meters: consuming adds up, and panics with out-of-gas past the limit.
pub record MeterLaws (host : Host) : Type 0 where
  pub limit-new : (n : ℕ) → host.limit (host.new_meter n) ≡ n
  pub consume-none :
      (n : ℕ) (m m' : host.Meter)
      → host.consume n m ≡ (none, m')
      → (host.consumed m' ≡ host.consumed m + n) × (host.consumed m' ≤ host.limit m')
  pub consume-some :
      (n : ℕ) (m m' : host.Meter)
      → host.consume n m ≡ (some out_of_gas, m')
      → host.limit m' < host.consumed m'
  pub consume-limit : (n : ℕ) (m : host.Meter) → host.limit (host.consume n m).1 ≡ host.limit m

-- A call that returns has consumed no more than `bound` on its meter.
abbrev pub ReturnsWithin : {E A : Type 0} → (host : Host) → ℕ → Result E A × Ctx host → Type 0
ReturnsWithin host bound (ok a, c) = host.consumed c.meter ≤ bound
ReturnsWithin host bound (err e, c) = host.consumed c.meter ≤ bound
ReturnsWithin host bound (panic p, c) = Unit

module _ (host : Host) (laws : MeterLaws host) where
  module _ (dispatch_msg : host.Msg → Action host Response)
      (reply : Reply → Action host (Option Text)) where
    -- The deferred function after an out-of-gas panic.
    pays_limit :
        (gas_limit : ℕ) (c : Ctx host) (o : Option Panic × host.Meter)
        → host.consume gas_limit c.meter ≡ o
        → ReturnsWithin host
            (host.consumed c.meter + gas_limit)
            (continue (on_meter host c o) (λ _. raise {A = Response} host.out_of_gas_error))
    pays_limit gas_limit c (none, m') e = omega (arith, laws.consume-none gas_limit c.meter m' e)
    pays_limit gas_limit c (some p, m') e = tt

    -- On a meter that has passed its limit, the charge panics again.
    pays_past_limit :
        (gas_limit bound : ℕ) (c : Ctx host) (o : Option Panic × host.Meter)
        → host.limit c.meter < host.consumed c.meter
        → host.consume gas_limit c.meter ≡ o
        → ReturnsWithin host bound
            (continue (on_meter host c o) (λ _. raise {A = Response} host.out_of_gas_error))
    pays_past_limit gas_limit bound c (none, m') past e =
        let same : host.limit (host.consume gas_limit c.meter).1 ≡ host.limit m' =
          ap (λ (x : Option Panic × host.Meter). host.limit x.1) e in
        omega (
          arith,
          laws.consume-none gas_limit c.meter m' e,
          laws.consume-limit gas_limit c.meter,
          same,
        )
    pays_past_limit gas_limit bound c (some p, m') past e = tt

    -- What the parent pays for a message that spent no more than the limit.
    pays_spent :
        (gas_limit spent : ℕ) (c : Ctx host) (k : Action host Response)
        (o : Option Panic × host.Meter)
        → spent ≤ gas_limit
        → ((c' : Ctx host)
            → host.consumed c'.meter ≤ host.consumed c.meter + gas_limit
            → ReturnsWithin host
                (host.consumed c.meter + gas_limit)
                (recover_out_of_gas host dispatch_msg reply gas_limit (k c')))
        → host.consume spent c.meter ≡ o
        → ReturnsWithin host (host.consumed c.meter + gas_limit) (
            recover_out_of_gas host dispatch_msg reply gas_limit
              (continue (on_meter host c o) (λ _. k)))
    unfolding recover_out_of_gas consume_gas
    pays_spent gas_limit spent c k (none, m') le h e =
        h (record c { meter = m' }) (omega (arith, laws.consume-none spent c.meter m' e))
    pays_spent gas_limit spent c k (some fatal, m') le h e = tt
    pays_spent gas_limit spent c k (some out_of_gas, m') le h e =
        pays_past_limit gas_limit (host.consumed c.meter + gas_limit) (record c { meter = m' })
          (host.consume gas_limit m') (laws.consume-some spent c.meter m' e) refl

    charged :
        (gas_limit : ℕ) (c : Ctx host) (r : Result host.Error Response × Ctx host)
        → ReturnsWithin host gas_limit r
        → ReturnsWithin host (host.consumed c.meter + gas_limit) (
            recover_out_of_gas host dispatch_msg reply gas_limit
              (charge_parent host dispatch_msg reply c.meter r))
    unfolding recover_out_of_gas charge_parent consume_gas
    charged gas_limit c (ok a, sub) h =
        pays_spent gas_limit (host.consumed sub.meter) (record sub { meter = c.meter }) (pure a)
          (host.consume (host.consumed sub.meter) c.meter) h (λ c' b. b) refl
    charged gas_limit c (err e, sub) h =
        pays_spent gas_limit (host.consumed sub.meter) (record sub { meter = c.meter }) (raise e)
          (host.consume (host.consumed sub.meter) c.meter) h (λ c' b. b) refl
    charged gas_limit c (panic fatal, sub) h = tt
    charged gas_limit c (panic out_of_gas, sub) h =
        pays_limit gas_limit (record sub { meter = c.meter }) (host.consume gas_limit c.meter) refl

    -- If a message that returns has spent no more than the limit of its meter, then a call with a
    -- gas limit that returns, with a value or an error, has charged the parent's meter no more
    -- than the gas limit.
    pub dispatch_msg_with_gas_limit-ReturnsWithin :
        ((m : host.Msg) (c : Ctx host) → ReturnsWithin host (host.limit c.meter) (dispatch_msg m c))
        → (m : host.Msg) (gas_limit : ℕ) (c : Ctx host)
        → ReturnsWithin host
            (host.consumed c.meter + gas_limit)
            (dispatch_msg_with_gas_limit host dispatch_msg reply m gas_limit c)
    unfolding dispatch_msg_with_gas_limit dispatch_limited
    dispatch_msg_with_gas_limit-ReturnsWithin bounded m gas_limit c =
        let start : Ctx host = record c { meter = host.new_meter gas_limit } in
        let within : ReturnsWithin host gas_limit (dispatch_msg m start) =
          rw (laws.limit-new gas_limit) at (bounded m start) in
        charged gas_limit c (dispatch_msg m start) within
