-- ===== src/Wasm/Grants/Accept/Passing.antt =====
-- A message that a grant of a valid authorization is for is accepted.
use bignftd.Base.{
  ◌≡◌, ◌≢◌, refl, true, false, List, [], ◌∷◌, ◌++◌, All, append_assoc, length, ◌==◌, text_eq_ne,
  text_eq_iff, some, none, Text, Bool, not, if◌then◌else◌, arith,
}
use bignftd.Chain.Outcome.{Result, ok, ◌>>◌, ◌>>=◌, pure}
use bignftd.Chain.Checks.{require}
use bignftd.Wasm.Access.Validation.{AccessError}
use bignftd.Wasm.Messages.{Formats}
use bignftd.Wasm.Keeper.Platform.{Platform}
use bignftd.Wasm.Grants.{
  GrantFormats, ContractGrant, LimitResult, get_limit, get_filter, accept_limit, validate_grants,
  validate_each_grant, empty,
}
use bignftd.Wasm.Grants.Accept.{
  AuthzMsg, WasmCall, Operation, ContractAuthorization, AcceptResponse, unwrap, accept_filter,
  filtered, Metered, or_failed, try_grant, accept_grants, accept_granted_message,
}
use bignftd.Wasm.Grants.Accept.ValidLimits.{ValidCoinLaws}
use bignftd.Wasm.Grants.Accept.Progress.{both, each, Accepts, settle_grant-Accepts}

module _ (platform : Platform) (formats : Formats) (grant_formats : GrantFormats)
    (laws : ValidCoinLaws formats grant_formats) where
  -- The grant is for the call, and limit and filter let it pass with the gas that is left.
  pub record Fits (g : ContractGrant) (call : WasmCall) (meter meter' : platform.Meter)
      : Type 0 where
    pub result : LimitResult
    pub same_contract : g.contract ≡ call.contract
    pub within_limit :
        accept_limit platform.texts formats grant_formats (get_limit g) call.funds ≡ ok result
    pub is_accepted : result.accepted ≡ true
    pub passes_filter :
        accept_filter platform formats grant_formats (get_filter g) call.payload meter
        ≡ (ok true, meter')

  -- The grants of other contracts
  abbrev pub AreOthers : Text → List ContractGrant → Type 0
  AreOthers contract = All (λ g. g.contract ≢ contract)

  try_grant-Fits :
      (g : ContractGrant) (call : WasmCall) (meter meter' : platform.Meter)
      (fits : Fits g call meter meter')
      → try_grant platform formats grant_formats g call meter ≡ (ok (some fits.result), meter')
  unfolding try_grant
  try_grant-Fits g call meter meter' fits =
      let same = (text_eq_iff g.contract call.contract).1 fits.same_contract in
      rw (same, fits.within_limit) (checked fits.result.accepted fits.is_accepted)
    where
      checked :
          (b : Bool)
          → b ≡ true
          → (if not b
                then pure none
                else accept_filter platform formats grant_formats (get_filter g) call.payload
                  >>= filtered platform formats grant_formats fits.result)
              meter
            ≡ (ok (some fits.result), meter')
      checked b e = rw (e, fits.passes_filter) refl

  accept_grants-Accepts :
      (op : Operation) (skipped before : List ContractGrant) (g : ContractGrant)
      (after : List ContractGrant) (call : WasmCall) (meter meter' : platform.Meter)
      → each platform formats grant_formats laws (skipped ++ (before ++ g ∷ after)) ≡ ok tt
      → AreOthers call.contract before
      → Fits g call meter meter'
      → Accepts platform formats grant_formats laws
          (accept_grants platform formats grant_formats op skipped (before ++ g ∷ after) call meter)
          meter'
  unfolding accept_grants try_grant
  accept_grants-Accepts op skipped [] g after call meter meter' valid others fits =
      rw (try_grant-Fits g call meter meter' fits) (
        settle_grant-Accepts platform formats grant_formats laws op skipped g after call.funds
          fits.result meter' valid fits.within_limit)
  accept_grants-Accepts op skipped (b ∷ before) g after call meter meter' valid (other, others)
        fits =
      rw (text_eq_ne b.contract call.contract other) (
        accept_grants-Accepts op (skipped ++ b ∷ []) before g after call meter meter'
          (rw (append_assoc skipped (b ∷ []) (before ++ g ∷ after)) valid) others fits)

  -- A message with a payload that passes its check, sent by the kind of a valid authorization, is
  -- accepted if the first grant for its contract fits: the update of the authorization never fails
  -- its check.
  pub accept_granted_message-Accepts :
      (a : ContractAuthorization) (msg : AuthzMsg) (call : WasmCall) (before : List ContractGrant)
      (g : ContractGrant) (after : List ContractGrant) (meter meter' : platform.Meter)
      → a.grants ≡ before ++ g ∷ after
      → validate_grants platform.texts formats grant_formats a.grants ≡ ok tt
      → unwrap platform formats grant_formats a.operation msg ≡ some call
      → call.payload ≢ []
      → call.check ≡ ok tt
      → AreOthers call.contract before
      → Fits g call meter meter'
      → Accepts platform formats grant_formats laws
          (accept_granted_message platform formats grant_formats a msg meter)
          meter'
  unfolding accept_granted_message validate_grants
  accept_granted_message-Accepts a msg call before g after meter meter' all valid is_call payload
        passed others fits =
      let (some_, each_) =
        both (require (not (length a.grants == 0)) empty)
          (validate_each_grant platform.texts formats grant_formats a.grants) valid in
      let valid' = rw all at each_ in
      rw (is_call, length-payload call.payload payload, all)
        (through call.check passed
          (accept_grants platform formats grant_formats a.operation [] (before ++ g ∷ after) call)
          (accept_grants-Accepts a.operation [] before g after call meter meter' valid' others
            fits))
    where
      length-payload : (t : Text) → t ≢ [] → (length t == 0) ≡ false
      length-payload [] h = absurd (h refl)
      length-payload (c ∷ t) h = ground arith

      through :
          (check : Result AccessError Unit)
          → check ≡ ok tt
          → (k : Metered platform formats grant_formats AcceptResponse)
          → Accepts platform formats grant_formats laws (k meter) meter'
          → Accepts platform formats grant_formats laws
              ((or_failed platform formats grant_formats check >> k) meter)
              meter'
      through check e k h = rw e h
