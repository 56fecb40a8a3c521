-- ===== src/Wasm/Grants/Accept/Progress.antt =====
-- A grant that applies is used: no valid authorization fails at the check of what is left of it.
use bignftd.Base.{
  arith, ◌≡◌, refl, Bool, true, false, inl, inr, Bool-cases, Option, none, some, List, [], ◌∷◌,
  ◌++◌, length, ◌==◌, if◌then◌else◌,
}
use bignftd.Chain.Outcome.{Result, ok, err, panic}
use bignftd.Chain.Checks.{◌>>◌, require, Ensures-ok}
use bignftd.Chain.Sdk.{Coins}
use bignftd.Wasm.Contract.{is_some}
use bignftd.Wasm.Messages.{Formats}
use bignftd.Wasm.Keeper.Platform.{Platform}
use bignftd.Wasm.Grants.{
  GrantError, GrantFormats, Limit, undefined_limit, max_calls, max_funds, combined, ContractGrant,
  LimitResult, get_limit, get_filter, with_new_limits, accept_limit, validate_limit,
  validate_contract_grant, validate_each_grant, validate_grants, validate_filter, invalid,
}
use bignftd.Wasm.Grants.Accept.{
  Operation, AcceptResponse, renew, delete_or_renew, update_grant, settle_grant,
}
use bignftd.Wasm.Grants.Accept.Settle.{kept_limit}
use bignftd.Wasm.Grants.Accept.ValidLimits.{ValidCoinLaws, IsValidNext, accept_limit-IsValidNext}

pub both : (a b : Result GrantError Unit) → a >> b ≡ ok tt → (a ≡ ok tt) × (b ≡ ok tt)
both (ok u) b h = (refl, h)
both (err e) b h = cc
both (panic p) b h = cc

module _ (platform : Platform) (formats : Formats) (grant_formats : GrantFormats)
    (laws : ValidCoinLaws formats grant_formats) where
  abbrev pub each : List ContractGrant → Result GrantError Unit
  each = validate_each_grant platform.texts formats grant_formats

  abbrev one : ContractGrant → Result GrantError Unit
  one = validate_contract_grant platform.texts formats grant_formats

  AreValid-split :
      (xs ys : List ContractGrant) → each (xs ++ ys) ≡ ok tt → (each xs ≡ ok tt) × (each ys ≡ ok tt)
  unfolding validate_each_grant
  AreValid-split [] ys h = (refl, h)
  AreValid-split (g ∷ xs) ys h =
      let (here, rest) = both (one g) (each (xs ++ ys)) h in
      let (left, right) = AreValid-split xs ys rest in (rw (here, left) refl, right)

  AreValid-append :
      (xs ys : List ContractGrant) → each xs ≡ ok tt → each ys ≡ ok tt → each (xs ++ ys) ≡ ok tt
  unfolding validate_each_grant
  AreValid-append [] ys h k = k
  AreValid-append (g ∷ xs) ys h k =
      let (here, rest) = both (one g) (each xs) h in rw (here, AreValid-append xs ys rest k) refl

  -- A valid grant is valid with another valid limit.
  kept_limit-AreValid :
      (g : ContractGrant) (next : Option Limit)
      → one g ≡ ok tt
      → IsValidNext platform formats grant_formats laws next
      → each (kept_limit g next) ≡ ok tt
  unfolding validate_each_grant validate_contract_grant get_limit get_filter
  kept_limit-AreValid g none h v = rw h refl
  kept_limit-AreValid g (some l) h v =
      let (parsed, rest) =
        both (require (is_some (platform.texts.from_bech32 g.contract)) invalid)
          (validate_limit platform.texts formats grant_formats (get_limit g)
            >> validate_filter platform.texts formats grant_formats (get_filter g))
          h in
      let (old, filtered) =
        both (validate_limit platform.texts formats grant_formats (get_limit g))
          (validate_filter platform.texts formats grant_formats (get_filter g)) rest in
      rw (parsed, v, filtered) refl

  kept_of-AreValid :
      (g : ContractGrant) (funds : Coins) (result : LimitResult)
      → one g ≡ ok tt
      → accept_limit platform.texts formats grant_formats (get_limit g) funds ≡ ok result
      → IsValidNext platform formats grant_formats laws result.update_limit
  unfolding validate_contract_grant
  kept_of-AreValid g funds result h within =
      let (parsed, rest) =
        both (require (is_some (platform.texts.from_bech32 g.contract)) invalid)
          (validate_limit platform.texts formats grant_formats (get_limit g)
            >> validate_filter platform.texts formats grant_formats (get_filter g))
          h in
      let (valid, filtered) =
        both (validate_limit platform.texts formats grant_formats (get_limit g))
          (validate_filter platform.texts formats grant_formats (get_filter g)) rest in
      Ensures-ok
        (λ (r : LimitResult). IsValidNext platform formats grant_formats laws r.update_limit) _
        result within
        (accept_limit-IsValidNext platform formats grant_formats laws (get_limit g) funds valid)

  -- The call returns a response that accepts.
  abbrev pub Accepts : Result GrantError AcceptResponse × platform.Meter → platform.Meter → Type 0
  Accepts out meter =
      (response : AcceptResponse) × (out ≡ (ok response, meter)) × (response.accept ≡ true)

  renew-Accepts :
      (op : Operation) (grants : List ContractGrant) (meter : platform.Meter)
      → (length grants == 0) ≡ false
      → each grants ≡ ok tt
      → Accepts (renew platform formats grant_formats op grants meter) meter
  unfolding validate_grants
  renew-Accepts op grants meter some_ valid = rw (some_, valid) (_, refl, refl)

  length-middle :
      (before : List ContractGrant) (g : ContractGrant) (after : List ContractGrant)
      → (length (before ++ g ∷ after) == 0) ≡ false
  length-middle [] g after = ground arith
  length-middle (b ∷ before) g after = ground arith

  -- The limit of the used grant is updated
  update_grant-Accepts :
      (op : Operation) (before : List ContractGrant) (g : ContractGrant)
      (after : List ContractGrant) (next : Option Limit) (meter : platform.Meter)
      → IsValidNext platform formats grant_formats laws next
      → each (before ++ (kept_limit g next ++ after)) ≡ ok tt
      → Accepts (update_grant platform formats grant_formats op before g after next meter) meter
  unfolding with_new_limits validate_limit
  update_grant-Accepts op before g after none meter v valid = (_, refl, refl)
  update_grant-Accepts op before g after (some undefined_limit) meter v valid = cc
  update_grant-Accepts op before g after (some (max_calls n)) meter v valid =
      renew-Accepts op _ meter (length-middle before _ after) valid
  update_grant-Accepts op before g after (some (max_funds coins)) meter v valid =
      renew-Accepts op _ meter (length-middle before _ after) valid
  update_grant-Accepts op before g after (some (combined n coins)) meter v valid =
      renew-Accepts op _ meter (length-middle before _ after) valid

  delete_or_renew-Accepts :
      (op : Operation) (grants : List ContractGrant) (meter : platform.Meter)
      → each grants ≡ ok tt
      → Accepts (delete_or_renew platform formats grant_formats op grants meter) meter
  delete_or_renew-Accepts op grants meter valid = elim (Bool-cases (length grants == 0)) [
    | inl none_ ↦ rw none_ (_, refl, refl)
    | inr some_ ↦ rw some_ (renew-Accepts op grants meter some_ valid)
  ]

  pub settle_grant-Accepts :
      (op : Operation) (before : List ContractGrant) (g : ContractGrant)
      (after : List ContractGrant) (funds : Coins) (result : LimitResult) (meter : platform.Meter)
      → each (before ++ g ∷ after) ≡ ok tt
      → accept_limit platform.texts formats grant_formats (get_limit g) funds ≡ ok result
      → Accepts (settle_grant platform formats grant_formats op before g after result meter) meter
  unfolding settle_grant validate_each_grant
  settle_grant-Accepts op before g after funds result meter valid within =
      let (first, others) = AreValid-split before (g ∷ after) valid in
      let (here, last) = both (one g) (each after) others in
      let next = kept_of-AreValid g funds result here within in
      let updated = AreValid-append before _ first (
        AreValid-append (kept_limit g result.update_limit) after
          (kept_limit-AreValid g result.update_limit here next) last) in
      settled result.delete_limit (AreValid-append before after first last) next updated
    where
      settled :
          (gone : Bool)
          → each (before ++ after) ≡ ok tt
          → IsValidNext platform formats grant_formats laws result.update_limit
          → each (before ++ (kept_limit g result.update_limit ++ after)) ≡ ok tt
          → Accepts
              ((if gone
                  then delete_or_renew platform formats grant_formats op (before ++ after)
                  else update_grant platform formats grant_formats op before g after
                      result.update_limit)
                meter)
              meter
      settled true rest next updated = delete_or_renew-Accepts op (before ++ after) meter rest
      settled false rest next updated =
          update_grant-Accepts op before g after result.update_limit meter next updated
