-- ===== src/Wasm/Grants/Accept/Settle.antt =====
-- What an authorization keeps of its grants after one of them was used.
use bignftd.Base.{
  ◌≡◌, refl, true, inl, inr, Bool-cases, Option, none, some, List, [], ◌∷◌, ◌++◌, if◌then◌else◌,
  length, ◌==◌, ==_iff, arith,
}
use bignftd.Chain.Outcome.{Result, ok, err, panic}
use bignftd.Chain.Returns.{Returns, ReturnsAt}
use bignftd.Wasm.Messages.{Formats}
use bignftd.Wasm.Keeper.Platform.{Platform}
use bignftd.Wasm.Grants.{
  GrantError, GrantFormats, Limit, undefined_limit, max_calls, max_funds, combined, ContractGrant,
  LimitResult, with_new_limits, validate_grants,
}
use bignftd.Wasm.Grants.Accept.{
  Operation, ContractAuthorization, AcceptResponse, renewed, renew, delete_or_renew, update_grant,
  settle_grant,
}

-- What the authorization keeps of a grant that was used.
abbrev pub kept_limit : ContractGrant → Option Limit → List ContractGrant
kept_limit g none = g ∷ []
kept_limit g (some l) = record g { limit = some l } ∷ []

abbrev pub kept_of : ContractGrant → LimitResult → List ContractGrant
kept_of g result = if result.delete_limit then [] else kept_limit g result.update_limit

-- The grants after a message: none once the authorization is deleted, and otherwise those of the
-- update, if there is one.
abbrev pub grants_or : List ContractGrant → Option ContractAuthorization → List ContractGrant
grants_or grants none = grants
grants_or grants (some a) = a.grants

abbrev pub next_grants : List ContractGrant → AcceptResponse → List ContractGrant
next_grants grants response = if response.delete then [] else grants_or grants response.updated

module _ (platform : Platform) (formats : Formats) (grant_formats : GrantFormats) where
  -- An update is of the same kind and passes its check.
  abbrev pub IsValidUpdate : Operation → Option ContractAuthorization → Type 0
  IsValidUpdate op none = Unit
  IsValidUpdate op (some a) =
      (a.operation ≡ op) × (validate_grants platform.texts formats grant_formats a.grants ≡ ok tt)

  -- Those are the grants after the response, and an update is valid.
  abbrev pub Leaves : Operation → List ContractGrant → List ContractGrant → AcceptResponse → Type 0
  Leaves op grants left response =
      (next_grants grants response ≡ left) × IsValidUpdate op response.updated

  renew-Leaves :
      (op : Operation) (grants left : List ContractGrant)
      → Returns (Leaves op grants left) (renew platform formats grant_formats op left)
  renew-Leaves op grants left = record {
    at = λ s. checked (validate_grants platform.texts formats grant_formats left) refl s;
  }
    where
      checked :
          (r : Result GrantError Unit)
          → validate_grants platform.texts formats grant_formats left ≡ r
          → (s : platform.Meter)
          → ReturnsAt (Leaves op grants left) (renewed platform formats grant_formats op left r s)
      checked (ok u) e s = (refl, (refl, e))
      checked (err x) e s = tt
      checked (panic p) e s = tt

  length-zero : {A : Type 0} (xs : List A) → (length xs == 0) ≡ true → [] ≡ xs
  length-zero [] h = refl
  length-zero (x ∷ xs) h = absurd (omega (arith, (==_iff (length (x ∷ xs)) 0).0 h))

  delete_or_renew-Leaves :
      (op : Operation) (grants left : List ContractGrant)
      → Returns (Leaves op grants left) (delete_or_renew platform formats grant_formats op left)
  delete_or_renew-Leaves op grants left = elim (Bool-cases (length left == 0)) [
    | inl none_ ↦ rw none_ (record { at = λ s. (length-zero left none_, tt) })
    | inr some_ ↦ rw some_ (renew-Leaves op grants left)
  ]

  update_grant-Leaves :
      (op : Operation) (before : List ContractGrant) (g : ContractGrant)
      (after : List ContractGrant) (l : Option Limit)
      → Returns
          (Leaves op (before ++ g ∷ after) (before ++ (kept_limit g l ++ after)))
          (update_grant platform formats grant_formats op before g after l)
  unfolding with_new_limits
  update_grant-Leaves op before g after none = record { at = λ s. (refl, tt) }
  update_grant-Leaves op before g after (some undefined_limit) = record { at = λ s. tt }
  update_grant-Leaves op before g after (some (max_calls n)) = renew-Leaves op _ _
  update_grant-Leaves op before g after (some (max_funds coins)) = renew-Leaves op _ _
  update_grant-Leaves op before g after (some (combined n coins)) = renew-Leaves op _ _

  pub settle_grant-Leaves :
      (op : Operation) (before : List ContractGrant) (g : ContractGrant)
      (after : List ContractGrant) (result : LimitResult)
      → Returns
          (Leaves op (before ++ g ∷ after) (before ++ (kept_of g result ++ after)))
          (settle_grant platform formats grant_formats op before g after result)
  unfolding settle_grant
  settle_grant-Leaves op before g after result = elim (Bool-cases result.delete_limit) [
    | inl last ↦ rw last (delete_or_renew-Leaves op _ (before ++ after))
    | inr more ↦ rw more (update_grant-Leaves op before g after result.update_limit)
  ]
