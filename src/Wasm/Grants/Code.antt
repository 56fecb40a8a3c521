-- ===== src/Wasm/Grants/Code.antt =====
-- x/wasm/types/authz.go: grants to store code for somebody else.
pub mod Authority
use bignftd.Base.{
  ℕ, Text, codes, Bool, true, false, not, ◌==◌, Option, none, some, List, [], ◌∷◌, ◌++◌, length,
  if◌then◌else◌,
}
use bignftd.Chain.Outcome.{Result, ok, err, panic, fatal, ◌>>=◌, ◌>>◌, pure, raise, lift, or_raise}
use bignftd.Chain.Checks
use bignftd.Chain.Sdk.{pos}
use bignftd.Wasm.Gas.{GasConfig, Priced, uncompress_costs}
use bignftd.Wasm.Access.{AccessConfig, lists, is_subset}
use bignftd.Wasm.Access.Validation.{AccessError}
use bignftd.Wasm.Archive.{is_gzip, uncompress}
use bignftd.Wasm.Messages.{Formats, MsgStoreCode, validate_optional_config}
use bignftd.Wasm.Keeper.Platform.{Platform}
use bignftd.Wasm.Keeper.Code.{max_wasm_size}
use bignftd.Wasm.Grants.{
  GrantError, not_found, invalid_request, empty, failed_check, GrantFormats, priced,
}
use bignftd.Wasm.Grants.Accept.{
  AuthzMsg, store_msg, AcceptResponse, refused, accepted_as_is, Metered, consume_gas,
}

-- `CodehashWildcard`
abbrev pub codehash_wildcard : Text
codehash_wildcard = codes "*"

pub record CodeGrant : Type 0 where
  pub code_hash : Text
  pub instantiate_permission : Option AccessConfig

-- `permission.IsSubset` where a grant restricts the permission; a nil permission is dereferenced.
abbrev pub is_permitted : Option AccessConfig → Option AccessConfig → Priced Bool
is_permitted none permission = ok true
is_permitted (some granted) none = panic fatal
is_permitted (some granted) (some permission) = ok (is_subset permission granted)

module _ (platform : Platform) (formats : Formats) (grant_formats : GrantFormats) where
  -- The hash of the grant is the wildcard or that checksum.
  abbrev pub is_hash_of : CodeGrant → Text → Bool
  is_hash_of g checksum =
      if formats.equal_fold g.code_hash codehash_wildcard
      then true
      else formats.equal_fold g.code_hash checksum

  -- `CodeGrant.Accept`
  unfoldable pub accept_code : CodeGrant → Text → Option AccessConfig → Priced Bool
  accept_code g checksum permission =
      if not (is_hash_of g checksum)
      then ok false
      else is_permitted g.instantiate_permission permission

  -- The loop of `StoreCodeAuthorization.Accept`
  abbrev pub found_or : Priced Bool → Bool → Priced Bool
  found_or next true = ok true
  found_or next false = next

  unfoldable pub accept_codes : List CodeGrant → Text → Option AccessConfig → Priced Bool
  accept_codes [] checksum permission = ok false
  accept_codes (g ∷ grants) checksum permission =
      Checks.◌>>=◌ (accept_code g checksum permission)
        (found_or (accept_codes grants checksum permission))

  -- The code, unpacked for a price where it is an archive; the gas register is that of the context.
  abbrev pub unpacked : Option GasConfig → Text → Metered platform formats grant_formats Text
  unpacked none code = raise not_found
  unpacked (some register) code = do
    cost ← lift (priced (uncompress_costs platform.mul_floor register (pos (length code))))
    consume_gas platform formats grant_formats cost
    or_raise (uncompress platform.gunzip code max_wasm_size) invalid_request

  abbrev pub response_of : Bool → AcceptResponse
  response_of true = accepted_as_is
  response_of false = refused

  abbrev pub accept_stored :
      Option GasConfig
      → List CodeGrant
      → MsgStoreCode
      → Metered platform formats grant_formats AcceptResponse
  accept_stored register grants m = do
    code ←
        if is_gzip m.wasm_byte_code
        then unpacked register m.wasm_byte_code
        else pure m.wasm_byte_code
    checksum ← or_raise (grant_formats.create_checksum code) invalid_request
    accepted ← lift (priced (accept_codes grants checksum m.instantiate_permission))
    pure (response_of accepted)

  -- `StoreCodeAuthorization.Accept`
  unfoldable pub accept_store_code :
      Option GasConfig
      → List CodeGrant
      → AuthzMsg
      → Metered platform formats grant_formats AcceptResponse
  accept_store_code register grants (store_msg m) = accept_stored register grants m
  accept_store_code register grants _ = raise invalid_request

  -- `CodeGrant.ValidateBasic`
  unfoldable pub validate_code_grant : CodeGrant → Result GrantError Unit
  validate_code_grant g =
      if length g.code_hash == 0
      then err empty
      else elim (validate_optional_config platform.texts formats g.instantiate_permission) [
        | ok u ↦ ok tt
        | err e ↦ err (failed_check e)
        | panic p ↦ panic p
      ]

  -- The loop over several grants, with the hashes seen so far as a set of lower-case texts
  abbrev pub insert : Text → List Text → List Text
  insert t seen = if lists seen t then seen else t ∷ seen

  unfoldable pub collect_hashes : List CodeGrant → List Text → Result GrantError (List Text)
  collect_hashes [] seen = ok seen
  collect_hashes (g ∷ grants) seen =
      if formats.equal_fold g.code_hash codehash_wildcard
      then err invalid_request
      else Checks.◌>>=◌ (validate_code_grant g)
          (λ u. collect_hashes grants (insert (grant_formats.to_lower g.code_hash) seen))

  abbrev pub require_count : ℕ → List Text → Result GrantError Unit
  require_count n hashes = if not (length hashes == n) then err invalid_request else ok tt

  -- `StoreCodeAuthorization.ValidateBasic`
  unfoldable pub validate_store_code_authorization : List CodeGrant → Result GrantError Unit
  validate_store_code_authorization [] = err empty
  validate_store_code_authorization (g ∷ []) = validate_code_grant g
  validate_store_code_authorization (g ∷ h ∷ grants) =
      Checks.◌>>=◌ (collect_hashes (g ∷ h ∷ grants) []) (require_count (length (g ∷ h ∷ grants)))
