-- ===== src/Wasm/Grants/Code/Authority.antt =====
-- What a grant to store code lets pass.
use bignftd.Base.{
  Text, Bool, ◌≡◌, refl, true, false, ◌⊎◌, inl, inr, Bool-cases, Option, none, some, List, [], ◌∷◌,
  if◌then◌else◌,
}
use bignftd.Chain.Outcome.{ok, err, panic, or_raise, pure}
use bignftd.Chain.Checks
use bignftd.Chain.Checks.{Ensures, Ensures-bind}
use bignftd.Chain.Returns.{Returns, ReturnsAt-ok, Returns-bind, Returns-then, Returns-lift}
use bignftd.Wasm.Gas.{GasConfig, Priced}
use bignftd.Wasm.Access.{AccessConfig, allowed}
use bignftd.Wasm.Access.Order.{is_subset-allowed}
use bignftd.Wasm.Archive.{is_gzip, uncompress}
use bignftd.Wasm.Keeper.Code.{max_wasm_size}
use bignftd.Wasm.Messages.{Formats, MsgStoreCode}
use bignftd.Wasm.Keeper.Platform.{Platform}
use bignftd.Wasm.Grants.{GrantError, GrantFormats, priced, invalid_request}
use bignftd.Wasm.Grants.Accept.{store_msg, AcceptResponse}
use bignftd.Wasm.Grants.Code.{
  CodeGrant, is_permitted, is_hash_of, accept_code, accept_codes, found_or, unpacked, response_of,
  accept_stored, accept_store_code,
}

-- Whoever may instantiate by the permission of the message may do so by that of the grant.
abbrev pub IsRestricted : Option AccessConfig → Option AccessConfig → Type 0
IsRestricted none permission = Unit
IsRestricted (some granted) permission =
    (asked : AccessConfig) × (permission ≡ some asked)
    × ((actor : Text) → allowed asked actor ≡ ok true → allowed granted actor ≡ ok true)

is_permitted-IsRestricted :
    (granted permission : Option AccessConfig)
    → is_permitted granted permission ≡ ok true
    → IsRestricted granted permission
is_permitted-IsRestricted none permission h = tt
is_permitted-IsRestricted (some granted) none h = cc
is_permitted-IsRestricted (some granted) (some asked) h =
    (asked, refl, λ actor. is_subset-allowed asked granted actor (cc h))

module _ (platform : Platform) (formats : Formats) (grant_formats : GrantFormats) where
  -- One of the grants is for that checksum and that permission.
  abbrev pub IsGranted : List CodeGrant → Text → Option AccessConfig → Type 0
  IsGranted [] checksum permission = ⊥
  IsGranted (g ∷ grants) checksum permission =
      ((is_hash_of platform formats grant_formats g checksum ≡ true)
        × IsRestricted g.instantiate_permission permission)
      ⊎ IsGranted grants checksum permission

  found_or-cases :
      (here later : Priced Bool)
      → Checks.◌>>=◌ here (found_or platform formats grant_formats later) ≡ ok true
      → (here ≡ ok true) ⊎ (later ≡ ok true)
  found_or-cases (ok true) later h = inl refl
  found_or-cases (ok false) later h = inr h
  found_or-cases (err e) later h = cc
  found_or-cases (panic p) later h = cc

  accept_codes-IsGranted :
      (grants : List CodeGrant) (checksum : Text) (permission : Option AccessConfig)
      → accept_codes platform formats grant_formats grants checksum permission ≡ ok true
      → IsGranted grants checksum permission
  unfolding accept_codes accept_code
  accept_codes-IsGranted [] checksum permission h = cc
  accept_codes-IsGranted (g ∷ grants) checksum permission h =
      elim (Bool-cases (is_hash_of platform formats grant_formats g checksum)) [
        | inr no_ ↦
            let h' = (rw no_ at h) in inr (accept_codes-IsGranted grants checksum permission h')
        | inl yes_ ↦
            let h' = (rw yes_ at h) in
            elim (found_or-cases (is_permitted g.instantiate_permission permission) _ h') [
              | inl here ↦
                  inl (yes_, is_permitted-IsRestricted g.instantiate_permission permission here)
              | inr later ↦ inr (accept_codes-IsGranted grants checksum permission later)
            ]
      ]

  -- The code that a message brings, unpacked where it is an archive
  abbrev pub code_in : Text → Option Text
  code_in bytes =
      if is_gzip bytes then uncompress platform.gunzip bytes max_wasm_size else some bytes

  Returns-or_raise :
      {S A : Type 0} (found : Option A) (e : GrantError)
      → Returns {S = S} (λ a. found ≡ some a) (or_raise found e)
  Returns-or_raise none e = record { at = λ s. tt }
  Returns-or_raise (some a) e = record { at = λ s. refl }

  unpacked-code :
      (register : Option GasConfig) (bytes : Text)
      → Returns
          (λ code. uncompress platform.gunzip bytes max_wasm_size ≡ some code)
          (unpacked platform formats grant_formats register bytes)
  unpacked-code none bytes = record { at = λ s. tt }
  unpacked-code (some register) bytes = search (Returns-then, Returns-or_raise)

  code_of :
      (register : Option GasConfig) (bytes : Text)
      → Returns
          (λ code. code_in bytes ≡ some code)
          (if is_gzip bytes
            then unpacked platform formats grant_formats register bytes
            else pure bytes)
  code_of register bytes = elim (Bool-cases (is_gzip bytes)) [
    | inl gzip ↦ rw gzip (unpacked-code register bytes)
    | inr plain ↦ rw plain (record { at = λ s. refl })
  ]

  -- A message to store code that such a grant lets pass.
  abbrev pub IsCovered : List CodeGrant → MsgStoreCode → AcceptResponse → Type 0
  IsCovered grants m r =
      r.accept ≡ true
      → (code checksum : Text) × (code_in m.wasm_byte_code ≡ some code)
        × (grant_formats.create_checksum code ≡ some checksum)
        × IsGranted grants checksum m.instantiate_permission

  answered :
      (grants : List CodeGrant) (m : MsgStoreCode) (code checksum : Text)
      → code_in m.wasm_byte_code ≡ some code
      → grant_formats.create_checksum code ≡ some checksum
      → (b : Bool)
      → accept_codes platform formats grant_formats grants checksum m.instantiate_permission ≡ ok b
      → IsCovered grants m (response_of platform formats grant_formats b)
  answered grants m code checksum from hashed true h accepted = (
    code,
    checksum,
    from,
    hashed,
    accept_codes-IsGranted grants checksum m.instantiate_permission h,
  )
  answered grants m code checksum from hashed false h accepted = cc

  Ensures-value : {A : Type 0} (r : Priced A) → Ensures (λ a. r ≡ ok a) (priced r)
  Ensures-value (ok a) = refl
  Ensures-value (err e) = absurd e
  Ensures-value (panic p) = tt

  accept_stored-IsCovered :
      (register : Option GasConfig) (grants : List CodeGrant) (m : MsgStoreCode)
      → Returns
          (IsCovered grants m)
          (accept_stored platform formats grant_formats register grants m)
  accept_stored-IsCovered register grants m =
      Returns-bind (λ code. code_in m.wasm_byte_code ≡ some code) (IsCovered grants m) _ _
        (code_of register m.wasm_byte_code)
        (λ code from.
          Returns-bind (λ checksum. grant_formats.create_checksum code ≡ some checksum)
            (IsCovered grants m) _ _
            (Returns-or_raise (grant_formats.create_checksum code) invalid_request)
            (λ checksum hashed.
              Returns-bind
                (λ b.
                  accept_codes platform formats grant_formats grants checksum
                    m.instantiate_permission
                  ≡ ok b)
                (IsCovered grants m) _ _
                (Returns-lift _ _ (
                  Ensures-value (
                    accept_codes platform formats grant_formats grants checksum
                      m.instantiate_permission)))
                (λ b h. record { at = λ s. answered grants m code checksum from hashed b h })))

  -- A message to store code that is accepted brings a code, as it is or packed, that one of the grants
  -- names by its checksum or by the wildcard, and nobody may instantiate it by the permission in the
  -- message who may not by that in the grant.
  pub accept_store_code-IsGranted :
      (register : Option GasConfig) (grants : List CodeGrant) (m : MsgStoreCode)
      (response : AcceptResponse) (meter meter' : platform.Meter)
      → accept_store_code platform formats grant_formats register grants (store_msg m) meter
        ≡ (ok response, meter')
      → response.accept ≡ true
      → (code checksum : Text) × (code_in m.wasm_byte_code ≡ some code)
        × (grant_formats.create_checksum code ≡ some checksum)
        × IsGranted grants checksum m.instantiate_permission
  unfolding accept_store_code
  accept_store_code-IsGranted register grants m response meter meter' done =
      ReturnsAt-ok (IsCovered grants m) _ response meter meter'
        (accept_stored-IsCovered register grants m) done
