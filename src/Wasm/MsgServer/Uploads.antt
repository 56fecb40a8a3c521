-- ===== src/Wasm/MsgServer/Uploads.antt =====
-- Who may upload code, after the authority has added and removed addresses.
use bignftd.Base.{
  Text, ◌≡◌, refl, sym, true, false, not, ◌&&◌, ◌||◌, Bool-cases, inl, inr, List, [], ◌∷◌, ◌++◌,
  text_eq, text_eq_iff, arith,
}
use bignftd.Chain.Outcome.{Result, ok, err, panic, ◌>>◌, require}
use bignftd.Wasm.Access.{
  AccessType, unspecified, nobody, everybody, other, lists, any_of_addresses, is_any_of, allowed,
  allowed_by,
}
use bignftd.Wasm.Access.Validation.{AccessError}
use bignftd.Wasm.Messages.{Formats, MsgCodeUploadParamsAddresses}
use bignftd.Wasm.Keeper.Platform.{Platform, Context, Action, invalid}
use bignftd.Wasm.MsgServer.{
  Governance, checked, require_authority, with_upload_addresses, set_params, add_addresses,
  remove_addresses, handle_add_upload_addresses, handle_remove_upload_addresses,
}

lists-append : (xs : List Text) (a t : Text) → lists (xs ++ a ∷ []) t ≡ lists xs t || text_eq a t
unfolding lists
lists-append [] a t = ground arith
lists-append (x ∷ xs) a t = ground (arith, lists-append xs a t)

-- A text that is equal to a listed one is listed.
lists-same :
    (xs : List Text) (a t : Text) → lists xs a ≡ true → text_eq a t ≡ true → lists xs t ≡ true
lists-same xs a t listed same = let e : a ≡ t = (text_eq_iff a t).0 same in rw (sym e) listed

pub lists-add_addresses :
    (old new : List Text) (t : Text) → lists (add_addresses old new) t ≡ lists old t || lists new t
unfolding lists add_addresses
lists-add_addresses old [] t = ground arith
lists-add_addresses old (a ∷ new) t = elim (Bool-cases (lists old a)) [
  | inl known ↦ rw (known, lists-add_addresses old new t) (ground (arith, lists-same old a t known))
  | inr fresh ↦
      rw (fresh, lists-add_addresses (old ++ a ∷ []) new t, lists-append old a t) (ground arith)
]

lists-remove_addresses :
    (removed old : List Text) (t : Text)
    → lists (remove_addresses removed old) t ≡ lists old t && not (lists removed t)
unfolding lists remove_addresses
lists-remove_addresses removed [] t = refl
lists-remove_addresses removed (a ∷ old) t = elim (Bool-cases (lists removed a)) [
  | inl gone ↦
      rw (gone, lists-remove_addresses removed old t) (ground (arith, lists-same removed a t gone))
  | inr kept ↦ elim (Bool-cases (text_eq a t)) [
    | inl same ↦
        let e : a ≡ t = (text_eq_iff a t).0 same in
        let kept' : lists removed t ≡ false = rw (sym e) kept in rw (kept, same, kept') refl
    | inr ne ↦ rw (kept, ne) (ground (arith, lists-remove_addresses removed old t))
  ]
]

-- `any_of_addresses` is the only such permission.
is_any_of-allowed :
    (p : AccessType) (addresses : List Text) (actor : Text)
    → is_any_of p ≡ true
    → allowed_by p addresses actor ≡ ok (lists addresses actor)
unfolding allowed_by
is_any_of-allowed any_of_addresses addresses actor h = refl
is_any_of-allowed nobody addresses actor h = cc
is_any_of-allowed everybody addresses actor h = cc
is_any_of-allowed unspecified addresses actor h = cc
is_any_of-allowed (other n) addresses actor h = cc

module _ (platform : Platform) (formats : Formats) (gov : Governance) where
  -- A guarded call that succeeds is that of what stands behind the guards.
  guarded-eq_ok :
      (check : Result AccessError Unit) (signer : Text) (k : Action platform Unit)
      (c c' : Context platform)
      → (checked platform formats gov check >> (require_authority platform formats gov signer >> k))
          c
        ≡ (ok tt, c')
      → k c ≡ (ok tt, c')
  guarded-eq_ok (err e) signer k c c' h = cc
  guarded-eq_ok (panic p) signer k c c' h = cc
  guarded-eq_ok (ok u) signer k c c' h = elim (Bool-cases (text_eq gov.authority signer)) [
    | inl same ↦ rw same at h
    | inr ne ↦ let h' = (rw ne at h) in cc
  ]

  -- The parameters with those addresses, if the permission names any.
  abbrev HasUploads : List Text → Context platform → Context platform → Type 0
  HasUploads addresses c c' =
      (is_any_of c.params.code_upload_access.permission ≡ true)
      × (c' ≡ record c { params = with_upload_addresses platform formats gov c.params addresses })

  replaced-HasUploads :
      (addresses : List Text) (c c' : Context platform)
      → (require (is_any_of c.params.code_upload_access.permission) invalid
            >> set_params platform formats gov
                (with_upload_addresses platform formats gov c.params addresses))
          c
        ≡ (ok tt, c')
      → HasUploads addresses c c'
  replaced-HasUploads addresses c c' h =
      elim (Bool-cases (is_any_of c.params.code_upload_access.permission)) [
        | inl any ↦ let h' = (rw any at h) in (any, cc)
        | inr no_ ↦ let h' = (rw no_ at h) in cc
      ]

  add-HasUploads :
      (m : MsgCodeUploadParamsAddresses) (c c' : Context platform)
      → handle_add_upload_addresses platform formats gov m c ≡ (ok tt, c')
      → HasUploads (add_addresses c.params.code_upload_access.addresses m.addresses) c c'
  unfolding handle_add_upload_addresses
  add-HasUploads m c c' h = replaced-HasUploads _ c c' (guarded-eq_ok _ m.authority _ c c' h)

  remove-HasUploads :
      (m : MsgCodeUploadParamsAddresses) (c c' : Context platform)
      → handle_remove_upload_addresses platform formats gov m c ≡ (ok tt, c')
      → HasUploads (remove_addresses m.addresses c.params.code_upload_access.addresses) c c'
  unfolding handle_remove_upload_addresses
  remove-HasUploads m c c' h = replaced-HasUploads _ c c' (guarded-eq_ok _ m.authority _ c c' h)

  -- Who may upload after addresses were added and others removed, both with success: those who
  -- were listed before or are added, and are not removed.
  pub upload_addresses-allowed :
      (added removed : MsgCodeUploadParamsAddresses) (c c' c'' : Context platform) (actor : Text)
      → handle_add_upload_addresses platform formats gov added c ≡ (ok tt, c')
      → handle_remove_upload_addresses platform formats gov removed c' ≡ (ok tt, c'')
      → allowed c''.params.code_upload_access actor
        ≡ ok (
            (lists c.params.code_upload_access.addresses actor || lists added.addresses actor)
            && not (lists removed.addresses actor))
  unfolding allowed
  upload_addresses-allowed added removed c c' c'' actor add remove =
      let (any, e) = add-HasUploads added c c' add in
      let (any', e') = remove-HasUploads removed c' c'' remove in
      rw
        (
          e',
          is_any_of-allowed c'.params.code_upload_access.permission _ actor any',
          lists-remove_addresses,
          e,
          lists-add_addresses,
        )
        refl
