-- ===== src/TokenFactory/Authority.antt =====
-- What the handlers do to the admins of denoms (x/tokenfactory/keeper/admins.go, msg_server.go).
use bignftd.Base.{
  ℕ, Text, ◌≡◌, ◌≢◌, refl, sym, ap, ◌∙◌, Option, some, [], ◌∷◌, ◌++◌, arith, text_eq, text_eq_iff,
  if◌then◌else◌, Option-cases, Bool-cases, inl, inr,
}
use mathlib.Core.Bool.{false≢true}
use mathlib.Core.List.{append_cancel_right}
use bignftd.Chain.Outcome.{Result, ok, err, panic}
use bignftd.Chain.Store.{get, set, get-set_self, get-set_ne}
use bignftd.Chain.Sdk.{Sdk, CodecLaws, Error}
use bignftd.TokenFactory.State.{
  State, get_denom_prefix_store, get_creator_prefix, denom_authority_metadata_key, key_separator,
}
use bignftd.TokenFactory.Keeper.{
  authority_key, or_empty, set_authority_metadata, add_denom_from_creator,
}

authority_key-injective : (d e : Text) → authority_key d ≡ authority_key e → d ≡ e
unfolding authority_key get_denom_prefix_store
authority_key-injective d e h = append_cancel_right d e (key_separator ∷ []) (
    append_cancel_right (d ++ key_separator ∷ []) (e ++ key_separator ∷ [])
      denom_authority_metadata_key (cc h))

abbrev head_code : Text → ℕ
head_code [] = 0
head_code (c ∷ t) = c

authority_key-ne-creator : (d c e : Text) → authority_key d ≢ get_creator_prefix c ++ e
unfolding authority_key get_denom_prefix_store get_creator_prefix
authority_key-ne-creator d c e h = omega (arith, ap head_code h)

module _ (sdk : Sdk) where
  -- The admin of a denom as a query reads it.
  abbrev pub admin_of : Text → State sdk → Option Text
  admin_of denom s = sdk.decode_admin (or_empty (get (authority_key denom) s.kv))

  admin_of-set :
      (laws : CodecLaws sdk) (d e admin bz : Text) (s : State sdk)
      → sdk.encode_admin admin ≡ some bz
      → admin_of e (record s { kv = set (authority_key d) bz s.kv })
        ≡ (if text_eq d e then some admin else admin_of e s)
  admin_of-set laws d e admin bz s h = elim (Bool-cases (text_eq d e)) [
    | inl same ↦ ground (
      arith,
      text_eq_iff d e,
      get-set_self (authority_key d) bz s.kv,
      laws.decode-encode admin bz h,
    )
    | inr other ↦ ground (
      arith,
      get-set_ne (authority_key d) (authority_key e) bz s.kv
          (λ k. false≢true (sym other ∙ (text_eq_iff d e).1 (authority_key-injective d e k))),
    )
  ]

  -- What a call that writes an admin has done to the admins, by how it ended.
  abbrev pub WritesAdmin :
      {A : Type 0} → Text → Text → State sdk → Result Error A × State sdk → Type 0
  WritesAdmin d admin s (ok _, s') =
      (e : Text) → admin_of e s' ≡ (if text_eq d e then some admin else admin_of e s)
  WritesAdmin d admin s (err _, s') = s' ≡ s
  WritesAdmin d admin s (panic _, s') = s' ≡ s

  pub set_authority_metadata-WritesAdmin :
      (laws : CodecLaws sdk) (d admin : Text) (s : State sdk)
      → WritesAdmin d admin s (set_authority_metadata sdk d admin s)
  unfolding set_authority_metadata
  set_authority_metadata-WritesAdmin laws d [] s = elim (Option-cases (sdk.encode_admin [])) [
    | inl failed ↦ rw failed refl
    | inr (bz, encoded) ↦ rw encoded (λ e. admin_of-set laws d e [] bz s encoded)
  ]
  set_authority_metadata-WritesAdmin laws d (c ∷ t) s =
      elim (Option-cases (sdk.from_bech32 (c ∷ t))) [
        | inl failed ↦ rw failed refl
        | inr (a, parsed) ↦ elim (Option-cases (sdk.encode_admin (c ∷ t))) [
          | inl failed ↦ rw (parsed, failed) refl
          | inr (bz, encoded) ↦
              rw (parsed, encoded) (λ e. admin_of-set laws d e (c ∷ t) bz s encoded)
        ]
      ]

  -- The index of creators stands apart from the admins.
  pub admin_of-add_denom_from_creator :
      (c d e : Text) (s : State sdk)
      → admin_of e (add_denom_from_creator sdk c d s).1 ≡ admin_of e s
  unfolding add_denom_from_creator
  admin_of-add_denom_from_creator c d e s =
      ap (λ (bz : Option Text). sdk.decode_admin (or_empty bz))
        (get-set_ne (get_creator_prefix c ++ d) (authority_key e) d s.kv
          (λ k. authority_key-ne-creator e c d (sym k)))
