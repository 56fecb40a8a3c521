-- ===== src/TokenFactory/Handle/Creation.antt =====
-- What the creation of a denom writes (x/tokenfactory/keeper/createdenom.go).
use bignftd.Base.{
  Text, ◌≡◌, refl, ap, ◌∙◌, Option, none, some, [], ◌∷◌, ◌++◌, arith, text_eq, text_eq_refl,
  if◌then◌else◌,
}
use bignftd.Chain.Outcome.{Result, ok, err, panic, continue, modify}
use bignftd.Chain.Keeps.{Keeps, keeps_rules}
use bignftd.Chain.Store.{Store, get, get-set_self}
use bignftd.Chain.Sdk.{Sdk, CodecLaws, MetadataLaws, Coins, Error}
use bignftd.TokenFactory.Denoms.{get_token_denom}
use bignftd.TokenFactory.State.{State, get_creator_prefix}
use bignftd.TokenFactory.Keeper.{
  authority_key, or_empty, set_authority_metadata, add_denom_from_creator,
}
use bignftd.TokenFactory.CreateDenom.{
  plain_metadata, validate_create_denom, charge_fee, charge_for_create_denom,
  create_denom_after_validation,
}
use bignftd.TokenFactory.Authority.{
  admin_of, WritesAdmin, set_authority_metadata-WritesAdmin, admin_of-add_denom_from_creator,
}
use bignftd.TokenFactory.Handle.Effect.{IsStable}

module _ (sdk : Sdk) where
  -- The denom is recorded in `s'`: its admin is the creator, the other admins are those of `s`,
  -- it is in the creator's index, and the bank has its plain metadata.
  pub record IsRecorded (creator denom : Text) (s s' : State sdk) : Type 0 where
    pub admins :
        (e : Text)
        → admin_of sdk e s' ≡ (if text_eq denom e then some creator else admin_of sdk e s)
    pub indexed : get (get_creator_prefix creator ++ denom) s'.kv ≡ some denom
    pub described : sdk.get_denom_metadata denom s'.world ≡ some (plain_metadata denom)

  -- After the validation: recorded, or an error that has left the module's store alone.
  abbrev pub Records : {A : Type 0} → Text → Text → State sdk → Result Error A × State sdk → Type 0
  Records creator denom s (ok _, s') = IsRecorded creator denom s s'
  Records creator denom s (err _, s') = s'.kv ≡ s.kv
  Records creator denom s (panic _, s') = s'.kv ≡ s.kv

  abbrev SameWorld : sdk.World → State sdk → Type 0
  SameWorld w s = s.world ≡ w

  Keeps-write :
      (w : sdk.World) (f : State sdk → Store)
      → Keeps {E = Error} (SameWorld w) (modify (λ s. record s { kv = f s }))
  Keeps-write w f = record { at = λ s h. h }

  set_authority_metadata-world :
      (w : sdk.World) (d a : Text) → Keeps (SameWorld w) (set_authority_metadata sdk d a)
  unfolding set_authority_metadata
  set_authority_metadata-world w d [] = search (keeps_rules, Keeps-write) depth 10
  set_authority_metadata-world w d (c ∷ a) = search (keeps_rules, Keeps-write) depth 10

  module _ (codec : CodecLaws sdk) (metadata : MetadataLaws sdk) where
    add_to_index :
        (creator denom : Text) (s : State sdk) (r : Result Error Unit) (s1 : State sdk)
        → WritesAdmin sdk denom creator
            (record s { world = sdk.set_denom_metadata (plain_metadata denom) s.world })
            (r, s1)
        → s1.world ≡ sdk.set_denom_metadata (plain_metadata denom) s.world
        → Records creator denom s (continue (r, s1) (λ _. add_denom_from_creator sdk creator denom))
    unfolding add_denom_from_creator
    add_to_index creator denom s (ok _) s1 written w = record {
      admins = λ e. admin_of-add_denom_from_creator sdk creator denom e s1 ∙ written e;
      indexed = get-set_self (get_creator_prefix creator ++ denom) denom s1.kv;
      described =
          rw w (rw (metadata.get-set denom (plain_metadata denom) s.world, text_eq_refl denom));
    }
    add_to_index creator denom s (err _) s1 same w = ap (λ (t : State sdk). t.kv) same
    add_to_index creator denom s (panic _) s1 same w = ap (λ (t : State sdk). t.kv) same

    pub create_denom_after_validation-Records :
        (creator denom : Text) (s : State sdk)
        → Records creator denom s (create_denom_after_validation sdk creator denom s)
    unfolding create_denom_after_validation
    create_denom_after_validation-Records creator denom s =
        let s0 : State sdk = record s {
          world = sdk.set_denom_metadata (plain_metadata denom) s.world;
        } in
        let m = set_authority_metadata sdk denom creator s0 in
        add_to_index creator denom s m.0 m.1
          (set_authority_metadata-WritesAdmin sdk codec denom creator s0)
          ((set_authority_metadata-world s0.world denom creator).at s0 refl)

  pub validate_create_denom-still :
      (s : State sdk) (creator subdenom : Text)
      → (validate_create_denom sdk creator subdenom s).1 ≡ s
  unfolding validate_create_denom
  validate_create_denom-still s creator subdenom = ground arith

  -- A denom that passes the validation is made of the creator and the subdenom, and is new.
  pub validate_create_denom-eq_ok :
      (creator subdenom denom : Text) (s : State sdk)
      → (validate_create_denom sdk creator subdenom s).0 ≡ ok denom
      → (get_token_denom sdk creator subdenom ≡ ok denom)
        × (sdk.get_denom_metadata denom s.world ≡ none)
  unfolding validate_create_denom
  validate_create_denom-eq_ok creator subdenom denom s h = ground arith

  module _ {P : State sdk → Type 0} (stable : IsStable sdk P) where
    Keeps-charge_fee : (fee : Option Coins) (creator : Text) → Keeps P (charge_fee sdk fee creator)
    Keeps-charge_fee none creator = search keeps_rules
    Keeps-charge_fee (some fee) creator = search (keeps_rules, stable.fund)

    pub Keeps-charge_for_create_denom :
        (creator : Text) → Keeps P (charge_for_create_denom sdk creator)
    unfolding charge_for_create_denom
    Keeps-charge_for_create_denom creator =
        search (keeps_rules, Keeps-charge_fee, stable.gas) depth 10

  -- How the creation of a denom may end: it was made of the creator and the subdenom, was unknown
  -- to the bank, and is recorded; or the module's store is as it was.
  abbrev pub Creates : Text → Text → State sdk → Result Error Text × State sdk → Type 0
  Creates creator subdenom s (ok denom, s') =
      (get_token_denom sdk creator subdenom ≡ ok denom)
      × (sdk.get_denom_metadata denom s.world ≡ none)
      × IsRecorded creator denom s s'
  Creates creator subdenom s (err _, s') = s'.kv ≡ s.kv
  Creates creator subdenom s (panic _, s') = s'.kv ≡ s.kv

  pub IsRecorded-same_store :
      (creator denom : Text) (s s1 s' : State sdk)
      → s1.kv ≡ s.kv
      → IsRecorded creator denom s1 s'
      → IsRecorded creator denom s s'
  IsRecorded-same_store creator denom s s1 s' same h = record {
    admins = λ e.
        h.admins e
        ∙ ap
            (λ (kv : Store).
              if text_eq denom e
              then some creator
              else sdk.decode_admin (or_empty (get (authority_key e) kv)))
            same;
    indexed = h.indexed;
    described = h.described;
  }
