-- ===== src/TokenFactory/Handle/Described.antt =====
-- No message makes the bank forget the metadata of a denom.
use bignftd.Base.{
  Text, ◌≡◌, ◌≢◌, sym, ◌∙◌, Option, none, some, List, [], ◌∷◌, text_eq, Bool-cases, inl, inr,
}
use bignftd.Chain.Outcome.{modify}
use bignftd.Chain.Keeps.{Keeps, keeps_rules}
use bignftd.Chain.Store.{Store}
use bignftd.Chain.Sdk.{Sdk, MetadataLaws, CoinLaws, Metadata, Error, Reply}
use bignftd.TokenFactory.State.{State, call}
use bignftd.TokenFactory.Keeper.{set_authority_metadata, add_denom_from_creator, set_admin}
use bignftd.TokenFactory.CreateDenom.{
  refuse_existing, validate_create_denom, create_denom_after_validation, create_denom,
}
use bignftd.TokenFactory.MsgServer.{handle_create_denom, handle_change_admin}
use bignftd.TokenFactory.Handle.{
  Message, create_denom as create_denom_msg, mint, burn, force_transfer, change_admin,
  set_denom_metadata, handle,
}
use bignftd.TokenFactory.Handle.Effect.{
  IsStable, Keeps-get_authority_metadata, Keeps-require_admin, Keeps-handle_mint, Keeps-handle_burn,
  Keeps-handle_force_transfer, Keeps-handle_set_denom_metadata,
}
use bignftd.TokenFactory.Handle.Creation.{Keeps-charge_for_create_denom}

module _ (sdk : Sdk) where
  -- The bank has metadata of the denom.
  pub record IsDescribed (d : Text) (s : State sdk) : Type 0 where
    pub known : sdk.get_denom_metadata d s.world ≢ none

  known_described :
      (more : MetadataLaws sdk) (d : Text) (m : Metadata) (w : sdk.World)
      → sdk.get_denom_metadata d w ≢ none
      → sdk.get_denom_metadata d (sdk.set_denom_metadata m w) ≢ none
  known_described more d m w h = elim (Bool-cases (text_eq m.base d)) [
    | inl same ↦ rw (more.get-set d m w, same) (λ e. cc e)
    | inr other ↦ rw (more.get-set d m w, other) h
  ]

  module _ (coins : CoinLaws sdk) (more : MetadataLaws sdk) (d : Text) where
    Keeps-world :
        (f : sdk.World → Reply Unit × sdk.World)
        → ((w : sdk.World) → sdk.get_denom_metadata d (f w).1 ≡ sdk.get_denom_metadata d w)
        → Keeps (IsDescribed d) (call sdk f)
    Keeps-world f e = record { at = λ s h. record { known = λ n. h.known (sym (e s.world) ∙ n) } }

    IsDescribed-stable : IsStable sdk (IsDescribed d)
    IsDescribed-stable = record {
      mint = λ m c. Keeps-world _ (λ w. (coins.mint-metadata d m c w));
      burn = λ m c. Keeps-world _ (λ w. (coins.burn-metadata d m c w));
      send = λ a b c. Keeps-world _ (λ w. (coins.send-metadata d a b c w));
      send_from = λ m a c. Keeps-world _ (λ w. (coins.send_from-metadata d m a c w));
      send_to = λ m a c. Keeps-world _ (λ w. (coins.send_to-metadata d m a c w));
      fund = λ a c. Keeps-world _ (λ w. (coins.fund-metadata d a c w));
      gas = λ g. Keeps-world _ (λ w. (coins.gas-metadata d g w));
      event = λ e. record { at = λ s h. record { known = h.known } };
      describe =
          λ m. record { at = λ s h. record { known = known_described more d m s.world h.known } };
    }

    Keeps-write :
        (f : State sdk → Store)
        → Keeps {E = Error} (IsDescribed d) (modify (λ s. record s { kv = f s }))
    Keeps-write f = record { at = λ s h. record { known = h.known } }

    Keeps-set_authority_metadata :
        (e a : Text) → Keeps (IsDescribed d) (set_authority_metadata sdk e a)
    unfolding set_authority_metadata
    Keeps-set_authority_metadata e [] = search (keeps_rules, Keeps-write) depth 10
    Keeps-set_authority_metadata e (c ∷ a) = search (keeps_rules, Keeps-write) depth 10

    Keeps-refuse_existing :
        (o : Option Metadata) (e : Text) → Keeps (IsDescribed d) (refuse_existing sdk o e)
    Keeps-refuse_existing none e = search keeps_rules
    Keeps-refuse_existing (some m) e = search keeps_rules

    Keeps-validate_create_denom :
        (c t : Text) → Keeps (IsDescribed d) (validate_create_denom sdk c t)
    unfolding validate_create_denom
    Keeps-validate_create_denom c t = search (keeps_rules, Keeps-refuse_existing) depth 10

    Keeps-create_denom_after_validation :
        (c e : Text) → Keeps (IsDescribed d) (create_denom_after_validation sdk c e)
    unfolding create_denom_after_validation add_denom_from_creator
    Keeps-create_denom_after_validation c e =
        search (keeps_rules, IsDescribed-stable.describe, Keeps-set_authority_metadata, Keeps-write)
          depth 10

    Keeps-create_denom : (c t : Text) → Keeps (IsDescribed d) (create_denom sdk c t)
    unfolding create_denom
    Keeps-create_denom c t =
        search
          (
            keeps_rules,
            Keeps-validate_create_denom,
            Keeps-create_denom_after_validation,
            Keeps-charge_for_create_denom sdk IsDescribed-stable,
          )
          depth 10

    pub handle-IsDescribed :
        (capabilities : List Text) (m : Message) → Keeps (IsDescribed d) (handle sdk capabilities m)
    unfolding handle handle_create_denom handle_change_admin set_admin
    handle-IsDescribed capabilities (create_denom_msg m) =
        search (keeps_rules, Keeps-create_denom, IsDescribed-stable.event) depth 10
    handle-IsDescribed capabilities (mint m) =
        Keeps-handle_mint sdk capabilities IsDescribed-stable m
    handle-IsDescribed capabilities (burn m) =
        Keeps-handle_burn sdk capabilities IsDescribed-stable m
    handle-IsDescribed capabilities (force_transfer m) =
        Keeps-handle_force_transfer sdk capabilities IsDescribed-stable m
    handle-IsDescribed capabilities (change_admin m) =
        search
          (
            keeps_rules,
            Keeps-set_authority_metadata,
            Keeps-get_authority_metadata,
            Keeps-require_admin sdk capabilities,
            IsDescribed-stable.event,
          )
          depth 10
    handle-IsDescribed capabilities (set_denom_metadata m) =
        Keeps-handle_set_denom_metadata sdk capabilities IsDescribed-stable m
