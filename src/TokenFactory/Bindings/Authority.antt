-- ===== src/TokenFactory/Bindings/Authority.antt =====
-- A contract has no more rights over a denom than any other account: its messages go through the
-- same check of the admin (x/tokenfactory/bindings/message_plugin.go).
use bignftd.Base.{
  Text, ◌≡◌, ◌≢◌, refl, sym, ap, ◌∙◌, false, Option, none, some, List, arith, text_eq, text_eq_ne,
  Bool-cases, Option-cases, inl, inr,
}
use bignftd.Chain.Outcome.{Result, ok, err, panic, continue, ◌>>=◌, lift}
use bignftd.Chain.Sdk.{Sdk, Error, Reply, Addr}
use bignftd.TokenFactory.State.{State, Action}
use bignftd.TokenFactory.Keeper.{get_authority_metadata}
use bignftd.TokenFactory.Authority.{admin_of}
use bignftd.TokenFactory.Handle.{
  Message, mint, burn, force_transfer, change_admin, handle, sender_of,
}
use bignftd.TokenFactory.Handle.Refusal.{governed_denom, IsRefused, handle-IsRefused}
use bignftd.TokenFactory.Messages.{MsgMint, MsgBurn, MsgForceTransfer, MsgChangeAdmin}
use bignftd.TokenFactory.MsgServer.{
  handle_mint, handle_burn, handle_force_transfer, handle_change_admin,
}
use bignftd.TokenFactory.Bindings.{
  CreateDenom, ChangeAdmin, MintTokens, BurnTokens, SetMetadata, ForceTransfer, TokenMsg,
  WasmMetadata, parse_address, perform_mint, perform_change_admin, perform_burn,
  perform_force_transfer, perform_set_metadata,
}
use bignftd.TokenFactory.Bindings.Dispatch.{Dispatched, dispatch_token}

-- The denom that a message of a contract is about; none for a new denom, and for no message.
abbrev pub token_denom : TokenMsg → Option Text
token_denom t = elim t.create_denom [
  | some c ↦ none
  | none ↦ elim t.mint_tokens [
    | some m ↦ some m.denom
    | none ↦ elim t.change_admin [
      | some c ↦ some c.denom
      | none ↦ elim t.burn_tokens [
        | some b ↦ some b.denom
        | none ↦ elim t.set_metadata [
          | some m ↦ some m.denom
          | none ↦ elim t.force_transfer [ some f ↦ some f.denom | none ↦ none ]
        ]
      ]
    ]
  ]
]

abbrev token :
    Option CreateDenom
    → Option MintTokens
    → Option ChangeAdmin
    → Option BurnTokens
    → Option SetMetadata
    → Option ForceTransfer
    → TokenMsg
token c m a b d f = record {
  create_denom = c;
  mint_tokens = m;
  change_admin = a;
  burn_tokens = b;
  set_metadata = d;
  force_transfer = f;
}

module _ (sdk : Sdk) where
  -- The call did not succeed and has changed nothing.
  abbrev pub Fails : {A : Type 0} → State sdk → Result Error A × State sdk → Type 0
  Fails s (ok _, s') = ⊥
  Fails s (err _, s') = s' ≡ s
  Fails s (panic _, s') = s' ≡ s

  pub record Refuses {A : Type 0} (s : State sdk) (m : Action sdk A) : Type 0 where
    pub at : Fails s (m s)

  continue-fails :
      {A B : Type 0} (s : State sdk) (r : Result Error A × State sdk) (f : A → Action sdk B)
      → Fails s r
      → Fails s (continue r f)
  continue-fails s (ok _, s') f h = elim h [ ]
  continue-fails s (err _, s') f h = h
  continue-fails s (panic _, s') f h = h

  Refuses-bind :
      {A B : Type 0} (s : State sdk) (m : Action sdk A) (f : A → Action sdk B)
      → Refuses s m
      → Refuses s (m >>= f)
  Refuses-bind s m f h = record { at = continue-fails s (m s) f h.at }

  Refuses-lift :
      {A B : Type 0} (s : State sdk) (r : Reply A) (f : A → Action sdk B)
      → ((a : A) → Refuses s (f a))
      → Refuses s (lift r >>= f)
  Refuses-lift s (ok a) f h = record { at = (h a).at }
  Refuses-lift s (err _) f h = record { at = refl }
  Refuses-lift s (panic _) f h = record { at = refl }

  module _ (capabilities : List Text) where
    Refuses-parse_address :
        {B : Type 0} (s : State sdk) (t : Text) (f : Addr → Action sdk B)
        → ((a : Addr) → Refuses s (f a))
        → Refuses s (parse_address sdk capabilities t >>= f)
    unfolding parse_address
    Refuses-parse_address s t f h = record {
      at = elim (Option-cases (sdk.from_bech32 t)) [
        | inl unknown ↦ rw unknown refl
        | inr (a, known) ↦ elim (Bool-cases (sdk.is_valid_address a)) [
          | inl good ↦ rw (known, good) ((h a).at)
          | inr bad ↦ rw (known, bad) refl
        ]
      ];
    }

    fails_refused :
        (s : State sdk) (r : Result Error Unit × State sdk)
        → IsRefused sdk capabilities s r
        → Fails s r
    fails_refused s (ok _, s') h = elim h [ ]
    fails_refused s (err _, s') h = h
    fails_refused s (panic _, s') h = elim h [ ]

    module _ (contract : Addr) (s : State sdk) (denom admin : Text)
        (stored : admin_of sdk denom s ≡ some admin) (other : sdk.to_bech32 contract ≢ admin) where
      Refuses-handle :
          (m : Message)
          → governed_denom m ≡ some denom
          → sender_of m ≡ sdk.to_bech32 contract
          → Refuses s (handle sdk capabilities m)
      Refuses-handle m governs sent =
          let not_admin : sender_of m ≢ admin = λ e. other (sym sent ∙ e) in
          record {
            at =
                fails_refused s (handle sdk capabilities m s)
                  (handle-IsRefused sdk capabilities m s denom admin governs stored not_admin);
          }

      Refuses-handle_mint :
          (m : MsgMint)
          → m.amount.denom ≡ denom
          → m.sender ≡ sdk.to_bech32 contract
          → Refuses s (handle_mint sdk capabilities m)
      unfolding handle
      Refuses-handle_mint m e sent = Refuses-handle (mint m) (ap some e) sent

      Refuses-handle_burn :
          (m : MsgBurn)
          → m.amount.denom ≡ denom
          → m.sender ≡ sdk.to_bech32 contract
          → Refuses s (handle_burn sdk capabilities m)
      unfolding handle
      Refuses-handle_burn m e sent = Refuses-handle (burn m) (ap some e) sent

      Refuses-handle_force_transfer :
          (m : MsgForceTransfer)
          → m.amount.denom ≡ denom
          → m.sender ≡ sdk.to_bech32 contract
          → Refuses s (handle_force_transfer sdk capabilities m)
      unfolding handle
      Refuses-handle_force_transfer m e sent = Refuses-handle (force_transfer m) (ap some e) sent

      Refuses-handle_change_admin :
          (m : MsgChangeAdmin)
          → m.denom ≡ denom
          → m.sender ≡ sdk.to_bech32 contract
          → Refuses s (handle_change_admin sdk capabilities m)
      unfolding handle
      Refuses-handle_change_admin m e sent = Refuses-handle (change_admin m) (ap some e) sent

      perform_mint-Refuses :
          (m : MintTokens)
          → m.denom ≡ denom
          → Refuses s (perform_mint sdk capabilities contract (some m))
      unfolding perform_mint
      perform_mint-Refuses m e =
          search (Refuses-lift, Refuses-parse_address, Refuses-bind, Refuses-handle_mint) depth 12

      perform_burn-Refuses :
          (m : BurnTokens)
          → m.denom ≡ denom
          → Refuses s (perform_burn sdk capabilities contract (some m))
      unfolding perform_burn
      perform_burn-Refuses m e = search (Refuses-lift, Refuses-bind, Refuses-handle_burn) depth 12

      perform_force_transfer-Refuses :
          (m : ForceTransfer)
          → m.denom ≡ denom
          → Refuses s (perform_force_transfer sdk capabilities contract (some m))
      unfolding perform_force_transfer
      perform_force_transfer-Refuses m e =
          search (Refuses-lift, Refuses-parse_address, Refuses-bind, Refuses-handle_force_transfer)
            depth 12

      perform_change_admin-Refuses :
          (m : ChangeAdmin)
          → m.denom ≡ denom
          → Refuses s (perform_change_admin sdk capabilities contract (some m))
      unfolding perform_change_admin
      perform_change_admin-Refuses m e =
          search (Refuses-lift, Refuses-parse_address, Refuses-bind, Refuses-handle_change_admin)
            depth 12

      perform_set_metadata-Refuses :
          (d : Text) (m : WasmMetadata)
          → d ≡ denom
          → Refuses s (perform_set_metadata sdk capabilities contract d m)
      unfolding perform_set_metadata get_authority_metadata
      perform_set_metadata-Refuses d m e =
          let read : admin_of sdk d s ≡ some admin = rw e stored in
          let differs : text_eq admin (sdk.to_bech32 contract) ≡ false =
            text_eq_ne admin (sdk.to_bech32 contract) (λ e. other (sym e)) in
          record { at = rw (read, differs) refl }

      module _ {Msg : Type 0} (custom : Msg → Option Text) (parse : Text → Option (Option TokenMsg))
          (marshal : Text → Reply Text) (wrapped : Addr → Text → Msg → Action sdk Dispatched) where
        Refuses-token :
            (c : Option CreateDenom) (m : Option MintTokens) (a : Option ChangeAdmin)
            (b : Option BurnTokens) (d : Option SetMetadata) (f : Option ForceTransfer)
            (otherwise : Action sdk Dispatched)
            → token_denom (token c m a b d f) ≡ some denom
            → Refuses s (
                dispatch_token sdk capabilities custom parse marshal wrapped contract
                  (token c m a b d f)
                  otherwise)
        unfolding dispatch_token
        Refuses-token (some c) m a b d f otherwise governs = absurd (ground arith)
        Refuses-token none (some m) a b d f otherwise governs =
            Refuses-bind s (perform_mint sdk capabilities contract (some m)) _
              (perform_mint-Refuses m (cc governs))
        Refuses-token none none (some a) b d f otherwise governs =
            Refuses-bind s (perform_change_admin sdk capabilities contract (some a)) _
              (perform_change_admin-Refuses a (cc governs))
        Refuses-token none none none (some b) d f otherwise governs =
            Refuses-bind s (perform_burn sdk capabilities contract (some b)) _
              (perform_burn-Refuses b (cc governs))
        Refuses-token none none none none (some d) f otherwise governs =
            Refuses-bind s (perform_set_metadata sdk capabilities contract d.denom d.metadata) _
              (perform_set_metadata-Refuses d.denom d.metadata (cc governs))
        Refuses-token none none none none none (some f) otherwise governs =
            Refuses-bind s (perform_force_transfer sdk capabilities contract (some f)) _
              (perform_force_transfer-Refuses f (cc governs))
        Refuses-token none none none none none none otherwise governs = absurd (ground arith)

        -- A message of a contract that is not the denom's admin, to mint, burn or move the denom
        -- by force, to change its admin or to set its metadata, does not succeed and changes
        -- nothing.
        pub dispatch_token-Fails :
            (t : TokenMsg) (otherwise : Action sdk Dispatched)
            → token_denom t ≡ some denom
            → Fails s (
                dispatch_token sdk capabilities custom parse marshal wrapped contract t otherwise s)
        dispatch_token-Fails t otherwise governs =
            (Refuses-token t.create_denom t.mint_tokens t.change_admin t.burn_tokens t.set_metadata
              t.force_transfer otherwise governs).at
