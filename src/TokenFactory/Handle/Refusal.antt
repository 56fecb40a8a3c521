-- ===== src/TokenFactory/Handle/Refusal.antt =====
-- Who may do what: a message about a denom from anyone but its admin is refused.
use bignftd.Base.{
  Text, ◌≡◌, ◌≢◌, refl, Option, none, some, List, text_eq_ne, Bool-cases, Option-cases, inl, inr,
}
use bignftd.Chain.Outcome.{Result, ok, err, panic}
use bignftd.Chain.Sdk.{Sdk, Error, unauthorized}
use bignftd.TokenFactory.State.{
  State, is_capability_enabled, enable_force_transfer, enable_set_metadata,
}
use bignftd.TokenFactory.Keeper.{get_authority_metadata}
use bignftd.TokenFactory.MsgServer.{
  require_admin, handle_mint, handle_burn, handle_force_transfer, handle_change_admin,
  handle_set_denom_metadata,
}
use bignftd.TokenFactory.Authority.{admin_of}
use bignftd.TokenFactory.Handle.{
  Message, create_denom, mint, burn, force_transfer, change_admin, set_denom_metadata, sender_of,
  handle,
}

-- The denom whose admin must have sent the message; none for a new denom.
abbrev pub governed_denom : Message → Option Text
governed_denom (create_denom m) = none
governed_denom (mint m) = some m.amount.denom
governed_denom (burn m) = some m.amount.denom
governed_denom (force_transfer m) = some m.amount.denom
governed_denom (change_admin m) = some m.denom
governed_denom (set_denom_metadata m) = some m.metadata.base

module _ (sdk : Sdk) (capabilities : List Text) where
  -- The call ended in an error and has changed nothing.
  abbrev pub IsRefused : {A : Type 0} → State sdk → Result Error A × State sdk → Type 0
  IsRefused s (ok _, s') = ⊥
  IsRefused s (err _, s') = s' ≡ s
  IsRefused s (panic _, s') = ⊥

  module _ (s : State sdk) (denom sender admin : Text) (stored : admin_of sdk denom s ≡ some admin)
      (other : sender ≢ admin) where
    pub require_admin-refuses :
        require_admin sdk capabilities sender denom s ≡ (err unauthorized, s)
    unfolding require_admin get_authority_metadata
    require_admin-refuses = rw (stored, text_eq_ne sender admin other)

  governed :
      (s : State sdk) (d denom admin : Text)
      → some d ≡ some denom
      → admin_of sdk denom s ≡ some admin
      → admin_of sdk d s ≡ some admin
  governed s d denom admin e stored = let e' : d ≡ denom = cc in rw e' stored

  -- If a denom has a stored admin, and a message to mint, burn or move it by force, to change its
  -- admin or to set its metadata comes from another sender, then its handler ends with an error
  -- and changes nothing.
  pub handle-IsRefused :
      (msg : Message) (s : State sdk) (denom admin : Text)
      → governed_denom msg ≡ some denom
      → admin_of sdk denom s ≡ some admin
      → sender_of msg ≢ admin
      → IsRefused s (handle sdk capabilities msg s)
  unfolding handle handle_mint handle_burn handle_force_transfer handle_change_admin
      handle_set_denom_metadata
  handle-IsRefused (create_denom m) s denom admin g stored other = cc
  handle-IsRefused (mint m) s denom admin g stored other =
      elim (Option-cases (sdk.get_denom_metadata m.amount.denom s.world)) [
        | inl missing ↦ rw missing refl
        | inr (metadata, found) ↦
            rw
              (
                found,
                require_admin-refuses s m.amount.denom m.sender admin
                    (governed s m.amount.denom denom admin g stored) other,
              )
              refl
      ]
  handle-IsRefused (burn m) s denom admin g stored other =
      rw
        (require_admin-refuses s m.amount.denom m.sender admin
          (governed s m.amount.denom denom admin g stored) other)
        refl
  handle-IsRefused (force_transfer m) s denom admin g stored other =
      elim (Bool-cases (is_capability_enabled capabilities enable_force_transfer)) [
        | inl on ↦
            rw
              (
                on,
                require_admin-refuses s m.amount.denom m.sender admin
                    (governed s m.amount.denom denom admin g stored) other,
              )
              refl
        | inr off ↦ rw off refl
      ]
  handle-IsRefused (change_admin m) s denom admin g stored other =
      rw
        (require_admin-refuses s m.denom m.sender admin (governed s m.denom denom admin g stored)
          other)
        refl
  handle-IsRefused (set_denom_metadata m) s denom admin g stored other =
      elim (Bool-cases (is_capability_enabled capabilities enable_set_metadata)) [
        | inr off ↦ rw off refl
        | inl on ↦ elim (Bool-cases (sdk.is_valid_metadata m.metadata)) [
          | inr bad ↦ rw (on, bad) refl
          | inl good ↦
              rw
                (
                  on,
                  good,
                  require_admin-refuses s m.metadata.base m.sender admin
                      (governed s m.metadata.base denom admin g stored) other,
                )
                refl
        ]
      ]
