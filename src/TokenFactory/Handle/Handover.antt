-- ===== src/TokenFactory/Handle/Handover.antt =====
-- The change of an admin (`ChangeAdmin` of x/tokenfactory/keeper/msg_server.go).
use bignftd.Base.{
  Text, ◌≡◌, refl, some, List, text_eq, text_eq_iff, if◌then◌else◌, Option-cases, Bool-cases, inl,
  inr,
}
use bignftd.Chain.Outcome.{Result, ok, err, panic, continue}
use bignftd.Chain.Sdk.{Sdk, CodecLaws, Error}
use bignftd.TokenFactory.State.{State, Event, emit}
use bignftd.TokenFactory.Keeper.{get_authority_metadata, set_authority_metadata, set_admin}
use bignftd.TokenFactory.Messages.{MsgChangeAdmin}
use bignftd.TokenFactory.MsgServer.{require_admin, handle_change_admin}
use bignftd.TokenFactory.Authority.{admin_of, WritesAdmin, set_authority_metadata-WritesAdmin}

module _ (sdk : Sdk) (codec : CodecLaws sdk) where
  -- The two ways in which the message ends.
  abbrev pub HandsOver : MsgChangeAdmin → State sdk → Result Error Unit × State sdk → Type 0
  HandsOver m s (ok _, s') =
      (admin_of sdk m.denom s ≡ some m.sender)
      × ((e : Text)
          → admin_of sdk e s' ≡ (if text_eq m.denom e then some m.new_admin else admin_of sdk e s))
  HandsOver m s (err _, s') = s' ≡ s
  HandsOver m s (panic _, s') = s' ≡ s

  written :
      (m : MsgChangeAdmin) (s : State sdk) (event : Event) (r : Result Error Unit) (s' : State sdk)
      → admin_of sdk m.denom s ≡ some m.sender
      → WritesAdmin sdk m.denom m.new_admin s (r, s')
      → HandsOver m s (continue (r, s') (λ _. emit sdk event))
  written m s event (ok _) s' was h = (was, h)
  written m s event (err _) s' was h = h
  written m s event (panic _) s' was h = h

  -- A message that changes the admin of a denom ends in one of two ways. With no error: it came
  -- from the admin, and in all the module only the admin of that denom has changed, to the new
  -- one. With an error or a panic: nothing has changed.
  pub handle_change_admin-HandsOver :
      (capabilities : List Text) (m : MsgChangeAdmin) (s : State sdk)
      → HandsOver m s (handle_change_admin sdk capabilities m s)
  unfolding handle_change_admin require_admin get_authority_metadata set_admin
  handle_change_admin-HandsOver capabilities m s = elim (Option-cases (admin_of sdk m.denom s)) [
    | inl unread ↦ rw unread refl
    | inr (admin, read) ↦ elim (Bool-cases (text_eq m.sender admin)) [
      | inr other ↦ rw (read, other) refl
      | inl same ↦
          let (r, s') = set_authority_metadata sdk m.denom m.new_admin s in
          rw (read, same, read)
            (written m s _ r s' (rw ((text_eq_iff m.sender admin).0 same) read)
              (set_authority_metadata-WritesAdmin sdk codec m.denom m.new_admin s))
    ]
  ]
