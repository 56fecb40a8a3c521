-- ===== src/TokenFactory/Denoms/RoundTrip.antt =====
-- A denom is taken apart into what it was made of, and the other way round.
use bignftd.Base.{
  Option-cases, inl, inr, sym, ◌∙◌, Text, Lacks, ◌≡◌, true, false, some, List, [], ◌∷◌, arith, ◌++◌,
  length, ◌≤◌, split, join, split-append, join-split, contains_byte-Lacks, contains_byte,
  text_eq_iff, text_eq_refl,
}
use bignftd.Chain.Outcome.{ok}
use bignftd.Chain.Sdk.{Sdk, Addr}
use bignftd.TokenFactory.Denoms.{
  module_denom_prefix, slash, get_token_denom, deconstruct_parts, deconstruct_denom,
  max_subdenom_length, max_creator_length,
}

split_denom :
    (creator subdenom : Text)
    → Lacks slash creator
    → split slash (module_denom_prefix ++ slash ∷ (creator ++ slash ∷ subdenom))
      ≡ (module_denom_prefix, creator ∷ (split slash subdenom).0 ∷ (split slash subdenom).1)
split_denom creator subdenom h =
    rw (split-append slash module_denom_prefix (creator ++ slash ∷ subdenom) (omega arith))
      (rw (split-append slash creator subdenom h))

module _ (sdk : Sdk) where
  -- What a successful `get_token_denom` has checked.
  pub record Built (creator subdenom denom : Text) : Type 0 where
    pub is_joined : denom ≡ module_denom_prefix ++ slash ∷ (creator ++ slash ∷ subdenom)
    pub is_valid : sdk.is_valid_denom denom ≡ true
    pub has_plain_creator : contains_byte slash creator ≡ false
    pub fits : length subdenom ≤ max_subdenom_length
    pub creator_fits : length creator ≤ max_creator_length

  pub get_token_denom-Built :
      (creator subdenom denom : Text)
      → get_token_denom sdk creator subdenom ≡ ok denom
      → Built creator subdenom denom
  unfolding get_token_denom join
  get_token_denom-Built creator subdenom denom h = ground arith

  Built-split :
      (creator subdenom denom : Text)
      → Built creator subdenom denom
      → split slash denom
        ≡ (module_denom_prefix, creator ∷ (split slash subdenom).0 ∷ (split slash subdenom).1)
  Built-split creator subdenom denom b =
      rw b.is_joined
        (split_denom creator subdenom (contains_byte-Lacks slash creator b.has_plain_creator))

  -- Two pairs of creator and subdenom never make the same denom.
  pub get_token_denom-injective :
      (creator subdenom creator' subdenom' denom : Text)
      → get_token_denom sdk creator subdenom ≡ ok denom
      → get_token_denom sdk creator' subdenom' ≡ ok denom
      → (creator ≡ creator') × (subdenom ≡ subdenom')
  get_token_denom-injective creator subdenom creator' subdenom' denom h h' =
      let e = Built-split creator subdenom denom (get_token_denom-Built creator subdenom denom h) in
      let e' =
        Built-split creator' subdenom' denom (get_token_denom-Built creator' subdenom' denom h') in
      (cc (e, e'), cc (e, e', join-split slash subdenom, join-split slash subdenom'))

  -- A denom that was made from a creator's bech32 text and a subdenom is taken apart into the
  -- text of the creator's address and that subdenom.
  pub deconstruct_denom-get_token_denom :
      (creator subdenom denom : Text) (a : Addr)
      → get_token_denom sdk creator subdenom ≡ ok denom
      → sdk.from_bech32 creator ≡ some a
      → deconstruct_denom sdk denom ≡ ok (sdk.to_bech32 a, subdenom)
  unfolding deconstruct_denom deconstruct_parts
  deconstruct_denom-get_token_denom creator subdenom denom a h ha =
      let b = get_token_denom-Built creator subdenom denom h in
      ground (
        arith,
        b.is_valid,
        Built-split creator subdenom denom b,
        join-split slash subdenom,
        text_eq_refl module_denom_prefix,
        ha,
      )

  deconstruct_parts-eq_ok :
      (prefix : Text) (parts : List Text) (creator subdenom : Text)
      → deconstruct_parts sdk prefix parts ≡ ok (creator, subdenom)
      → (text : Text) × (a : Addr) × (join slash prefix parts
          ≡ module_denom_prefix ++ slash ∷ (text ++ slash ∷ subdenom))
        × (prefix ≡ module_denom_prefix)
        × (sdk.from_bech32 text ≡ some a)
        × (creator ≡ sdk.to_bech32 a)
  unfolding deconstruct_parts join
  deconstruct_parts-eq_ok prefix [] creator subdenom h = cc
  deconstruct_parts-eq_ok prefix (text ∷ []) creator subdenom h = cc
  deconstruct_parts-eq_ok prefix (text ∷ part ∷ parts) creator subdenom h =
      elim (Option-cases (sdk.from_bech32 text)) [
        | inl unknown ↦ absurd (ground arith)
        | inr (a, known) ↦
            let is_prefix : prefix ≡ module_denom_prefix =
              ground (arith, text_eq_iff prefix module_denom_prefix) in
            (text, a, ground arith, is_prefix, known, ground arith)
      ]

  -- What is taken apart is `factory/`, a text that parses to the creator's address, a slash and
  -- the subdenom, and is a valid denom.
  pub deconstruct_denom-eq_ok :
      (denom creator subdenom : Text)
      → deconstruct_denom sdk denom ≡ ok (creator, subdenom)
      → (text : Text) × (a : Addr) × (denom
          ≡ module_denom_prefix ++ slash ∷ (text ++ slash ∷ subdenom))
        × (sdk.from_bech32 text ≡ some a)
        × (creator ≡ sdk.to_bech32 a)
        × (sdk.is_valid_denom denom ≡ true)
  unfolding deconstruct_denom deconstruct_parts
  deconstruct_denom-eq_ok denom creator subdenom h =
      let (text, a, ps, p, hf, hc) =
        deconstruct_parts-eq_ok (split slash denom).0 (split slash denom).1 creator subdenom
          (ground arith) in
      (text, a, sym (join-split slash denom) ∙ ps, hf, hc, ground arith)
