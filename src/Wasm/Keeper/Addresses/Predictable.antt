-- ===== src/Wasm/Keeper/Addresses/Predictable.antt =====
-- Predictable addresses are hashes of keys that tell apart all that goes into them
-- (x/wasm/keeper/addresses.go).
use bignftd.Base.{
  [], ◌<◌, ◌≡◌, sym, ◌∙◌, Text, ◌++◌, length, append_assoc, append-nil, append-injective,
  length-big_endian, big_endian-injective, Fits-uint64, uint64_to_big_endian,
}
use bignftd.Wasm.Gas.{u64_mod}
use bignftd.Wasm.Keeper.Addresses.{uint64_length_prefix, predictable_key}

-- A text behind its length, with a rest behind it.
uint64_length_prefix-injective :
    (s t x y : Text)
    → length s < u64_mod
    → length t < u64_mod
    → uint64_length_prefix s ++ x ≡ uint64_length_prefix t ++ y
    → (s ≡ t) × (x ≡ y)
unfolding uint64_length_prefix
uint64_length_prefix-injective s t x y hs ht e =
    let (lengths, rest) =
      append-injective (uint64_to_big_endian (length s)) (uint64_to_big_endian (length t)) (s ++ x)
        (t ++ y) (length-big_endian 8 (length s) ∙ sym (length-big_endian 8 (length t)))
        (sym (append_assoc (uint64_to_big_endian (length s)) s x)
          ∙ e
          ∙ append_assoc (uint64_to_big_endian (length t)) t y) in
    append-injective s t x y
      (big_endian-injective 8 (length s) (length t) (Fits-uint64 (length s) hs)
        (Fits-uint64 (length t) ht) lengths)
      rest

-- The key that `BuildContractAddressPredictable` hashes is different for different arguments: where
-- two keys are the same, and no argument has 2⁶⁴ bytes, so are the checksums, the creators, the salts
-- and the messages.
pub predictable_key-injective :
    (checksum creator salt msg checksum' creator' salt' msg' : Text)
    → length checksum < u64_mod
    → length creator < u64_mod
    → length salt < u64_mod
    → length msg < u64_mod
    → length checksum' < u64_mod
    → length creator' < u64_mod
    → length salt' < u64_mod
    → length msg' < u64_mod
    → predictable_key checksum creator salt msg ≡ predictable_key checksum' creator' salt' msg'
    → (checksum ≡ checksum') × (creator ≡ creator') × (salt ≡ salt') × (msg ≡ msg')
unfolding predictable_key
predictable_key-injective checksum creator salt msg checksum' creator' salt' msg' h1 h2 h3 h4 k1 k2
      k3 k4 e =
    let (checksums, e1) = uint64_length_prefix-injective checksum checksum' _ _ h1 k1 e in
    let (creators, e2) = uint64_length_prefix-injective creator creator' _ _ h2 k2 e1 in
    let (salts, e3) = uint64_length_prefix-injective salt salt' _ _ h3 k3 e2 in
    let (msgs, e4) =
      uint64_length_prefix-injective msg msg' [] [] h4 k4 (
        append-nil (uint64_length_prefix msg)
        ∙ e3
        ∙ sym (append-nil (uint64_length_prefix msg'))) in
    (checksums, creators, salts, msgs)
