-- ===== src/Wasm/Keys/Order.antt =====
-- The order of index keys is the order of time, in which the indexes of contracts are iterated.
use bignftd.Base.{
  ℕ, ◌<◌, ◌^◌, ◌≡◌, sym, ◌∙◌, Text, some, arith, ltb, ◌==◌, text_lt, text_lt-append,
  text_lt-big_endian, text_eq, text_eq-big_endian, true, ◌&&◌, ◌||◌, if◌then◌else◌,
  length-big_endian, big_endian, Fits-uint64,
}
use bignftd.Chain.Outcome.{ok}
use bignftd.Wasm.Position.{Position, less_than}
use bignftd.Wasm.Keys.{position_bytes}

-- Both numbers are uint64.
pub record IsPosition (p : Position) : Type 0 where
  pub height_fits : p.block_height < 2 ^ 64
  pub index_fits : p.tx_index < 2 ^ 64

joined :
    (s t x y : Text) (h h' i i' : ℕ)
    → text_lt s t ≡ ltb h h'
    → text_eq s t ≡ (h == h')
    → text_lt x y ≡ ltb i i'
    → (if text_lt s t then true else text_eq s t && text_lt x y) ≡ (ltb h h' || h == h' && ltb i i')
joined s t x y h h' i i' a b c = ground arith

-- The bytes of two positions, as an iterator compares them, are in the order of `LessThan`.
pub text_lt-position_bytes :
    (a b : Position) (s t : Text)
    → IsPosition a
    → IsPosition b
    → position_bytes (some a) ≡ ok s
    → position_bytes (some b) ≡ ok t
    → text_lt s t ≡ less_than (some a) (some b)
unfolding position_bytes less_than
text_lt-position_bytes a b s t ha hb es et =
    let split =
      text_lt-append (big_endian 8 a.block_height) (big_endian 8 b.block_height)
        (big_endian 8 a.tx_index) (big_endian 8 b.tx_index)
        (length-big_endian 8 a.block_height ∙ sym (length-big_endian 8 b.block_height)) in
    let heights =
      text_lt-big_endian 8 a.block_height b.block_height (Fits-uint64 a.block_height ha.height_fits)
        (Fits-uint64 b.block_height hb.height_fits) in
    let same =
      text_eq-big_endian 8 a.block_height b.block_height (Fits-uint64 a.block_height ha.height_fits)
        (Fits-uint64 b.block_height hb.height_fits) in
    let indexes =
      text_lt-big_endian 8 a.tx_index b.tx_index (Fits-uint64 a.tx_index ha.index_fits)
        (Fits-uint64 b.tx_index hb.index_fits) in
    cc (es, et)
    ∙ split
    ∙ joined _ _ _ _ a.block_height b.block_height a.tx_index b.tx_index heights same indexes
