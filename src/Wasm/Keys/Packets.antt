-- ===== src/Wasm/Keys/Packets.antt =====
-- Packets that are acknowledged later are kept apart by their keys (`GetAsyncPacketKey`).
use bignftd.Base.{
  ℕ, ◌<◌, ◌^◌, ◌≡◌, sym, ◌∙◌, Text, ◌++◌, arith, append-injective, length, length-big_endian,
  big_endian, big_endian-injective, Fits-uint64,
}
use bignftd.Wasm.Keys.{get_async_packet_key}

-- No two packets, of channels shorter than 2^32 bytes and uint64 sequences, have the same key.
pub get_async_packet_key-injective :
    (channel channel' : Text) (sequence sequence' : ℕ)
    → length channel < 2 ^ 32
    → length channel' < 2 ^ 32
    → sequence < 2 ^ 64
    → sequence' < 2 ^ 64
    → get_async_packet_key channel sequence ≡ get_async_packet_key channel' sequence'
    → (channel ≡ channel') × (sequence ≡ sequence')
unfolding get_async_packet_key
get_async_packet_key-injective channel channel' n n' hc hc' hn hn' e =
    let (lengths, rest) =
      append-injective (big_endian 4 (length channel)) (big_endian 4 (length channel'))
        (channel ++ big_endian 8 n) (channel' ++ big_endian 8 n')
        (length-big_endian 4 (length channel) ∙ sym (length-big_endian 4 (length channel'))) e in
    let same : length channel ≡ length channel' =
      big_endian-injective 4 (length channel) (length channel') (omega arith) (omega arith)
        lengths in
    let (channels, numbers) =
      append-injective channel channel' (big_endian 8 n) (big_endian 8 n') same rest in
    (channels, big_endian-injective 8 n n' (Fits-uint64 n hn) (Fits-uint64 n' hn') numbers)
