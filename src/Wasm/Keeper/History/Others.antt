-- ===== src/Wasm/Keeper/History/Others.antt =====
-- The histories of different contracts do not meet, whatever the lengths of the addresses: a key
-- below a longer or a shorter address is passed over by its length (x/wasm/keeper/keeper.go).
use bignftd.Base.{
  ℕ, ◌+◌, ◌%◌, ◌≡◌, ◌≢◌, refl, sym, ap, ◌∙◌, Text, Option, none, some, List, [], ◌∷◌, ◌++◌, length,
  arith, length-append, append-injective, strip_prefix, strip_prefix-eq_some, uint64_to_big_endian,
  length-big_endian, ◌==◌, ==_iff, Bool-cases, inl, inr,
}
use bignftd.Chain.Store.{Store}
use bignftd.Chain.Sorted.{Unseen, seen, entries_of-set-Unseen}
use bignftd.Chain.Sdk.{Addr}
use bignftd.Wasm.Gas.{u64_mod}
use bignftd.Wasm.Contract.{HistoryEntry}
use bignftd.Wasm.Keys.{
  get_contract_code_history_element_prefix, get_contract_code_history_element_key,
}
use bignftd.Wasm.Keeper.Platform.{Platform, Context}
use bignftd.Wasm.Keeper.History.{
  last_entry, last_position, history_elements, store_elements, append_to_contract_history,
  decode_elements, get_contract_history,
}

seen_other :
    (n : ℕ) (o : Option Text) (v : Text) (rest : Store)
    → ((x : Text) → o ≡ some x → length x ≢ n)
    → seen n o v rest ≡ rest
seen_other n none v rest h = refl
seen_other n (some x) v rest h = elim (Bool-cases (length x == n)) [
  | inl e ↦ absurd (h x refl ((==_iff (length x) n).0 e))
  | inr e ↦ rw e refl
]

-- Of two texts with rests of one length behind them, the first parts have one length too.
same_front : (s t x y : Text) → length x ≡ length y → s ++ x ≡ t ++ y → s ≡ t
same_front s t x y len e =
    (append-injective s t x y
      (omega (
        arith,
        len,
        sym (length-append s x),
        sym (length-append t y),
        ap (λ (l : Text). length l) e,
      ))
      e).0

Unseen-key :
    (other addr : Addr) (pos : ℕ)
    → other ≢ addr
    → Unseen 8
        (get_contract_code_history_element_prefix other)
        (get_contract_code_history_element_key addr pos)
unfolding get_contract_code_history_element_prefix get_contract_code_history_element_key
Unseen-key other addr pos apart v rest =
    seen_other 8 (strip_prefix (5 ∷ other) (5 ∷ (addr ++ uint64_to_big_endian pos))) v rest
      (λ x e len.
        let split = strip_prefix-eq_some (5 ∷ other) (5 ∷ (addr ++ uint64_to_big_endian pos)) x e in
        apart (
          sym (
            same_front addr other (uint64_to_big_endian pos) x (length-big_endian 8 pos ∙ sym len)
              (cc split))))

module _ (platform : Platform) where
  store_elements-others :
      (other addr : Addr) (pos : ℕ) (es : List HistoryEntry) (c : Context platform)
      → other ≢ addr
      → history_elements platform other (store_elements platform addr pos es c).1
        ≡ history_elements platform other c
  unfolding store_elements history_elements
  store_elements-others other addr pos [] c apart = refl
  store_elements-others other addr pos (e ∷ es) c apart =
      store_elements-others other addr ((pos + 1) % u64_mod) es _ apart
      ∙ entries_of-set-Unseen 8 (get_contract_code_history_element_prefix other)
          (get_contract_code_history_element_key addr ((pos + 1) % u64_mod))
          (platform.encode_entry e) c.kv (Unseen-key other addr ((pos + 1) % u64_mod) apart)

  decode_elements-same :
      (m : Store) (c c' : Context platform)
      → (decode_elements platform m c).0 ≡ (decode_elements platform m c').0
  unfolding decode_elements
  decode_elements-same [] c c' = refl
  decode_elements-same (e ∷ m) c c' = ground (arith, decode_elements-same m c c')

  -- `appendToContractHistory` for one contract leaves what `GetContractHistory` returns for any other
  -- address, of the same length or not, as it was.
  pub append_to_contract_history-others :
      (other addr : Addr) (es : List HistoryEntry) (c : Context platform)
      → other ≢ addr
      → (get_contract_history platform other (append_to_contract_history platform addr es c).1).0
        ≡ (get_contract_history platform other c).0
  unfolding get_contract_history append_to_contract_history
  append_to_contract_history-others other addr es c apart =
      let pos = last_position (last_entry (history_elements platform addr c)) in
      rw (store_elements-others other addr pos es c apart)
        (decode_elements-same (history_elements platform other c) _ c)
