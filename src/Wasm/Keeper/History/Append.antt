-- ===== src/Wasm/Keeper/History/Append.antt =====
-- The history of a contract is a list to which entries are appended (x/wasm/keeper/keeper.go).
use bignftd.Base.{
  ℕ, suc, ◌+◌, ◌%◌, ◌<◌, ◌≡◌, refl, sym, ◌∙◌, List, [], ◌∷◌, ◌++◌, length, arith,
  uint64_to_big_endian, big_endian_to_uint64, length-big_endian, text_lt-big_endian,
  read_bytes-big_endian, Fits-uint64, append_assoc, append-nil, length-append,
}
use bignftd.Chain.Outcome.{ok}
use bignftd.Chain.Store.{Store, set}
use bignftd.Chain.Sorted.{IsSorted, Below, set-IsSorted, entries_of-set_last}
use bignftd.Chain.Sdk.{Addr}
use bignftd.Wasm.Gas.{u64_mod}
use bignftd.Wasm.Contract.{HistoryEntry}
use bignftd.Wasm.Keys.{
  get_contract_code_history_element_prefix, get_contract_code_history_element_key,
}
use bignftd.Wasm.Keeper.Platform.{Platform, Context}
use bignftd.Wasm.Keeper.Laws.{CodecLaws}
use bignftd.Wasm.Keeper.History.{
  last_entry, last_position, history_elements, store_elements, append_to_contract_history,
  decode_elements, get_contract_history,
}

module _ (platform : Platform) where
  -- The elements that stand for a history: numbered one after the other, behind a position.
  unfoldable pub numbered : ℕ → List HistoryEntry → Store
  numbered pos [] = []
  numbered pos (e ∷ history) =
      (uint64_to_big_endian (suc pos), platform.encode_entry e) ∷ numbered (suc pos) history

  -- The store holds a history of a contract.
  pub record HasHistory (addr : Addr) (history : List HistoryEntry) (c : Context platform)
      : Type 0 where
    pub sorted : IsSorted c.kv
    pub elements : history_elements platform addr c ≡ numbered 0 history

  numbered-append :
      (pos : ℕ) (h : List HistoryEntry) (e : HistoryEntry)
      → numbered pos (h ++ e ∷ [])
        ≡ numbered pos h
          ++ (uint64_to_big_endian (suc (pos + length h)), platform.encode_entry e) ∷ []
  unfolding numbered
  numbered-append pos [] e = ground arith
  numbered-append pos (f ∷ h) e = ground (arith, numbered-append (suc pos) h e)

  last_position-numbered :
      (pos : ℕ) (e : HistoryEntry) (h : List HistoryEntry)
      → pos + suc (length h) < u64_mod
      → last_position (last_entry (numbered pos (e ∷ h))) ≡ pos + suc (length h)
  unfolding numbered big_endian_to_uint64
  last_position-numbered pos e [] less =
      read_bytes-big_endian 8 (suc pos) (Fits-uint64 (suc pos) (omega arith)) ∙ omega arith
  last_position-numbered pos e (f ∷ h) less =
      last_position-numbered (suc pos) f h (omega arith) ∙ omega arith

  last_position_lem :
      (h : List HistoryEntry)
      → length h < u64_mod
      → last_position (last_entry (numbered 0 h)) ≡ length h
  unfolding numbered
  last_position_lem [] less = refl
  last_position_lem (e ∷ h) less = last_position-numbered 0 e h (omega (arith, less)) ∙ omega arith

  Below-numbered :
      (pos n : ℕ) (h : List HistoryEntry)
      → pos + length h < n
      → n < u64_mod
      → Below (uint64_to_big_endian n) (numbered pos h)
  unfolding numbered
  Below-numbered pos n [] less bound = tt
  Below-numbered pos n (e ∷ h) less bound = (
    ground (
      arith,
      text_lt-big_endian 8 (suc pos) n (Fits-uint64 (suc pos) (omega arith)) (Fits-uint64 n bound),
    ),
    Below-numbered (suc pos) n h (omega arith) bound,
  )

  -- The context behind the elements that are stored.
  unfoldable pub stored : Addr → ℕ → List HistoryEntry → Context platform → Context platform
  stored addr pos [] c = c
  stored addr pos (e ∷ rest) c = stored addr ((pos + 1) % u64_mod) rest (record c {
    kv =
        set (get_contract_code_history_element_key addr ((pos + 1) % u64_mod))
          (platform.encode_entry e) c.kv;
  })

  store_elements_lem :
      (addr : Addr) (pos : ℕ) (es : List HistoryEntry) (c : Context platform)
      → store_elements platform addr pos es c ≡ (ok tt, stored addr pos es c)
  unfolding store_elements stored
  store_elements_lem addr pos [] c = refl
  store_elements_lem addr pos (e ∷ rest) c = store_elements_lem addr ((pos + 1) % u64_mod) rest _

  HasHistory-store :
      (addr : Addr) (h : List HistoryEntry) (e : HistoryEntry) (c : Context platform)
      → suc (length h) < u64_mod
      → HasHistory addr h c
      → HasHistory addr (h ++ e ∷ []) (record c {
        kv =
            set
              (get_contract_code_history_element_key addr (suc (length h)))
              (platform.encode_entry e)
              c.kv;
      })
  unfolding history_elements get_contract_code_history_element_key
  HasHistory-store addr h e c less has = record {
    sorted = set-IsSorted _ _ c.kv has.sorted;
    elements =
        entries_of-set_last 8 (get_contract_code_history_element_prefix addr)
          (uint64_to_big_endian (suc (length h))) (platform.encode_entry e) c.kv has.sorted
          (length-big_endian 8 (suc (length h)))
          (rw has.elements (Below-numbered 0 (suc (length h)) h (omega arith) less))
        ∙ rw has.elements (ground (arith, numbered-append 0 h e));
  }

  HasHistory-stored :
      (addr : Addr) (pos : ℕ) (h es : List HistoryEntry) (c : Context platform)
      → pos ≡ length h
      → length h + length es < u64_mod
      → HasHistory addr h c
      → HasHistory addr (h ++ es) (stored addr pos es c)
  unfolding stored
  HasHistory-stored addr pos h [] c e less has = rw (append-nil h) has
  HasHistory-stored addr pos h (e ∷ es) c at_end less has =
      let next : (pos + 1) % u64_mod ≡ suc (length h) = omega arith in
      rw (next, sym (append_assoc h (e ∷ []) es))
        (HasHistory-stored addr (suc (length h)) (h ++ e ∷ []) es _
          (ground (arith, length-append h (e ∷ []))) (ground (arith, length-append h (e ∷ [])))
          (HasHistory-store addr h e c (omega arith) has))

  decode_numbered :
      CodecLaws platform
      → (pos : ℕ) (h : List HistoryEntry) (c : Context platform)
      → decode_elements platform (numbered pos h) c ≡ (ok h, c)
  unfolding decode_elements numbered
  decode_numbered laws pos [] c = refl
  decode_numbered laws pos (e ∷ h) c =
      rw (laws.decode-encode_entry e, decode_numbered laws (suc pos) h c) refl

  -- Where the store holds a history of a contract, `GetContractHistory` returns it and changes nothing.
  pub get_contract_history_lem :
      CodecLaws platform
      → (addr : Addr) (h : List HistoryEntry) (c : Context platform) → HasHistory addr h c
      → get_contract_history platform addr c ≡ (ok h, c)
  unfolding get_contract_history
  get_contract_history_lem laws addr h c has = rw has.elements (decode_numbered laws 0 h c)

  pub append_to_contract_history_lem :
      (addr : Addr) (h es : List HistoryEntry) (c : Context platform)
      → length h < u64_mod
      → HasHistory addr h c
      → append_to_contract_history platform addr es c ≡ (ok tt, stored addr (length h) es c)
  unfolding append_to_contract_history
  append_to_contract_history_lem addr h es c less has =
      rw (has.elements, last_position_lem h less) (store_elements_lem addr (length h) es c)

  -- `appendToContractHistory` refines the append of lists: where the store holds a history of a
  -- contract, and history and new entries are fewer than 2⁶⁴, it succeeds, the store then holds the
  -- history with the new entries behind it, and `GetContractHistory` returns just that.
  pub append_to_contract_history-HasHistory :
      CodecLaws platform
      → (addr : Addr) (h es : List HistoryEntry) (c : Context platform)
      → length h + length es < u64_mod
      → HasHistory addr h c
      → (append_to_contract_history platform addr es c).0 ≡ ok tt
        × HasHistory addr (h ++ es) (append_to_contract_history platform addr es c).1
        × get_contract_history platform addr (append_to_contract_history platform addr es c).1
          ≡ (ok (h ++ es), (append_to_contract_history platform addr es c).1)
  append_to_contract_history-HasHistory laws addr h es c less has =
      let has' = HasHistory-stored addr (length h) h es c refl less has in
      rw (append_to_contract_history_lem addr h es c (omega arith) has)
        (refl, has', get_contract_history_lem laws addr (h ++ es) _ has')
