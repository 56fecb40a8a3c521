-- ===== src/Tests/Codec.antt =====
-- A codec for contracts and their histories: numbers stand for themselves, and a text stands behind
-- its length.
use bignftd.Base.{ℕ, zero, suc, ◌≡◌, refl, ap, Text, Option, none, some, [], ◌∷◌, ◌++◌, length}
use bignftd.Wasm.Position.{Position}
use bignftd.Wasm.Ante.{split_at}
use bignftd.Wasm.Contract.{
  HistoryOperation, init, migrate, genesis, other, HistoryEntry, ContractInfo, CodeInfo,
}
use bignftd.Wasm.Access.{AccessType}

abbrev put : Text → Text → Text
put t rest = length t ∷ (t ++ rest)

abbrev take_text : Text → Text × Text
take_text [] = ([], [])
take_text (n ∷ t) = split_at n t

split_at-put : (t rest : Text) → split_at (length t) (t ++ rest) ≡ (t, rest)
split_at-put [] rest = refl
split_at-put (c ∷ t) rest = ap (λ (p : Text × Text). (c ∷ p.0, p.1)) (split_at-put t rest)

abbrev put_position : Option Position → Text → Text
put_position none rest = 0 ∷ rest
put_position (some p) rest = 1 ∷ p.block_height ∷ p.tx_index ∷ rest

abbrev take_position : Text → Option Position × Text
take_position (suc n ∷ height ∷ index ∷ rest) =
    (some (record { block_height = height; tx_index = index }), rest)
take_position (n ∷ rest) = (none, rest)
take_position [] = (none, [])

take-put_position :
    (p : Option Position) (rest : Text) → take_position (put_position p rest) ≡ (p, rest)
take-put_position none rest = refl
take-put_position (some p) rest = refl

abbrev put_operation : HistoryOperation → ℕ
put_operation init = 0
put_operation migrate = 1
put_operation genesis = 2
put_operation (other n) = suc (suc (suc n))

abbrev take_operation : ℕ → HistoryOperation
take_operation zero = init
take_operation (suc zero) = migrate
take_operation (suc (suc zero)) = genesis
take_operation (suc (suc (suc n))) = other n

take-put_operation : (o : HistoryOperation) → take_operation (put_operation o) ≡ o
take-put_operation init = refl
take-put_operation migrate = refl
take-put_operation genesis = refl
take-put_operation (other n) = refl

abbrev pub encode_entry : HistoryEntry → Text
encode_entry e = put_operation e.operation ∷ e.code_id ∷ put_position e.updated e.msg

abbrev entry_of : ℕ → ℕ → Option Position × Text → HistoryEntry
entry_of o id p = record { operation = take_operation o; code_id = id; updated = p.0; msg = p.1 }

abbrev pub decode_entry : Text → Option HistoryEntry
decode_entry (o ∷ id ∷ rest) = some (entry_of o id (take_position rest))
decode_entry (o ∷ []) = none
decode_entry [] = none

pub decode-encode_entry : (e : HistoryEntry) → decode_entry (encode_entry e) ≡ some e
decode-encode_entry e = rw (take-put_operation e.operation, take-put_position e.updated e.msg) refl

abbrev put_extension : Option Text → Text
put_extension none = []
put_extension (some t) = 1 ∷ t

abbrev take_extension : Text → Option Text
take_extension [] = none
take_extension (n ∷ t) = some t

take-put_extension : (o : Option Text) → take_extension (put_extension o) ≡ o
take-put_extension none = refl
take-put_extension (some t) = refl

abbrev pub encode_contract : ContractInfo → Text
encode_contract c =
    c.code_id
    ∷ put c.creator (
        put c.admin
          (put c.label (put c.ibc_port_id (put_position c.created (put_extension c.extension)))))

abbrev with_position : ℕ → Text → Text → Text → Text → Option Position × Text → ContractInfo
with_position id creator admin label port p = record {
  code_id = id;
  creator = creator;
  admin = admin;
  label = label;
  created = p.0;
  ibc_port_id = port;
  extension = take_extension p.1;
}

abbrev with_port : ℕ → Text → Text → Text → Text × Text → ContractInfo
with_port id creator admin label t = with_position id creator admin label t.0 (take_position t.1)

abbrev with_label : ℕ → Text → Text → Text × Text → ContractInfo
with_label id creator admin t = with_port id creator admin t.0 (take_text t.1)

abbrev with_admin : ℕ → Text → Text × Text → ContractInfo
with_admin id creator t = with_label id creator t.0 (take_text t.1)

abbrev with_creator : ℕ → Text × Text → ContractInfo
with_creator id t = with_admin id t.0 (take_text t.1)

abbrev pub decode_contract : Text → Option ContractInfo
decode_contract (id ∷ rest) = some (with_creator id (take_text rest))
decode_contract [] = none

pub decode-encode_contract : (c : ContractInfo) → decode_contract (encode_contract c) ≡ some c
decode-encode_contract c =
    rw
      (split_at-put c.creator (
        put c.admin
          (put c.label (put c.ibc_port_id (put_position c.created (put_extension c.extension))))))
      (rw
        (split_at-put c.admin
          (put c.label (put c.ibc_port_id (put_position c.created (put_extension c.extension)))))
        (rw
          (split_at-put c.label
            (put c.ibc_port_id (put_position c.created (put_extension c.extension))))
          (rw
            (
              split_at-put c.ibc_port_id (put_position c.created (put_extension c.extension)),
              take-put_position c.created (put_extension c.extension),
              take-put_extension c.extension,
            )
            refl)))

-- Of a code its hash and its creator, and that everybody may instantiate it.
abbrev pub encode_code : CodeInfo → Text
encode_code c = put c.code_hash c.creator

abbrev code_of : Text × Text → CodeInfo
code_of t = record {
  code_hash = t.0;
  creator = t.1;
  instantiate_config = record { permission = AccessType.everybody; addresses = [] };
}

abbrev pub decode_code : Text → Option CodeInfo
decode_code t = some (code_of (take_text t))
