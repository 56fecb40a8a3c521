-- ===== src/Wasm/Archive.antt =====
-- x/wasm/ioutils: compressed codes.
use bignftd.Base.{
  ℕ, Text, Bool, Option, none, some, [], ◌∷◌, length, ltb, strip_prefix, if◌then◌else◌,
}
use bignftd.Wasm.Contract.{is_some}

-- `IsGzip`, by the first three bytes
unfoldable pub is_gzip : Text → Bool
is_gzip code = is_some (strip_prefix (31 ∷ 139 ∷ 8 ∷ []) code)

-- What was unpacked, by a reader that fails once the limit is reached.
abbrev pub limited : Option Text → ℕ → Option Text
limited none limit = none
limited (some out) limit = if ltb (length out) limit then some out else none

-- `Uncompress`; unpacking is Go's library.
unfoldable pub uncompress : (Text → Option Text) → Text → ℕ → Option Text
uncompress gunzip source limit =
    if ltb limit (length source) then none else limited (gunzip source) limit
