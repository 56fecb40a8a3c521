-- ===== src/Base/BigEndian.antt =====
-- Go's big-endian integers (`binary.BigEndian`, which `sdk.Uint64ToBigEndian` uses), and the order
-- of byte strings.
use Prim.Native.Nat.{ℕ, zero, suc, ◌+◌, ◌*◌, ◌/◌, ◌%◌, ◌^◌, ◌<◌}
use mathlib.Core.Path.{◌≡◌, refl, sym, ap, ◌∙◌}
use mathlib.Core.Bool.{true, false, ◌&&◌}
use mathlib.Core.Logic.{inl, inr}
use mathlib.Core.List.{[], ◌∷◌, ◌++◌}
use native.Mathlib.Omega.{arith}
use bignftd.Base.Tests.{ltb, ◌==◌, ==_iff, if◌then◌else◌, Bool-cases}
use bignftd.Base.Lists.{length, length-append}
use bignftd.Base.Bytes.{Text, text_eq, text_lt, text_eq_iff, text_eq_refl}

-- The lowest `k` bytes of a number, the most significant one first.
unfoldable pub big_endian : ℕ → ℕ → Text
big_endian zero n = []
big_endian (suc k) n = big_endian k (n / 256) ++ n % 256 ∷ []

-- The number that bytes stand for, behind the number of the bytes before them.
unfoldable pub read_bytes : ℕ → Text → ℕ
read_bytes acc [] = acc
read_bytes acc (c ∷ t) = read_bytes (acc * 256 + c) t

-- `sdk.Uint64ToBigEndian`
abbrev pub uint64_to_big_endian : ℕ → Text
uint64_to_big_endian n = big_endian 8 n

-- `sdk.BigEndianToUint64` on no bytes, or on eight.
unfoldable pub big_endian_to_uint64 : Text → ℕ
big_endian_to_uint64 bz = read_bytes 0 bz

-- The number has no more than `k` bytes.
abbrev pub Fits : ℕ → ℕ → Type 0
Fits zero n = n ≡ 0
Fits (suc k) n = Fits k (n / 256)

pub Fits-uint64 : (n : ℕ) → n < 2 ^ 64 → Fits 8 n
Fits-uint64 n h = omega arith

pub length-big_endian : (k n : ℕ) → length (big_endian k n) ≡ k
unfolding big_endian
length-big_endian zero n = refl
length-big_endian (suc k) n =
    omega
      (arith, length-append (big_endian k (n / 256)) (n % 256 ∷ []), length-big_endian k (n / 256))

read_bytes-append :
    (acc : ℕ) (t : Text) (c : ℕ) → read_bytes acc (t ++ c ∷ []) ≡ read_bytes acc t * 256 + c
unfolding read_bytes
read_bytes-append acc [] c = refl
read_bytes-append acc (d ∷ t) c = read_bytes-append (acc * 256 + d) t c

pub read_bytes-big_endian : (k n : ℕ) → Fits k n → read_bytes 0 (big_endian k n) ≡ n
unfolding big_endian read_bytes
read_bytes-big_endian zero n h = sym h
read_bytes-big_endian (suc k) n h = omega (
  arith,
  read_bytes-append 0 (big_endian k (n / 256)) (n % 256),
  read_bytes-big_endian k (n / 256) h,
)

-- Texts of one length, each with a rest behind it.
pub text_lt-append :
    (s t x y : Text)
    → length s ≡ length t
    → text_lt (s ++ x) (t ++ y) ≡ (if text_lt s t then true else text_eq s t && text_lt x y)
unfolding text_lt text_eq
text_lt-append [] [] x y h = refl
text_lt-append [] (d ∷ t) x y h = absurd (omega arith)
text_lt-append (c ∷ s) [] x y h = absurd (omega arith)
text_lt-append (c ∷ s) (d ∷ t) x y h = ground (arith, text_lt-append s t x y)

pub text_lt_irrefl : (t : Text) → text_lt t t ≡ false
unfolding text_lt
text_lt_irrefl [] = refl
text_lt_irrefl (c ∷ t) = ground (arith, text_lt_irrefl t)

pub text_lt_trans : (s t u : Text) → text_lt s t ≡ true → text_lt t u ≡ true → text_lt s u ≡ true
unfolding text_lt
text_lt_trans [] [] u h k = cc
text_lt_trans [] (d ∷ t) [] h k = cc
text_lt_trans [] (d ∷ t) (e ∷ u) h k = refl
text_lt_trans (c ∷ s) [] u h k = cc
text_lt_trans (c ∷ s) (d ∷ t) [] h k = cc
text_lt_trans (c ∷ s) (d ∷ t) (e ∷ u) h k = ground (arith, text_lt_trans s t u)

-- Of two texts neither of which is less, both are the same.
pub text_lt_total : (s t : Text) → text_lt s t ≡ false → text_lt t s ≡ false → s ≡ t
unfolding text_lt
text_lt_total [] [] h k = refl
text_lt_total [] (d ∷ t) h k = cc
text_lt_total (c ∷ s) [] h k = cc
text_lt_total (c ∷ s) (d ∷ t) h k = ground (arith, text_lt_total s t)

pub big_endian-injective :
    (k a b : ℕ) → Fits k a → Fits k b → big_endian k a ≡ big_endian k b → a ≡ b
big_endian-injective k a b ha hb e =
    sym (read_bytes-big_endian k a ha)
    ∙ ap (λ (t : Text). read_bytes 0 t) e
    ∙ read_bytes-big_endian k b hb

-- The order of the bytes is the order of the numbers.
pub text_lt-big_endian :
    (k a b : ℕ) → Fits k a → Fits k b → text_lt (big_endian k a) (big_endian k b) ≡ ltb a b
unfolding big_endian text_lt
text_lt-big_endian zero a b ha hb = ground arith
text_lt-big_endian (suc k) a b ha hb =
    let app =
      text_lt-append (big_endian k (a / 256)) (big_endian k (b / 256)) (a % 256 ∷ []) (b % 256 ∷ [])
        (length-big_endian k (a / 256) ∙ sym (length-big_endian k (b / 256))) in
    ground (
      arith,
      app,
      text_lt-big_endian k (a / 256) (b / 256) ha hb,
      text_eq_iff (big_endian k (a / 256)) (big_endian k (b / 256)),
      big_endian-injective k (a / 256) (b / 256) ha hb,
    )

pub text_eq-big_endian :
    (k a b : ℕ) → Fits k a → Fits k b → text_eq (big_endian k a) (big_endian k b) ≡ (a == b)
text_eq-big_endian k a b ha hb = elim (Bool-cases (a == b)) [
  | inl e ↦ rw ((==_iff a b).0 e) (text_eq_refl (big_endian k b) ∙ sym ((==_iff b b).1 refl))
  | inr e ↦
      ground
        (arith, text_eq_iff (big_endian k a) (big_endian k b), big_endian-injective k a b ha hb)
]
