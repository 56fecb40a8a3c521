-- ===== src/Base/Bytes.antt =====
-- Texts and byte strings: Go's `string` and `[]byte` as lists of byte values.
use Prim.Native.Char.{code}
use Prim.Native.String.{String}
use Prim.Native.Nat.{ℕ}
use mathlib.Core.Path.{◌≡◌, refl, ap}
use mathlib.Core.Logic.{◌↔◌, ◌≢◌, inl, inr}
use mathlib.Core.Bool.{Bool, true, false, ◌&&◌}
use mathlib.Core.Option.{Option, none, some}
use mathlib.Core.List.{List, [], ◌∷◌, ◌++◌}
use native.Mathlib.Omega.{arith}
use bignftd.Base.Tests.{◌==◌, ltb, if◌then◌else◌, Bool-cases}

abbrev pub Text : Type 0
Text = List ℕ

-- The bytes of an ASCII literal. `String` has its own `[]` and `∷`.
abbrev pub codes : String → Text
codes String.[] = []
codes (String.◌∷◌ c s) = code c ∷ codes s

-- Go's `==` on strings.
unfoldable pub text_eq : Text → Text → Bool
text_eq [] [] = true
text_eq [] (d ∷ t) = false
text_eq (c ∷ s) [] = false
text_eq (c ∷ s) (d ∷ t) = c == d && text_eq s t

-- The order of byte strings, in which the iterators of a key-value store run.
unfoldable pub text_lt : Text → Text → Bool
text_lt [] [] = false
text_lt [] (d ∷ t) = true
text_lt (c ∷ s) [] = false
text_lt (c ∷ s) (d ∷ t) = if ltb c d then true else c == d && text_lt s t

-- The rest of a text behind a prefix.
unfoldable pub strip_prefix : Text → Text → Option Text
strip_prefix [] t = some t
strip_prefix (c ∷ p) [] = none
strip_prefix (c ∷ p) (d ∷ t) = if c == d then strip_prefix p t else none

text_eq→eq : (s t : Text) → text_eq s t ≡ true → s ≡ t
unfolding text_eq
text_eq→eq [] [] h = refl
text_eq→eq [] (d ∷ t) h = cc
text_eq→eq (c ∷ s) [] h = cc
text_eq→eq (c ∷ s) (d ∷ t) h = ground (arith, text_eq→eq s t)

pub text_eq_refl : (s : Text) → text_eq s s ≡ true
unfolding text_eq
text_eq_refl [] = refl
text_eq_refl (c ∷ s) = ground (arith, text_eq_refl s)

pub text_eq_iff : (s t : Text) → (text_eq s t ≡ true) ↔ (s ≡ t)
text_eq_iff s t = (text_eq→eq s t, λ e. rw e (text_eq_refl t))

pub text_eq_ne : (s t : Text) → s ≢ t → text_eq s t ≡ false
text_eq_ne s t h = ground (arith, text_eq_iff s t)

pub strip_prefix-append : (p t : Text) → strip_prefix p (p ++ t) ≡ some t
unfolding strip_prefix
strip_prefix-append [] t = refl
strip_prefix-append (c ∷ p) t = ground (arith, strip_prefix-append p t)

pub strip_prefix-eq_some : (p s t : Text) → strip_prefix p s ≡ some t → s ≡ p ++ t
unfolding strip_prefix
strip_prefix-eq_some [] s t h = ground arith
strip_prefix-eq_some (c ∷ p) [] t h = cc
strip_prefix-eq_some (c ∷ p) (d ∷ s) t h = ground (arith, strip_prefix-eq_some p s t)

-- The separator `c` does not stand in the text.
abbrev pub Lacks : ℕ → Text → Type 0
Lacks c [] = Unit
Lacks c (d ∷ t) = (d ≢ c) × Lacks c t

-- `strings.Contains(t, c)` for a separator of one byte.
unfoldable pub contains_byte : ℕ → Text → Bool
contains_byte c [] = false
contains_byte c (d ∷ t) = if d == c then true else contains_byte c t

pub contains_byte-Lacks : (c : ℕ) (t : Text) → contains_byte c t ≡ false → Lacks c t
unfolding contains_byte
contains_byte-Lacks c [] h = tt
contains_byte-Lacks c (d ∷ t) h = ground (arith, contains_byte-Lacks c t)

-- One byte in front of a text that is already split.
abbrev pub split_byte : ℕ → ℕ → Text × List Text → Text × List Text
split_byte c d (part, rest) = if d == c then ([], part ∷ rest) else (d ∷ part, rest)

-- `strings.Split(t, c)`: the parts between the separators, at least one.
unfoldable pub split : ℕ → Text → Text × List Text
split c [] = ([], [])
split c (d ∷ t) = split_byte c d (split c t)

-- `strings.Join(part ∷ parts, c)`.
unfoldable pub join : ℕ → Text → List Text → Text
join c part [] = part
join c part (p ∷ ps) = part ++ c ∷ join c p ps

join-nil : (c : ℕ) → join c [] [] ≡ []
unfolding join
join-nil c = refl

join-cons : (c d : ℕ) (p : Text) (ps : List Text) → join c (d ∷ p) ps ≡ d ∷ join c p ps
unfolding join
join-cons c d p [] = refl
join-cons c d p (q ∷ ps) = refl

-- One more byte before a text that is split and joined again.
join_step :
    (c d : ℕ) (r : Text × List Text) (t : Text)
    → join c r.0 r.1 ≡ t
    → join c (split_byte c d r).0 (split_byte c d r).1 ≡ d ∷ t
join_step c d r t h = elim (Bool-cases (d == c)) [
  | inl e ↦ rw e (unfold join in ground arith)
  | inr n ↦ rw (n, join-cons) (ap (λ (u : Text). d ∷ u) h)
]

pub join-split : (c : ℕ) (t : Text) → join c (split c t).0 (split c t).1 ≡ t
unfolding split
join-split c [] = join-nil c
join-split c (d ∷ t) = join_step c d (split c t) t (join-split c t)

-- A part with no separator is split off whole.
pub split-append :
    (c : ℕ) (p t : Text) → Lacks c p → split c (p ++ c ∷ t) ≡ (p, (split c t).0 ∷ (split c t).1)
unfolding split
split-append c [] t h = ground arith
split-append c (d ∷ p) t h = ground (arith, split-append c p t)
