-- ===== src/Chain/Sorted.antt =====
-- Key-value stores in the order of their keys: what an iterator over a prefix sees of a write.
use bignftd.Base.{
  ℕ, Text, ◌≡◌, ◌≢◌, refl, sym, ap, ◌∙◌, true, false, Option, none, some, [], ◌∷◌, ◌++◌, arith, All,
  length, ◌==◌, ==_iff, text_eq, text_lt, text_eq_iff, text_lt_trans, text_lt_irrefl, text_lt_total,
  strip_prefix, strip_prefix-append, strip_prefix-eq_some, if◌then◌else◌, Bool-cases, Option-cases,
  inl, inr,
}
use bignftd.Chain.Store.{Store, get, set, entries}

abbrev pub Above : Text → Store → Type 0
Above k m = All (λ (e : Text × Text). text_lt k e.0 ≡ true) m

-- Every key is less than `x`.
abbrev pub Below : Text → Store → Type 0
Below x m = All (λ (e : Text × Text). text_lt e.0 x ≡ true) m

abbrev pub IsSorted : Store → Type 0
IsSorted [] = Unit
IsSorted ((j, v) ∷ m) = Above j m × IsSorted m

-- `Delete`
unfoldable pub delete : Text → Store → Store
delete k [] = []
delete k ((j, w) ∷ m) = if text_eq j k then m else (j, w) ∷ delete k m

-- The entries whose keys have a length, as the loops test it that run over mixed keys.
unfoldable pub of_length : ℕ → Store → Store
of_length n [] = []
of_length n ((j, v) ∷ m) = if length j == n then (j, v) ∷ of_length n m else of_length n m

Above-trans : (k j : Text) (m : Store) → text_lt k j ≡ true → Above j m → Above k m
Above-trans k j [] h a = tt
Above-trans k j ((i, v) ∷ m) h a = (text_lt_trans k j i h a.0, Above-trans k j m h a.1)

Above-set : (j k v : Text) (m : Store) → text_lt j k ≡ true → Above j m → Above j (set k v m)
unfolding set
Above-set j k v [] h a = (h, tt)
Above-set j k v ((i, w) ∷ m) h a = ground (arith, Above-set j k v m)

text_lt_other : (j k : Text) → text_eq j k ≡ false → text_lt k j ≡ false → text_lt j k ≡ true
text_lt_other j k other more = elim (Bool-cases (text_lt j k)) [
  | inl less ↦ less
  | inr same ↦ absurd (ground (arith, text_eq_iff j k, text_lt_total j k same more))
]

pub set-IsSorted : (k v : Text) (m : Store) → IsSorted m → IsSorted (set k v m)
unfolding set
set-IsSorted k v [] s = (tt, tt)
set-IsSorted k v ((j, w) ∷ m) s = elim (Bool-cases (text_eq j k)) [
  | inl same ↦ rw same (rw (sym ((text_eq_iff j k).0 same)) s)
  | inr other ↦ elim (Bool-cases (text_lt k j)) [
    | inl less ↦ rw (other, less) ((less, Above-trans k j m less s.0), s)
    | inr more ↦
        rw (other, more)
          (Above-set j k v m (text_lt_other j k other more) s.0, set-IsSorted k v m s.1)
  ]
]

Above-delete : (j k : Text) (m : Store) → Above j m → Above j (delete k m)
unfolding delete
Above-delete j k [] a = tt
Above-delete j k ((i, w) ∷ m) a = ground (arith, Above-delete j k m)

pub delete-IsSorted : (k : Text) (m : Store) → IsSorted m → IsSorted (delete k m)
unfolding delete
delete-IsSorted k [] s = tt
delete-IsSorted k ((j, w) ∷ m) s = elim (Bool-cases (text_eq j k)) [
  | inl same ↦ rw same s.1
  | inr other ↦ rw other (Above-delete j k m s.0, delete-IsSorted k m s.1)
]

get-Above : (k : Text) (m : Store) → Above k m → get k m ≡ none
unfolding get
get-Above k [] a = refl
get-Above k ((j, w) ∷ m) a = ground (arith, get-Above k m, text_eq_iff j k, text_lt_irrefl k)

pub get-delete :
    (k j : Text) (m : Store)
    → IsSorted m
    → get j (delete k m) ≡ (if text_eq k j then none else get j m)
unfolding get delete
get-delete k j [] s = ground arith
get-delete k j ((i, w) ∷ m) s = ground (
  arith,
  text_eq_iff i k,
  text_eq_iff i j,
  text_eq_iff k j,
  get-Above i m s.0,
  get-delete k j m s.1,
)

-- A delete leaves the other keys, also where the keys are in no order.
pub get-delete_ne : (k j : Text) (m : Store) → k ≢ j → get j (delete k m) ≡ get j m
unfolding get delete
get-delete_ne k j [] h = refl
get-delete_ne k j ((i, w) ∷ m) h =
    ground (arith, text_eq_iff i k, text_eq_iff i j, get-delete_ne k j m h)

-- A delete brings nothing back, also where the keys are in no order.
pub get-delete_none : (k j : Text) (m : Store) → get j m ≡ none → get j (delete k m) ≡ none
unfolding get delete
get-delete_none k j [] h = refl
get-delete_none k j ((i, w) ∷ m) h =
    ground (arith, text_eq_iff i k, text_eq_iff i j, get-delete_none k j m)

-- The entries below `p` of `n`-byte keys, as an iterator gives them.
unfoldable pub entries_of : ℕ → Text → Store → Store
unfolding of_length
entries_of n p m = of_length n (entries p m)

text_lt-prefix : (p x y : Text) → text_lt (p ++ x) (p ++ y) ≡ text_lt x y
unfolding text_lt
text_lt-prefix [] x y = refl
text_lt-prefix (c ∷ p) x y = ground (arith, text_lt-prefix p x y)

-- The entry with key `k`, as it is seen below `p`, in front of others.
abbrev pub seen : ℕ → Option Text → Text → Store → Store
seen n none v rest = rest
seen n (some x) v rest = if length x == n then (x, v) ∷ rest else rest

entries_of-cons :
    (n : ℕ) (p j v : Text) (m : Store)
    → entries_of n p ((j, v) ∷ m) ≡ seen n (strip_prefix p j) v (entries_of n p m)
unfolding entries_of entries of_length
entries_of-cons n p j v m = elim (Option-cases (strip_prefix p j)) [
  | inl e ↦ rw e refl
  | inr (x, e) ↦ rw e refl
]

entries_of-nil : (n : ℕ) (p : Text) → entries_of n p [] ≡ []
unfolding entries_of entries of_length
entries_of-nil n p = refl

not-Below : (x v : Text) (m : Store) → ¬ (Below x ((x, v) ∷ m))
not-Below x v m b = absurd (ground (arith, text_lt_irrefl x, b.0))

entries_of_nil : (n : ℕ) (p x : Text) → Above x (entries_of n p [])
unfolding entries_of entries of_length
entries_of_nil n p x = tt

Above-seen :
    (x : Text) (n : ℕ) (o : Option Text) (v : Text) (rest : Store)
    → ((y : Text) → o ≡ some y → text_lt x y ≡ true)
    → Above x rest
    → Above x (seen n o v rest)
Above-seen x n none v rest h a = a
Above-seen x n (some y) v rest h a = elim (Bool-cases (length y == n)) [
  | inl e ↦ rw e (h y refl, a)
  | inr e ↦ rw e a
]

entries_of-Above : (n : ℕ) (p x : Text) (m : Store) → Above (p ++ x) m → Above x (entries_of n p m)
entries_of-Above n p x [] a = entries_of_nil n p x
entries_of-Above n p x ((j, v) ∷ m) a =
    let above : (y : Text) → strip_prefix p j ≡ some y → text_lt x y ≡ true = λ y e.
      sym (text_lt-prefix p x y)
      ∙ ap (λ (k : Text). text_lt (p ++ x) k) (sym (strip_prefix-eq_some p j y e))
      ∙ a.0 in
    rw (entries_of-cons n p j v m)
      (Above-seen x n (strip_prefix p j) v (entries_of n p m) above (entries_of-Above n p x m a.1))

between : (x : Text) (m : Store) → Below x m → Above x m → m ≡ []
between x [] b a = refl
between x ((j, v) ∷ m) b a = ground (arith, text_lt_trans x j x a.0 b.0, text_lt_irrefl x)

Below-seen :
    (x : Text) (n : ℕ) (o : Option Text) (v : Text) (rest : Store)
    → Below x (seen n o v rest)
    → Below x rest
Below-seen x n none v rest b = b
Below-seen x n (some y) v rest b = elim (Bool-cases (length y == n)) [
  | inl e ↦ (rw e at b).1
  | inr e ↦ rw e at b
]

seen-append :
    (n : ℕ) (o : Option Text) (v : Text) (rest more : Store)
    → seen n o v rest ++ more ≡ seen n o v (rest ++ more)
seen-append n none v rest more = refl
seen-append n (some y) v rest more = elim (Bool-cases (length y == n)) [
  | inl e ↦ rw e refl
  | inr e ↦ rw e refl
]

entries_of-hit :
    (n : ℕ) (p x v : Text) (m : Store)
    → length x ≡ n
    → entries_of n p ((p ++ x, v) ∷ m) ≡ (x, v) ∷ entries_of n p m
entries_of-hit n p x v m len =
    entries_of-cons n p (p ++ x) v m ∙ ground (arith, strip_prefix-append p x, ==_iff (length x) n)

-- A write behind all the entries that are seen below a prefix is seen at their end.
pub entries_of-set_last :
    (n : ℕ) (p x v : Text) (m : Store)
    → IsSorted m
    → length x ≡ n
    → Below x (entries_of n p m)
    → entries_of n p (set (p ++ x) v m) ≡ entries_of n p m ++ (x, v) ∷ []
unfolding set
entries_of-set_last n p x v [] s len b =
    entries_of-hit n p x v [] len
    ∙ ap (λ (m : Store). (x, v) ∷ m) (entries_of-nil n p)
    ∙ ap (λ (m : Store). m ++ (x, v) ∷ []) (sym (entries_of-nil n p))
entries_of-set_last n p x v ((j, w) ∷ m) s len b = elim (Bool-cases (text_eq j (p ++ x))) [
  | inl same ↦
      let hit : entries_of n p ((j, w) ∷ m) ≡ (x, w) ∷ entries_of n p m =
        ap (λ (k : Text). entries_of n p ((k, w) ∷ m)) ((text_eq_iff j (p ++ x)).0 same)
        ∙ entries_of-hit n p x w m len in
      absurd (not-Below x w (entries_of n p m) (rw hit at b))
  | inr other ↦ elim (Bool-cases (text_lt (p ++ x) j)) [
    | inl less ↦
        let empty : entries_of n p ((j, w) ∷ m) ≡ [] =
          between x (entries_of n p ((j, w) ∷ m)) b
            (entries_of-Above n p x ((j, w) ∷ m) (less, Above-trans (p ++ x) j m less s.0)) in
        rw (other, less) (entries_of-hit n p x v ((j, w) ∷ m) len ∙ (rw empty refl))
    | inr more ↦
        let below =
          Below-seen x n (strip_prefix p j) w (entries_of n p m)
            (rw (entries_of-cons n p j w m) at b) in
        rw (other, more)
          (entries_of-cons n p j w (set (p ++ x) v m)
            ∙ ap (seen n (strip_prefix p j) w) (entries_of-set_last n p x v m s.1 len below)
            ∙ sym (seen-append n (strip_prefix p j) w (entries_of n p m) ((x, v) ∷ []))
            ∙ ap (λ (l : Store). l ++ (x, v) ∷ []) (sym (entries_of-cons n p j w m)))
  ]
]

-- A key that is not seen below a prefix.
abbrev pub Unseen : ℕ → Text → Text → Type 0
Unseen n p k = (v : Text) (rest : Store) → seen n (strip_prefix p k) v rest ≡ rest

pub entries_of-set-Unseen :
    (n : ℕ) (p k v : Text) (m : Store)
    → Unseen n p k
    → entries_of n p (set k v m) ≡ entries_of n p m
unfolding set
entries_of-set-Unseen n p k v [] h = entries_of-cons n p k v [] ∙ h v (entries_of n p [])
entries_of-set-Unseen n p k v ((j, w) ∷ m) h = elim (Bool-cases (text_eq j k)) [
  | inl same ↦
      let hidden : entries_of n p ((j, w) ∷ m) ≡ entries_of n p m =
        ap (λ (i : Text). entries_of n p ((i, w) ∷ m)) ((text_eq_iff j k).0 same)
        ∙ entries_of-cons n p k w m
        ∙ h w (entries_of n p m) in
      rw same (entries_of-cons n p k v m ∙ h v (entries_of n p m) ∙ sym hidden)
  | inr other ↦ elim (Bool-cases (text_lt k j)) [
    | inl less ↦
        rw (other, less) (entries_of-cons n p k v ((j, w) ∷ m) ∙ h v (entries_of n p ((j, w) ∷ m)))
    | inr more ↦
        rw (other, more)
          (entries_of-cons n p j w (set k v m)
            ∙ ap (seen n (strip_prefix p j) w) (entries_of-set-Unseen n p k v m h)
            ∙ sym (entries_of-cons n p j w m))
  ]
]
