-- ===== src/Prelude/Text.antt =====
-- Go's comparisons of strings: equality, and the order of their bytes, which for UTF-8 is the
-- order of the code points that `compare` follows.
use Prim.Native.Nat.{ℕ, Ordering, ◌<◌}
use Prim.Native.Nat.{compare as compare_ℕ}
use Prim.Native.Char.{code}
use Prim.Native.String.{String, compare, then}
use Prim.Native.String.compare
use mathlib.Core.Path.{◌≡◌, refl, sym, ◌∙◌, ap, ap₂}
use mathlib.Core.Logic.{◌⊎◌, inl, inr}
use mathlib.Core.Bool.{Bool, true, false, false≢true}
use mathlib.Core.HLevel.{hedberg}
use game_server_orchestrator.Prelude.Tests.{Bool-cases}
use native.Mathlib.Omega.{arith}
pub use text.Mathlib.Text.{◌==◌ as str_eq}
pub use text.Mathlib.TextEquality.{eq_iff, path_by_compare}
pub use text.Mathlib.TextPositions.{eq_refl, compare_refl}
use text.Mathlib.Text.{is_lt}
pub use Prim.Native.String.{◌++◌ as ◌<>◌}

abbrev pub str_lt : String → String → Bool
str_lt s t = is_lt (compare s t)

abbrev flip : Ordering → Ordering
flip Ordering.lt = Ordering.gt
flip Ordering.eq = Ordering.eq
flip Ordering.gt = Ordering.lt

compare_ℕ_flip : (m n : ℕ) → compare_ℕ n m ≡ flip (compare_ℕ m n)
compare_ℕ_flip m n = ground arith

then-flip : (o r : Ordering) → then (flip o) (flip r) ≡ flip (then o r)
then-flip Ordering.lt r = refl
then-flip Ordering.eq r = refl
then-flip Ordering.gt r = refl

pub compare-flip : (s t : String) → compare t s ≡ flip (compare s t)
compare-flip String.[] String.[] = compare.nil-nil ∙ ap flip (sym compare.nil-nil)
compare-flip String.[] (String.◌∷◌ d t) =
    compare.cons-nil d t ∙ ap flip (sym (compare.nil-cons d t))
compare-flip (String.◌∷◌ c s) String.[] =
    compare.nil-cons c s ∙ ap flip (sym (compare.cons-nil c s))
compare-flip (String.◌∷◌ c s) (String.◌∷◌ d t) =
    compare.cons-cons d c t s
    ∙ ap₂ then (compare_ℕ_flip (code c) (code d)) (compare-flip s t)
    ∙ then-flip (compare_ℕ (code c) (code d)) (compare s t)
    ∙ ap flip (sym (compare.cons-cons c d s t))

-- The head of a text decides, or its tail does behind equal heads.
is_lt-then :
    (m n : ℕ) (r : Ordering)
    → is_lt (then (compare_ℕ m n) r) ≡ true
    → (m < n) ⊎ ((m ≡ n) × (is_lt r ≡ true))
is_lt-then m n r h = ground arith

then_lt : (m n : ℕ) (r : Ordering) → m < n → is_lt (then (compare_ℕ m n) r) ≡ true
then_lt m n r h = ground arith

then_eq : (m n : ℕ) (r : Ordering) → m ≡ n → is_lt r ≡ true → is_lt (then (compare_ℕ m n) r) ≡ true
then_eq m n r e h = ground arith

pub str_lt_trans : (s t u : String) → str_lt s t ≡ true → str_lt t u ≡ true → str_lt s u ≡ true
str_lt_trans s String.[] u h k = absurd (not_below_nil s h)
  where
    not_below_nil : (s : String) → str_lt s String.[] ≡ true → ⊥
    not_below_nil String.[] e = false≢true (sym (ap is_lt compare.nil-nil) ∙ e)
    not_below_nil (String.◌∷◌ c s) e = false≢true (sym (ap is_lt (compare.cons-nil c s)) ∙ e)
str_lt_trans s (String.◌∷◌ d t) String.[] h k =
    absurd (false≢true (sym (ap is_lt (compare.cons-nil d t)) ∙ k))
str_lt_trans String.[] (String.◌∷◌ d t) (String.◌∷◌ e u) h k = ap is_lt (compare.nil-cons e u)
str_lt_trans (String.◌∷◌ c s) (String.◌∷◌ d t) (String.◌∷◌ e u) h k =
    ap is_lt (compare.cons-cons c e s u)
    ∙ ground (
      arith,
      is_lt-then (code c) (code d) (compare s t) (sym (ap is_lt (compare.cons-cons c d s t)) ∙ h),
      is_lt-then (code d) (code e) (compare t u) (sym (ap is_lt (compare.cons-cons d e t u)) ∙ k),
      then_lt (code c) (code e) (compare s u),
      then_eq (code c) (code e) (compare s u),
      str_lt_trans s t u,
    )

pub str_lt_asymm : (s t : String) → str_lt s t ≡ true → str_lt t s ≡ false
str_lt_asymm s t h = rw (compare-flip s t) (flipped (compare s t) h)
  where
    flipped : (o : Ordering) → is_lt o ≡ true → is_lt (flip o) ≡ false
    flipped Ordering.lt e = refl
    flipped Ordering.eq e = refl
    flipped Ordering.gt e = sym e

pub str_lt_irrefl : (s : String) → str_lt s s ≡ false
str_lt_irrefl s = ap is_lt (compare_refl s)

-- Of two different texts one is below the other.
pub str_lt_connex : (s t : String) → str_lt s t ≡ false → str_lt t s ≡ false → s ≡ t
str_lt_connex s t h k =
    path_by_compare s t (settled (compare s t) h (sym (ap is_lt (compare-flip s t)) ∙ k))
  where
    settled : (o : Ordering) → is_lt o ≡ false → is_lt (flip o) ≡ false → o ≡ Ordering.eq
    settled Ordering.lt e f = absurd (false≢true (sym e))
    settled Ordering.eq e f = refl
    settled Ordering.gt e f = absurd (false≢true (sym f))

-- Being no greater is transitive.
pub str_lt_neg_trans :
    (s t u : String) → str_lt t s ≡ false → str_lt u t ≡ false → str_lt u s ≡ false
str_lt_neg_trans s t u h k = elim (Bool-cases (str_lt u s)) [
  | inr no_less ↦ no_less
  | inl less ↦ elim (Bool-cases (str_lt s t)) [
    | inl below ↦ cc (str_lt_trans u s t less below)
    | inr level ↦ rw (str_lt_connex s t level h) k
  ]
]

string_discrete : Discrete String
string_discrete s t = elim (Bool-cases (str_eq s t)) [
  | inl e ↦ yes ((eq_iff s t).0 e)
  | inr e ↦ no (λ p. false≢true (sym e ∙ (eq_iff s t).1 p))
]

pub string_set : IsSet String
string_set = hedberg string_discrete
