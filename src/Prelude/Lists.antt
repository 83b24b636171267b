-- ===== src/Prelude/Lists.antt =====
-- Lists measured and cut by native numbers, and the filter of a Boolean test.
use Prim.Native.Nat.{ℕ, zero, suc, ◌≤◌, min}
use mathlib.Core.Path.{◌≡◌, refl, sym, ap, subst, ◌∙◌}
use mathlib.Core.Bool.{Bool, true, false, Bool-set}
use mathlib.Core.List.{
  List, [], ◌∷◌, ◌++◌, Mem, Mem-prop, Perm, Permᴰ, mem-cons_self, mem-cons_of_mem, not-mem-nil,
  mem-cons,
}
use mathlib.Core.List.Permᴰ
use mathlib.Core.HLevel.{×_prop}
use mathlib.Core.Logic.{◌↔◌, inl, inr, ∥∥₁_map}
use mathlib.Core.Logic.Or
use mathlib.Core.Option.{Option, none, some}
use native.Mathlib.Omega.{arith}
use game_server_orchestrator.Prelude.Tests.{if◌then◌else◌, Bool-cases}

module _ {ℓ} {A : Type ℓ} where
  abbrev pub length : List A → ℕ
  length [] = 0
  length (x ∷ xs) = suc (length xs)

  abbrev pub get_elem? : List A → ℕ → Option A
  get_elem? [] i = none
  get_elem? (x ∷ xs) zero = some x
  get_elem? (x ∷ xs) (suc i) = get_elem? xs i

  abbrev pub take : ℕ → List A → List A
  take zero xs = []
  take (suc n) [] = []
  take (suc n) (x ∷ xs) = x ∷ take n xs

  abbrev pub drop : ℕ → List A → List A
  drop zero xs = xs
  drop (suc n) [] = []
  drop (suc n) (x ∷ xs) = drop n xs

  pub take-append-drop : (n : ℕ) (xs : List A) → take n xs ++ drop n xs ≡ xs
  take-append-drop zero xs = refl
  take-append-drop (suc n) [] = refl
  take-append-drop (suc n) (x ∷ xs) = ap (◌∷◌ x) (take-append-drop n xs)

  pub length-take : (n : ℕ) (xs : List A) → length (take n xs) ≡ min n (length xs)
  length-take zero xs = omega arith
  length-take (suc n) [] = omega arith
  length-take (suc n) (x ∷ xs) = omega (arith, length-take n xs)

  pub take_all : (n : ℕ) (xs : List A) → length xs ≤ n → take n xs ≡ xs
  take_all zero [] h = refl
  take_all zero (x ∷ xs) h = absurd (omega arith)
  take_all (suc n) [] h = refl
  take_all (suc n) (x ∷ xs) h = ap (◌∷◌ x) (take_all n xs (omega arith))

  -- `append` in a loop under a test.
  abbrev pub filter : (A → Bool) → List A → List A
  filter p [] = []
  filter p (x ∷ xs) = if p x then x ∷ filter p xs else filter p xs

  -- A predicate on all elements computes to tuples.
  abbrev pub All {κ} : (A → Type κ) → List A → Type κ
  All P [] = Unit
  All P (x ∷ xs) = P x × All P xs

module _ {ℓ} {A : Type ℓ} (p : A → Bool) where
  filter-true : {x : A} (l : List A) → p x ≡ true → filter p (x ∷ l) ≡ x ∷ filter p l
  filter-true l h = rw h

  filter-false : {x : A} (l : List A) → p x ≡ false → filter p (x ∷ l) ≡ filter p l
  filter-false l h = rw h

  mem-filter_to : {x : A} (l : List A) → Mem x (filter p l) → Mem x l × (p x ≡ true)
  mem-filter_to [] m = absurd (not-mem-nil m)
  mem-filter_to {x} (y ∷ l) m = elim (Bool-cases (p y)) [
    | inl h ↦
        Or.elim (×_prop Mem-prop (Bool-set _ _)) (mem-cons.0 (subst (Mem x) (filter-true l h) m))
          (λ e. (rw e mem-cons_self, rw e h))
          (λ n. let (a, b) = mem-filter_to l n in (mem-cons_of_mem _ a, b))
    | inr h ↦
        let (a, b) = mem-filter_to l (subst (Mem x) (filter-false l h) m) in
        (mem-cons_of_mem _ a, b)
  ]

  mem-filter_of : {x : A} (l : List A) → Mem x l → p x ≡ true → Mem x (filter p l)
  mem-filter_of [] m h = absurd (not-mem-nil m)
  mem-filter_of {x} (y ∷ l) m h =
      Or.elim Mem-prop (mem-cons.0 m)
        (λ e. subst (Mem x) (sym (filter-true l (rw e at h))) (rw e mem-cons_self))
        λ n. elim (Bool-cases (p y)) [
          | inl k ↦ subst (Mem x) (sym (filter-true l k)) (mem-cons_of_mem _ (mem-filter_of l n h))
          | inr k ↦ subst (Mem x) (sym (filter-false l k)) (mem-filter_of l n h)
        ]

  pub mem-filter : {x : A} (l : List A) → Mem x (filter p l) ↔ (Mem x l × (p x ≡ true))
  mem-filter l = (mem-filter_to l, λ h. mem-filter_of l h.0 h.1)

  filter-Permᴰ : {l m : List A} → Permᴰ l m → Permᴰ (filter p l) (filter p m)
  filter-Permᴰ Permᴰ.nil = Permᴰ.nil
  filter-Permᴰ (Permᴰ.cons {a = x} {b = y} {l₁ = xs} {l₂ = ys} e q) = elim (Bool-cases (p x)) [
    | inl h ↦ rw (h, ap p (sym e) ∙ h) (Permᴰ.cons e (filter-Permᴰ q))
    | inr h ↦ rw (h, ap p (sym e) ∙ h) (filter-Permᴰ q)
  ]
  filter-Permᴰ (Permᴰ.swap {a = x} {b = y} {a' = x'} {b' = y'} {l = xs} e f) =
      elim (Bool-cases (p x)) [
        | inl h ↦ elim (Bool-cases (p y)) [
          | inl k ↦ rw (h, k, ap p (sym f) ∙ k, ap p (sym e) ∙ h) (Permᴰ.swap e f)
          | inr k ↦ rw (h, k, ap p (sym f) ∙ k, ap p (sym e) ∙ h) (Permᴰ.cons e (Permᴰ.refl _))
        ]
        | inr h ↦ elim (Bool-cases (p y)) [
          | inl k ↦ rw (h, k, ap p (sym f) ∙ k, ap p (sym e) ∙ h) (Permᴰ.cons f (Permᴰ.refl _))
          | inr k ↦ rw (h, k, ap p (sym f) ∙ k, ap p (sym e) ∙ h) (Permᴰ.refl _)
        ]
      ]
  filter-Permᴰ (Permᴰ.trans q r) = Permᴰ.trans (filter-Permᴰ q) (filter-Permᴰ r)

  pub filter-perm : {l m : List A} → Perm l m → Perm (filter p l) (filter p m)
  filter-perm q = ∥∥₁_map q filter-Permᴰ
