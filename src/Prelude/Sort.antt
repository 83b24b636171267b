-- ===== src/Prelude/Sort.antt =====
-- `sort.Slice`, whose result Go fixes up to the order of elements that `less` does not tell apart:
-- an insertion sort, with the laws that determine what callers see.
use Prim.Native.Nat.{suc}
use native.Mathlib.Omega.{arith}
use mathlib.Core.Path.{◌≡◌, refl, ap₂}
use game_server_orchestrator.Prelude.Lists.{length}
use mathlib.Core.Bool.{Bool, true, false, Bool-set}
use mathlib.Core.Logic.{inl, inr}
use mathlib.Core.List.{
  List, [], ◌∷◌, Mem, Perm, Pairwise, Pairwise-singleton, Pairwise-cons, mem-cons_self,
  mem-cons_of_mem, forall_mem-cons,
}
use mathlib.Core.List.Perm
use mathlib.Core.List.Pairwise
use Prim.Native.String.{String}
use game_server_orchestrator.Prelude.Tests.{if◌then◌else◌, Bool-cases}

-- What a comparison has to satisfy for a sort by it to be determined up to the names.
pub record IsLess {ℓ} {A : Type ℓ} (less : A → A → Bool) (name : A → String) : Type ℓ where
  pub asymm : (a b : A) → less a b ≡ true → less b a ≡ false
  pub neg_trans : (a b c : A) → less b a ≡ false → less c b ≡ false → less c a ≡ false
  pub connex : (a b : A) → less a b ≡ false → less b a ≡ false → name a ≡ name b

module _ {ℓ} {A : Type ℓ} (less : A → A → Bool) where
  insert_by : A → List A → List A
  insert_by x [] = x ∷ []
  insert_by x (y ∷ ys) = if less y x then y ∷ insert_by x ys else x ∷ y ∷ ys

  unfoldable pub sort_slice : List A → List A
  unfolding insert_by
  sort_slice [] = []
  sort_slice (x ∷ xs) = insert_by x (sort_slice xs)

  -- No element is less than one before it.
  abbrev pub IsSorted : List A → Type ℓ
  IsSorted = Pairwise (λ a b. less b a ≡ false)

  insert_by-perm : (x : A) (l : List A) → Perm (insert_by x l) (x ∷ l)
  unfolding insert_by
  insert_by-perm x [] = Perm.rfl
  insert_by-perm x (y ∷ ys) = elim (Bool-cases (less y x)) [
    | inl p ↦ rw (p, insert_by) (Perm.trans (Perm.cons y (insert_by-perm x ys)) (Perm.swap x y ys))
    | inr p ↦ rw (p, insert_by) Perm.rfl
  ]

  -- The sort loses and invents nothing.
  pub sort_slice-perm : (l : List A) → Perm (sort_slice l) l
  unfolding sort_slice
  sort_slice-perm [] = Perm.rfl
  sort_slice-perm (x ∷ xs) =
      Perm.trans (insert_by-perm x (sort_slice xs)) (Perm.cons x (sort_slice-perm xs))

  length-insert_by : (x : A) (l : List A) → length (insert_by x l) ≡ suc (length l)
  unfolding insert_by
  length-insert_by x [] = refl
  length-insert_by x (y ∷ ys) = ground (arith, length-insert_by x ys)

  pub length-sort_slice : (l : List A) → length (sort_slice l) ≡ length l
  unfolding sort_slice
  length-sort_slice [] = refl
  length-sort_slice (x ∷ xs) =
      omega (arith, length-insert_by x (sort_slice xs), length-sort_slice xs)

module _ {ℓ} {A : Type ℓ} {p : A → Bool} {b : Bool} where
  forall_cons :
      {x : A} {l : List A}
      → p x ≡ b
      → ((z : A) → Mem z l → p z ≡ b)
      → (z : A) → Mem z (x ∷ l)
      → p z ≡ b
  forall_cons h below = (forall_mem-cons (λ z. Bool-set _ _)).1 (h, below)

  forall_perm :
      {l m : List A} → Perm l m → ((z : A) → Mem z m → p z ≡ b) → (z : A) → Mem z l → p z ≡ b
  forall_perm q below z h = below z ((Perm.mem_iff q).0 h)

-- Elements with different names, which is what keys of a map are.
abbrev pub HasNames {ℓ} : {A : Type ℓ} → (A → String) → List A → Type ℓ
HasNames {A} name l = (a b : A) → Mem a l → Mem b l → name a ≡ name b → a ≡ b

pub HasNames-sub {ℓ} :
    {A : Type ℓ} {name : A → String} {l m : List A}
    → ((x : A) → Mem x l → Mem x m)
    → HasNames name m
    → HasNames name l
HasNames-sub sub h a b p q = h a b (sub a p) (sub b q)

module _ {ℓ} {A : Type ℓ} {less : A → A → Bool} {name : A → String} (laws : IsLess less name) where
  insert_by-IsSorted : (x : A) {l : List A} → IsSorted less l → IsSorted less (insert_by less x l)
  unfolding insert_by
  insert_by-IsSorted x Pairwise.nil = Pairwise-singleton _ x
  insert_by-IsSorted x (Pairwise.cons {a = y} {l = ys} below s) = elim (Bool-cases (less y x)) [
    | inl p ↦
        rw (p, insert_by)
          (Pairwise.cons
            (forall_perm (insert_by-perm less x ys) (forall_cons (laws.asymm y x p) below))
            (insert_by-IsSorted x s))
    | inr p ↦
        rw (p, insert_by)
          (Pairwise.cons (forall_cons p (λ z m. laws.neg_trans x y z p (below z m)))
            (Pairwise.cons below s))
  ]

  pub sort_slice-IsSorted : (l : List A) → IsSorted less (sort_slice less l)
  unfolding sort_slice
  sort_slice-IsSorted [] = Pairwise.nil
  sort_slice-IsSorted (x ∷ xs) = insert_by-IsSorted x (sort_slice-IsSorted xs)

  less_irrefl : (a : A) → less a a ≡ false
  less_irrefl a = elim (Bool-cases (less a a)) [ inl h ↦ laws.asymm a a h | inr h ↦ h ]

  head_below :
      {a b : A} {l r : List A} → IsSorted less (a ∷ l) → Perm (b ∷ r) (a ∷ l) → less b a ≡ false
  head_below {a} {b} s q =
      forall_perm {p = λ z. less z a} q
        (forall_cons {p = λ z. less z a} (less_irrefl a) (Pairwise-cons.0 s).0) b mem-cons_self

  -- A list whose elements have different names has one sorted permutation.
  IsSorted-eq_of_perm :
      {l r : List A} → IsSorted less l → IsSorted less r → HasNames name l → Perm l r → l ≡ r
  IsSorted-eq_of_perm {l = []} _ _ _ q = Perm.nil-eq q
  IsSorted-eq_of_perm {l = a ∷ l} {r = []} _ _ _ q = Perm.eq-nil q
  IsSorted-eq_of_perm {l = a ∷ l} {r = b ∷ r} sl sr u q =
      let heads : a ≡ b =
        u a b mem-cons_self ((Perm.mem_iff q).1 mem-cons_self)
          (laws.connex a b (head_below sr q) (head_below sl (Perm.symm q))) in
      let tails = Perm.cons_inv (Perm.trans q (Perm.symm (Perm.cons' heads Perm.rfl))) in
      ap₂ ◌∷◌ heads (
        IsSorted-eq_of_perm {l = l} (Pairwise.of_cons sl) (Pairwise.of_cons sr)
          (HasNames-sub (λ x. mem-cons_of_mem _) u) tails)

  -- So the order in which a map hands out its entries leaves no trace in a sort.
  pub sort_slice-perm_invariant :
      (l r : List A) → HasNames name l → Perm l r → sort_slice less l ≡ sort_slice less r
  sort_slice-perm_invariant l r u q =
      IsSorted-eq_of_perm (sort_slice-IsSorted l) (sort_slice-IsSorted r)
        (HasNames-sub (λ x. (Perm.mem_iff (sort_slice-perm less l)).0) u)
        (Perm.trans (sort_slice-perm less l) (Perm.trans q (Perm.symm (sort_slice-perm less r))))

  -- The head of a sort is an element that no element is less than.
  pub sort_slice_head :
      (l : List A) {a : A} {r : List A}
      → sort_slice less l ≡ a ∷ r
      → Mem a l × ((z : A) → Mem z l → less z a ≡ false)
  sort_slice_head l {a} {r} e =
      let q : Perm (a ∷ r) l = rw e at (sort_slice-perm less l) in
      let s : IsSorted less (a ∷ r) = rw e at (sort_slice-IsSorted l) in
      (
        (Perm.mem_iff q).0 mem-cons_self,
        forall_perm {p = λ z. less z a} (Perm.symm q)
            (forall_cons {p = λ z. less z a} (less_irrefl a) (Pairwise-cons.0 s).0),
      )
