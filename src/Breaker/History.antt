-- ===== src/Breaker/History.antt =====
-- The breaker against a description of it by the history of the calls.
use game_server_orchestrator.Prelude.{
  String, ℕ, suc, ◌≤◌, ◌<◌, ◌≡◌, ◌⊎◌, inl, inr, refl, sym, subst, ap, ◌∙◌, Bool, true, false, ◌&&◌,
  Option, none, some, List, [], ◌∷◌, leb, arith, if◌then◌else◌, Option-cases, Bool-cases,
}
use game_server_orchestrator.Prelude.Int.{ℤ, pos, ◌+ℤ◌, ◌≤ℤ◌, ◌<ℤ◌, leb_ℤ, ltb_ℤ}
use game_server_orchestrator.Prelude.Text.{str_eq, eq_iff}
use game_server_orchestrator.Prelude.Dict.{
  lookup, get_or, IsUnique, insert-IsUnique, erase-IsUnique, lookup-insert, lookup-erase_self,
  lookup-erase_ne,
}
use game_server_orchestrator.Breaker.{
  Breaker, new_breaker, open_period, record_failure, reset_circuit, is_circuit_open,
}

-- The calls on the breaker, with their time and fleet.
pub data Event : Type 0 where
  failed checked : ℤ → String → Event
  reset : String → Event

unfoldable pub apply : Event → Breaker → Breaker
apply (failed t fleet) b = record_failure t fleet b
apply (checked t fleet) b = (is_circuit_open t fleet b).1
apply (reset fleet) b = reset_circuit fleet b

-- The breaker after a history, whose head is the last call.
unfoldable pub replay : List Event → Breaker
replay [] = new_breaker
replay (e ∷ history) = apply e (replay history)

-- The failures of a fleet since its last reset.
unfoldable pub failures : String → List Event → ℕ
failures fleet [] = 0
failures fleet (failed t f ∷ h) =
    if str_eq f fleet then suc (failures fleet h) else failures fleet h
failures fleet (checked t f ∷ h) = failures fleet h
failures fleet (reset f ∷ h) = if str_eq f fleet then 0 else failures fleet h

-- The time of its last failure.
unfoldable pub last_failure : String → List Event → ℤ
last_failure fleet [] = pos 0
last_failure fleet (failed t f ∷ h) = if str_eq f fleet then t else last_failure fleet h
last_failure fleet (checked t f ∷ h) = last_failure fleet h
last_failure fleet (reset f ∷ h) = last_failure fleet h

-- The calls come in the order of their times, all before `now`.
abbrev pub IsOrdered : ℤ → List Event → Type 0
IsOrdered now [] = Unit
IsOrdered now (failed t f ∷ h) = (t ≤ℤ now) × IsOrdered t h
IsOrdered now (checked t f ∷ h) = (t ≤ℤ now) × IsOrdered t h
IsOrdered now (reset f ∷ h) = IsOrdered now h

abbrev IsGood : Breaker → Type 0
IsGood b = IsUnique b.consecutive_failures × IsUnique b.circuit_open_until

apply-IsGood : (e : Event) (b : Breaker) → IsGood b → IsGood (apply e b)
unfolding apply record_failure reset_circuit is_circuit_open
apply-IsGood (failed t f) b (u, v) = (
  insert-IsUnique _ _ _ u,
  ground (arith, insert-IsUnique f (t +ℤ open_period) b.circuit_open_until v),
)
apply-IsGood (checked t f) b (u, v) = ground (arith, erase-IsUnique f b.circuit_open_until v)
apply-IsGood (reset f) b (u, v) = (erase-IsUnique _ _ u, erase-IsUnique _ _ v)

replay-IsGood : (h : List Event) → IsGood (replay h)
unfolding replay
replay-IsGood [] = (tt, tt)
replay-IsGood (e ∷ h) = apply-IsGood e (replay h) (replay-IsGood h)

-- A fleet's entries.
abbrev View : Type 0
View = ℕ × Option ℤ

abbrev view : String → Breaker → View
view fleet b = (get_or 0 fleet b.consecutive_failures, lookup fleet b.circuit_open_until)

abbrev record_view : ℤ → View → View
record_view t (n, o) = (suc n, if leb 5 (suc n) then some (t +ℤ open_period) else o)

abbrev check_view : ℤ → View → View
check_view t (n, none) = (n, none)
check_view t (n, some until) = (n, if ltb_ℤ until t then none else some until)

abbrev is_open : ℤ → View → Bool
is_open t (n, none) = false
is_open t (n, some until) = if ltb_ℤ until t then false else true

view-record_failure :
    (t : ℤ) (f fleet : String) (b : Breaker)
    → view fleet (record_failure t f b)
      ≡ (if str_eq f fleet then record_view t (view f b) else view fleet b)
unfolding record_failure
view-record_failure t f fleet b = ground (
  arith,
  eq_iff f fleet,
  lookup-insert f fleet (suc (get_or 0 f b.consecutive_failures)) b.consecutive_failures,
  lookup-insert f fleet (t +ℤ open_period) b.circuit_open_until,
)

view-reset_circuit :
    (f fleet : String) (b : Breaker)
    → IsGood b
    → view fleet (reset_circuit f b) ≡ (if str_eq f fleet then (0, none) else view fleet b)
unfolding reset_circuit
view-reset_circuit f fleet b (u, v) = ground (
  arith,
  eq_iff f fleet,
  lookup-erase_self f b.consecutive_failures u,
  lookup-erase_ne f fleet b.consecutive_failures,
  lookup-erase_self f b.circuit_open_until v,
  lookup-erase_ne f fleet b.circuit_open_until,
)

view-is_circuit_open :
    (t : ℤ) (f fleet : String) (b : Breaker)
    → IsGood b
    → view fleet (is_circuit_open t f b).1
      ≡ (if str_eq f fleet then check_view t (view f b) else view fleet b)
unfolding is_circuit_open
view-is_circuit_open t f fleet b (u, v) = ground (
  arith,
  eq_iff f fleet,
  lookup-erase_self f b.circuit_open_until v,
  lookup-erase_ne f fleet b.circuit_open_until,
)

is_circuit_open-is_open :
    (t : ℤ) (fleet : String) (b : Breaker)
    → (is_circuit_open t fleet b).0 ≡ is_open t (view fleet b)
unfolding is_circuit_open
is_circuit_open-is_open t fleet b = elim (Option-cases (lookup fleet b.circuit_open_until)) [
  | inl e ↦ rw (e, is_circuit_open) refl
  | inr (until, e) ↦ elim (Bool-cases (ltb_ℤ until t)) [
    | inl past ↦ simp (e, past, is_circuit_open)
    | inr running ↦ simp (e, running, is_circuit_open)
  ]
]

-- What a fleet's entries say: an open period is that of the last failure, and no period means too
-- few failures or a period that has passed.
abbrev Period : ℤ → ℕ → ℤ → Option ℤ → Type 0
Period now count last none = (count < 5) ⊎ (last +ℤ open_period <ℤ now)
Period now count last (some until) = (5 ≤ count) × (until ≡ last +ℤ open_period)

abbrev Describes : ℤ → ℕ → ℤ → View → Type 0
Describes now count last (n, o) = (n ≡ count) × Period now count last o

later-Describes :
    (t now : ℤ) (count : ℕ) (last : ℤ) (p : View)
    → t ≤ℤ now
    → Describes t count last p
    → Describes now count last p
later-Describes t now count last (n, none) h (e, inl few) = (e, inl few)
later-Describes t now count last (n, none) h (e, inr past) = (e, inr (ground (arith, past)))
later-Describes t now count last (n, some until) h p = p

few_Period :
    (t last : ℤ) (count n : ℕ) (o : Option ℤ)
    → suc count < 5
    → Period t count last o
    → Period t (suc count) t o
few_Period t last count n none few p = inl few
few_Period t last count n (some until) few (five, u) = absurd (omega (arith, few, five))

record-Describes :
    (t : ℤ) (count : ℕ) (last : ℤ) (p : View)
    → Describes t count last p
    → Describes t (suc count) t (record_view t p)
record-Describes t count last (n, o) (e, p) = (
  ap suc e,
  elim (Bool-cases (leb 5 (suc n))) [
    | inl five ↦ rw five (ground (arith, five, e), refl)
    | inr few ↦ rw few (few_Period t last count n o (ground (arith, few, e)) p)
  ],
)

check-Describes :
    (t : ℤ) (count : ℕ) (last : ℤ) (p : View)
    → Describes t count last p
    → Describes t count last (check_view t p)
check-Describes t count last (n, none) p = p
check-Describes t count last (n, some until) (e, (five, u)) = (
  e,
  elim (Bool-cases (ltb_ℤ until t)) [
    | inl past ↦ rw past (inr (ground (arith, past, u)))
    | inr running ↦ rw running (five, u)
  ],
)

open_of_Describes :
    (t : ℤ) (count : ℕ) (last : ℤ) (p : View)
    → Describes t count last p
    → is_open t p ≡ (leb 5 count && leb_ℤ t (last +ℤ open_period))
open_of_Describes t count last (n, none) (e, p) = ground (arith, p)
open_of_Describes t count last (n, some until) (e, (five, u)) = ground (arith, five, u)

replay-Describes :
    (now : ℤ) (fleet : String) (h : List Event)
    → IsOrdered now h
    → Describes now (failures fleet h) (last_failure fleet h) (view fleet (replay h))
unfolding replay apply failures last_failure lookup
replay-Describes now fleet [] o = (refl, inl (omega arith))
replay-Describes now fleet (failed t f ∷ h) (t_le, o) =
    subst
      (λ v. Describes now (failures fleet (failed t f ∷ h)) (last_failure fleet (failed t f ∷ h)) v)
      (sym (view-record_failure t f fleet (replay h)))
      (elim (Bool-cases (str_eq f fleet)) [
        | inl e ↦ rw e (
            later-Describes t now _ _ _ t_le (
              record-Describes t _ _ (view f (replay h)) (
                subst
                  (λ g. Describes t (failures fleet h) (last_failure fleet h) (view g (replay h)))
                  (sym ((eq_iff f fleet).0 e)) (replay-Describes t fleet h o))))
        | inr e ↦ rw e (later-Describes t now _ _ _ t_le (replay-Describes t fleet h o))
      ])
replay-Describes now fleet (checked t f ∷ h) (t_le, o) =
    subst
      (λ v.
        Describes now (failures fleet (checked t f ∷ h)) (last_failure fleet (checked t f ∷ h)) v)
      (sym (view-is_circuit_open t f fleet (replay h) (replay-IsGood h)))
      (elim (Bool-cases (str_eq f fleet)) [
        | inl e ↦ rw e (
            later-Describes t now _ _ _ t_le (
              check-Describes t _ _ (view f (replay h)) (
                subst
                  (λ g. Describes t (failures fleet h) (last_failure fleet h) (view g (replay h)))
                  (sym ((eq_iff f fleet).0 e)) (replay-Describes t fleet h o))))
        | inr e ↦ rw e (later-Describes t now _ _ _ t_le (replay-Describes t fleet h o))
      ])
replay-Describes now fleet (reset f ∷ h) o =
    subst (λ v. Describes now (failures fleet (reset f ∷ h)) (last_failure fleet (reset f ∷ h)) v)
      (sym (view-reset_circuit f fleet (replay h) (replay-IsGood h)))
      (elim (Bool-cases (str_eq f fleet)) [
        | inl e ↦ rw e (refl, inl (omega arith))
        | inr e ↦ rw e (replay-Describes now fleet h o)
      ])

-- The breaker refines its description: after any calls in the order of their times, a fleet's
-- circuit is open exactly when it has failed at least five times since its last reset and its last
-- failure is at most five minutes ago.
pub is_circuit_open-replay :
    (now : ℤ) (fleet : String) (h : List Event)
    → IsOrdered now h
    → (is_circuit_open now fleet (replay h)).0
      ≡ (leb 5 (failures fleet h) && leb_ℤ now (last_failure fleet h +ℤ open_period))
is_circuit_open-replay now fleet h o =
    is_circuit_open-is_open now fleet (replay h)
    ∙ open_of_Describes now _ _ (view fleet (replay h)) (replay-Describes now fleet h o)
