-- ===== src/Prelude/Dict.antt =====
-- A Go map with text keys, as an association list without repeated keys. The order of the list is
-- one order in which a `range` loop may meet the entries.
use Prim.Native.String.{String}
use mathlib.Core.Path.{◌≡◌, refl}
use mathlib.Core.Logic.{◌≢◌}
use mathlib.Core.Option.{Option, none, some}
use mathlib.Core.List.{List, [], ◌∷◌}
use native.Mathlib.Omega.{arith}
use game_server_orchestrator.Prelude.Tests.{if◌then◌else◌}
use game_server_orchestrator.Prelude.Text.{str_eq, eq_iff, eq_refl}

abbrev pub Dict {ℓ} : Type ℓ → Type ℓ
Dict V = List (String × V)

module _ {ℓ} {V : Type ℓ} where
  -- `m[k]`, with the presence of the key.
  unfoldable pub lookup : String → Dict V → Option V
  lookup key [] = none
  lookup key ((name, value) ∷ rest) = if str_eq name key then some value else lookup key rest

  -- `delete(m, k)`
  unfoldable pub erase : String → Dict V → Dict V
  erase key [] = []
  erase key ((name, value) ∷ rest) =
      if str_eq name key then rest else (name, value) ∷ erase key rest

  -- `m[k] = v`
  unfoldable pub insert : String → V → Dict V → Dict V
  insert key fresh [] = (key, fresh) ∷ []
  insert key fresh ((name, value) ∷ rest) =
      if str_eq name key then (key, fresh) ∷ rest else (name, value) ∷ insert key fresh rest

  -- `m[k]` where a missing key reads as the zero value.
  abbrev pub get_or : V → String → Dict V → V
  get_or z k m = elim (lookup k m) [ none ↦ z | some v ↦ v ]

  -- No key is listed twice, as in every Go map.
  abbrev pub IsUnique : Dict V → Type ℓ
  IsUnique [] = Unit
  IsUnique ((k, v) ∷ m) = (lookup k m ≡ none) × IsUnique m

  pub lookup-insert :
      (key other : String) (fresh : V) (rest : Dict V)
      → lookup other (insert key fresh rest)
        ≡ (if str_eq key other then some fresh else lookup other rest)
  unfolding insert lookup
  lookup-insert key other fresh [] = refl
  lookup-insert key other fresh ((name, value) ∷ rest) =
      let later = lookup-insert key other fresh rest in
      ground (later, eq_iff name other, eq_iff name key, eq_iff key other, arith)

  pub lookup-insert_self :
      (key : String) (fresh : V) (rest : Dict V) → lookup key (insert key fresh rest) ≡ some fresh
  lookup-insert_self key fresh rest = simp (eq_refl, lookup-insert)

  lookup-insert_ne :
      (k j : String) (v : V) (m : Dict V) → k ≢ j → lookup j (insert k v m) ≡ lookup j m
  lookup-insert_ne k j v m h = rw (lookup-insert k j v m) (ground (arith, eq_iff k j))

  pub lookup-erase_ne : (k j : String) (m : Dict V) → k ≢ j → lookup j (erase k m) ≡ lookup j m
  unfolding lookup erase
  lookup-erase_ne k j [] h = refl
  lookup-erase_ne k j ((i, w) ∷ m) h =
      ground (arith, eq_iff i k, eq_iff i j, lookup-erase_ne k j m h)

  pub lookup-erase_self : (k : String) (m : Dict V) → IsUnique m → lookup k (erase k m) ≡ none
  unfolding lookup erase
  lookup-erase_self k [] u = refl
  lookup-erase_self k ((i, w) ∷ m) u = ground (arith, eq_iff i k, lookup-erase_self k m u.1)

  pub insert-IsUnique : (k : String) (v : V) (m : Dict V) → IsUnique m → IsUnique (insert k v m)
  unfolding lookup insert
  insert-IsUnique k v [] u = (refl, tt)
  insert-IsUnique k v ((i, w) ∷ m) u =
      ground (arith, eq_iff i k, lookup-insert_ne k i v m, insert-IsUnique k v m u.1)

  pub erase-IsUnique : (k : String) (m : Dict V) → IsUnique m → IsUnique (erase k m)
  unfolding lookup erase
  erase-IsUnique k [] u = tt
  erase-IsUnique k ((i, w) ∷ m) u =
      ground (arith, eq_iff i k, lookup-erase_ne k i m, erase-IsUnique k m u.1)
