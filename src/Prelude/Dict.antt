-- ===== src/Prelude/Dict.antt =====
-- A Python dict in insertion order: an overwritten key keeps its place.
use mathlib.Core.Path.{◌≡◌, refl}
use mathlib.Core.Logic.{◌≢◌}
use mathlib.Core.Bool.{Bool, true, false}
use mathlib.Core.Option.{Option, none, some}
use mathlib.Core.List.{List, [], ◌∷◌, ◌++◌}
use native.Mathlib.Omega.{arith}
use Prim.Native.Nat.{suc, ◌≤◌}
use algo_engine.Prelude.Lists.{length}
use algo_engine.Prelude.Tests.{if◌then◌else◌}
use algo_engine.Prelude.Eq.{Eq, ◌=?◌, beq_refl}

abbrev pub Dict {ℓ κ} : Type ℓ → Type κ → Type (ℓ ⊔ κ)
Dict K V = List (K × V)

module _ {ℓ κ} {K : Type ℓ} {V : Type κ} ⦃e : Eq K⦄ where
  -- `d.get(k)`
  abbrev pub lookup : K → Dict K V → Option V
  lookup k [] = none
  lookup k ((j, v) ∷ d) = if j =? k then some v else lookup k d

  -- `d.get(k, default)`
  abbrev pub get_or : K → V → Dict K V → V
  get_or k v d = elim (lookup k d) [ none ↦ v | some w ↦ w ]

  -- `k in d`
  abbrev pub contains : K → Dict K V → Bool
  contains k d = elim (lookup k d) [ none ↦ false | some _ ↦ true ]

  -- `d[k] = v`
  abbrev pub insert : K → V → Dict K V → Dict K V
  insert k v [] = (k, v) ∷ []
  insert k v ((j, w) ∷ d) = if j =? k then (j, v) ∷ d else (j, w) ∷ insert k v d

  -- `d.pop(k, None)`
  abbrev pub erase : K → Dict K V → Dict K V
  erase k [] = []
  erase k ((j, w) ∷ d) = if j =? k then d else (j, w) ∷ erase k d

module _ {ℓ κ} {K : Type ℓ} {V : Type κ} ⦃e : Eq K⦄ where
  pub lookup-insert :
      (k j : K) (v : V) (d : Dict K V)
      → lookup j (insert k v d) ≡ (if k =? j then some v else lookup j d)
  lookup-insert k j v [] = refl
  lookup-insert k j v ((i, w) ∷ d) =
      ground (arith, e.beq_iff k j, e.beq_iff i k, e.beq_iff i j, lookup-insert k j v d)

  pub lookup-insert_self : (k : K) (v : V) (d : Dict K V) → lookup k (insert k v d) ≡ some v
  lookup-insert_self k v d = ground (arith, lookup-insert k k v d, beq_refl k)

  -- No key stands twice.
  abbrev pub IsDistinct : Dict K V → Type κ
  IsDistinct [] = Unit
  IsDistinct ((k, v) ∷ d) = (lookup k d ≡ none) × IsDistinct d

module _ {ℓ κ} {K : Type ℓ} {V : Type κ} ⦃e : Eq K⦄ where
  pub lookup-append : (k : K) (c d : Dict K V) → lookup k c ≡ none → lookup k (c ++ d) ≡ lookup k d
  lookup-append k [] d h = refl
  lookup-append k ((j, v) ∷ c) d h = ground (arith, lookup-append k c d)

  pub insert_new :
      (k : K) (v : V) (d : Dict K V) → lookup k d ≡ none → insert k v d ≡ d ++ ((k, v) ∷ [])
  insert_new k v [] h = refl
  insert_new k v ((j, w) ∷ d) h = ground (arith, insert_new k v d)

  pub insert-IsDistinct : (k : K) (v : V) (d : Dict K V) → IsDistinct d → IsDistinct (insert k v d)
  insert-IsDistinct k v [] h = (refl, tt)
  insert-IsDistinct k v ((j, w) ∷ d) (new, h) =
      ground (arith, insert-IsDistinct k v d h, lookup-insert k j v d, e.beq_iff j k, e.beq_iff k j)

  lookup_middle :
      (c : Dict K V) (k : K) (v : V) (d : Dict K V) → lookup k (c ++ ((k, v) ∷ d)) ≢ none
  lookup_middle [] k v d = ground (arith, beq_refl k)
  lookup_middle ((j, w) ∷ c) k v d = ground (arith, lookup_middle c k v d)

  -- In a dict with distinct keys, a key behind a front does not stand in the front.
  pub IsDistinct-front :
      (c : Dict K V) (k : K) (v : V) (d : Dict K V)
      → IsDistinct (c ++ ((k, v) ∷ d))
      → lookup k c ≡ none
  IsDistinct-front [] k v d h = refl
  IsDistinct-front ((j, w) ∷ c) k v d (new, h) = ground (
    arith,
    IsDistinct-front c k v d h,
    e.beq_iff j k,
    lookup_middle c j v d,
    lookup_middle c k v d,
  )

-- Taking a key out.
module _ {ℓ κ} {K : Type ℓ} {V : Type κ} ⦃e : Eq K⦄ where
  pub lookup-erase :
      (k j : K) (d : Dict K V)
      → IsDistinct d
      → lookup j (erase k d) ≡ (if k =? j then none else lookup j d)
  lookup-erase k j [] h = ground arith
  lookup-erase k j ((i, w) ∷ d) (new, h) =
      ground (arith, lookup-erase k j d h, e.beq_iff k j, e.beq_iff i k, e.beq_iff i j)

  pub erase-IsDistinct : (k : K) (d : Dict K V) → IsDistinct d → IsDistinct (erase k d)
  erase-IsDistinct k [] h = tt
  erase-IsDistinct k ((i, w) ∷ d) (new, h) =
      ground (arith, erase-IsDistinct k d h, lookup-erase k i d h)

  pub length-erase :
      (k : K) (d : Dict K V) {v : V} → lookup k d ≡ some v → suc (length (erase k d)) ≡ length d
  length-erase k [] h = cc
  length-erase k ((i, w) ∷ d) {v} h = ground (arith, length-erase k d {v = v})

  pub length-erase_le : (k : K) (d : Dict K V) → length (erase k d) ≤ length d
  length-erase_le k [] = omega arith
  length-erase_le k ((i, w) ∷ d) = ground (arith, length-erase_le k d)

  pub length-insert_le : (k : K) (v : V) (d : Dict K V) → length (insert k v d) ≤ suc (length d)
  length-insert_le k v [] = omega arith
  length-insert_le k v ((i, w) ∷ d) = ground (arith, length-insert_le k v d)

  pub length-insert_old :
      (k : K) (v : V) (d : Dict K V) {w : V}
      → lookup k d ≡ some w
      → length (insert k v d) ≡ length d
  length-insert_old k v [] h = cc
  length-insert_old k v ((i, y) ∷ d) {w} h = ground (arith, length-insert_old k v d {w = w})

  pub get_or-insert :
      (k j : K) (v w : V) (d : Dict K V)
      → get_or j w (insert k v d) ≡ (if k =? j then v else get_or j w d)
  get_or-insert k j v w d = ground (arith, lookup-insert k j v d)
