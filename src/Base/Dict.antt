-- ===== src/Base/Dict.antt =====
-- Go maps as association lists: `lookup` is `v, ok := m[k]`, `insert` is `m[k] = v`.
use p2pmq.Base.Tests.{if◌then◌else◌, Key, ◌==◌, same_refl, same_ne}
use p2pmq.Base.Lists.{length}
use Prim.Native.Nat.{suc}
use mathlib.Core.Path.{◌≡◌, refl}
use mathlib.Core.Logic.{◌≢◌}
use mathlib.Core.Option.{Option, none, some}
use mathlib.Core.List.{List, [], ◌∷◌}
use native.Mathlib.Omega.{arith}

abbrev pub Dict {ℓ κ} : Type ℓ → Type κ → Type (ℓ ⊔ κ)
Dict K V = List (K × V)

module _ {ℓ κ} {K : Type ℓ} {V : Type κ} ⦃key : Key K⦄ where
  unfoldable pub lookup : K → Dict K V → Option V
  lookup name [] = none
  lookup name ((other, found) ∷ rest) = if other == name then some found else lookup name rest

  unfoldable pub insert : K → V → Dict K V → Dict K V
  insert name value [] = (name, value) ∷ []
  insert name value ((other, old) ∷ rest) =
      if other == name then (name, value) ∷ rest else (other, old) ∷ insert name value rest

  -- What a write leaves to be read, at every key.
  pub lookup-insert :
      (name j : K) (value : V) (dict : Dict K V)
      → lookup j (insert name value dict) ≡ (if name == j then some value else lookup j dict)
  unfolding lookup insert
  lookup-insert name j value [] = refl
  lookup-insert name j value ((other, old) ∷ rest) = ground (
    arith,
    lookup-insert name j value rest,
    key.same_iff name j,
    key.same_iff other name,
    key.same_iff other j,
  )

  pub lookup-insert_self : (k : K) (v : V) (m : Dict K V) → lookup k (insert k v m) ≡ some v
  lookup-insert_self k v m = simp (lookup-insert, same_refl)

  pub lookup-insert_ne :
      (k j : K) (v : V) (m : Dict K V) → k ≢ j → lookup j (insert k v m) ≡ lookup j m
  lookup-insert_ne k j v m h = rw (lookup-insert, same_ne k j h)

  -- A write to a key that is present keeps the number of keys; any other adds one.
  pub length-insert :
      (k : K) (v : V) (m : Dict K V)
      → length (insert k v m) ≡ elim (lookup k m) [ none ↦ suc (length m) | some _ ↦ length m ]
  unfolding lookup insert
  length-insert k v [] = refl
  length-insert k v ((j, w) ∷ m) = ground (arith, length-insert k v m)
