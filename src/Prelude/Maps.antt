-- ===== src/Prelude/Maps.antt =====
-- Go maps as association lists. The program never ranges over a map, so the order of the entries
-- has no meaning. The keys' type brings its equality test as an instance.
use mathlib.Core.Path.{◌≡◌}
use mathlib.Core.Logic.{◌↔◌}
use mathlib.Core.Bool.{Bool, true}
use mathlib.Core.Option.{Option, none, some}
use mathlib.Core.List.{List, [], ◌∷◌}
use native.Mathlib.Omega.{arith}
use Prim.Native.Nat.{ℕ, ◌+◌, ◌≤◌}
use secure_messager_erlang.Prelude.Tests.{if◌then◌else◌, ◌==◌, ==_iff}
use secure_messager_erlang.Prelude.Lists.{Bytes, bytes_equal, bytes_equal_iff, length}
use secure_messager_erlang.Prelude.Int.{ℤ, eqb_ℤ, eqb_ℤ_iff}

pub record Eq {ℓ} (K : Type ℓ) : Type ℓ where
  pub beq : K → K → Bool
  pub beq_iff : (a b : K) → (beq a b ≡ true) ↔ (a ≡ b)

instance abbrev pub ℕ_eq : Eq ℕ
ℕ_eq = record { beq = ◌==◌; beq_iff = ==_iff }

instance abbrev pub ℤ_eq : Eq ℤ
ℤ_eq = record { beq = eqb_ℤ; beq_iff = eqb_ℤ_iff }

instance abbrev pub Bytes_eq : Eq Bytes
Bytes_eq = record { beq = bytes_equal; beq_iff = bytes_equal_iff }

abbrev pub Assoc {ℓ κ} : Type ℓ → Type κ → Type (ℓ ⊔ κ)
Assoc K V = List (K × V)

module _ {ℓ κ} {K : Type ℓ} {V : Type κ} ⦃e : Eq K⦄ where
  -- v, exists := m[k]
  unfoldable pub lookup : Assoc K V → K → Option V
  lookup [] k = none
  lookup ((j, v) ∷ m) k = if e.beq j k then some v else lookup m k

  -- delete(m, k)
  unfoldable pub delete : Assoc K V → K → Assoc K V
  delete [] k = []
  delete ((j, v) ∷ m) k = let rest = delete m k in if e.beq j k then rest else (j, v) ∷ rest

  -- m[k] = v
  unfoldable pub insert : Assoc K V → K → V → Assoc K V
  unfolding delete
  insert m k v = (k, v) ∷ delete m k

  pub lookup-delete :
      (m : Assoc K V) (k j : K) → lookup (delete m k) j ≡ (if e.beq k j then none else lookup m j)
  unfolding lookup delete
  lookup-delete [] k j = ground arith
  lookup-delete ((i, v) ∷ m) k j =
      ground (arith, lookup-delete m k j, e.beq_iff i k, e.beq_iff i j, e.beq_iff k j)

  pub lookup-insert :
      (m : Assoc K V) (k j : K) (v : V)
      → lookup (insert m k v) j ≡ (if e.beq k j then some v else lookup m j)
  unfolding lookup insert
  lookup-insert m k j v = ground (arith, lookup-delete m k j)

  pub length-delete : (m : Assoc K V) (k : K) → length (delete m k) ≤ length m
  unfolding delete
  length-delete [] k = omega arith
  length-delete ((j, v) ∷ m) k = ground (arith, length-delete m k)

  pub length-insert : (m : Assoc K V) (k : K) (v : V) → length (insert m k v) ≤ length m + 1
  unfolding insert
  length-insert m k v = omega (arith, length-delete m k)
