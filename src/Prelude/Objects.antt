-- ===== src/Prelude/Objects.antt =====
-- A JavaScript object used as a dictionary: `{ ...o }`, `o[k]`, `o[k] = v`, `delete o[k]`,
-- `Object.keys`, `Object.values` and `Object.entries`. Keys stand in the order of insertion, and
-- a write to a key that is there keeps its place. (JavaScript moves keys that are written as
-- whole numbers to the front; the keys here are IRIs.)
use Prim.Native.String.{String}
use mathlib.Core.Path.{◌≡◌, refl}
use mathlib.Core.Bool.{false}
use mathlib.Core.Option.{Option, none, some}
use mathlib.Core.List.{List, [], ◌∷◌, map}
use native.Mathlib.Omega.{arith}
use text.Mathlib.TextEquality.{eq_iff}
use user_managed_access.Prelude.Tests.{◌==◌, if◌then◌else◌, is_some}
use user_managed_access.Prelude.Lists.{contains}

abbrev pub Dict {ℓ} : Type ℓ → Type ℓ
Dict V = List (String × V)

module _ {ℓ} {V : Type ℓ} where
  abbrev pub get : Dict V → String → Option V
  get [] k = none
  get ((j, v) ∷ d) k = if j == k then some v else get d k

  abbrev pub put : Dict V → String → V → Dict V
  put [] k v = (k, v) ∷ []
  put ((j, w) ∷ d) k v = if j == k then (j, v) ∷ d else (j, w) ∷ put d k v

  abbrev pub remove : Dict V → String → Dict V
  remove [] k = []
  remove ((j, w) ∷ d) k = let rest = remove d k in if j == k then rest else (j, w) ∷ rest

  abbrev pub keys : Dict V → List String
  keys = map λ e. e.0

  abbrev pub values : Dict V → List V
  values = map λ e. e.1

  pub get-put :
      (d : Dict V) (k j : String) (v : V) → get (put d k v) j ≡ (if k == j then some v else get d j)
  get-put [] k j v = refl
  get-put ((i, w) ∷ d) k j v = ground (arith, eq_iff k j, eq_iff i k, eq_iff i j, get-put d k j v)

  pub get-remove :
      (d : Dict V) (k j : String) → get (remove d k) j ≡ (if k == j then none else get d j)
  get-remove [] k j = ground arith
  get-remove ((i, w) ∷ d) k j = ground (arith, eq_iff k j, eq_iff i k, eq_iff i j, get-remove d k j)

-- The keys of an object are distinct.
abbrev pub HasDistinctKeys {ℓ} : {V : Type ℓ} → Dict V → Type 0
HasDistinctKeys [] = Unit
HasDistinctKeys ((k, v) ∷ d) = (contains (keys d) k ≡ false) × HasDistinctKeys d

-- `k in o`
pub contains-keys {ℓ} :
    {V : Type ℓ} (d : Dict V) (k : String) → contains (keys d) k ≡ is_some (get d k)
contains-keys [] k = refl
contains-keys ((j, v) ∷ d) k = ground (arith, contains-keys d k)
