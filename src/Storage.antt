-- ===== src/Storage.antt =====
-- The key/value storage of the Community Solid Server (`KeyValueStorage`, `ExpiringStorage`), which
-- the handlers take as a constructor argument and whose code is not in this repository. What they
-- rely on is its documented behaviour: a read gives what was last written under the key.
pub mod Memory
pub mod Expiring
pub mod Indexed
pub mod Rows
use user_managed_access.Prelude.{
  String, Option, none, some, Bool, ◌≡◌, ◌==◌, if◌then◌else◌, is_some,
}

pub record KeyValueStorage (V : Type 0) : Type 1 where
  pub State : Type 0
  pub get : State → String → Option V
  pub set : State → String → V → State
  pub delete : State → String → State
  pub get-set :
      (s : State) (k j : String) (v : V) → get (set s k v) j ≡ (if k == j then some v else get s j)
  pub get-delete :
      (s : State) (k j : String) → get (delete s k) j ≡ (if k == j then none else get s j)

-- `has(key)` checks if there is an entry for the key.
abbrev pub has : {V : Type 0} (K : KeyValueStorage V) → K.State → String → Bool
has K s k = is_some (K.get s k)
