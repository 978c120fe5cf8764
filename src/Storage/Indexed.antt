-- ===== src/Storage/Indexed.antt =====
-- The indexed storage of the Community Solid Server (`IndexedStorage`), whose code is not in this
-- repository, for one type of entries: `find` and `findIds` give the entries that a query matches,
-- `create` adds one under a new identifier, `set` replaces one and `delete` removes one. In what order entries are found
-- is not said, so the laws count them.
use user_managed_access.Prelude.{some, List, Bool, true, ◌≡◌, ℕ, ◌+◌, length, head?, if◌then◌else◌}

abbrev pub count_of : Bool → ℕ
count_of b = if b then 1 else 0

pub record IndexedStorage (V : Type 0) : Type 1 where
  pub Key : Type 0
  pub State : Type 0
  pub find : State → (V → Bool) → List (Key × V)
  pub create : State → V → State
  pub set : State → Key → V → State
  pub delete : State → Key → State
  pub find-true :
      (s : State) (test : V → Bool) (i : Key) (e : V)
      → head? (find s test) ≡ some (i, e)
      → test e ≡ true
  pub length-create :
      (s : State) (v : V) (test : V → Bool)
      → length (find (create s v) test) ≡ length (find s test) + count_of (test v)
  pub length-set :
      (s : State) (query : V → Bool) (i : Key) (e v : V) (test : V → Bool)
      → head? (find s query) ≡ some (i, e)
      → length (find (set s i v) test) + count_of (test e)
        ≡ length (find s test) + count_of (test v)
  pub length-delete :
      (s : State) (query : V → Bool) (i : Key) (e : V) (test : V → Bool)
      → head? (find s query) ≡ some (i, e)
      → length (find (delete s i) test) + count_of (test e) ≡ length (find s test)
