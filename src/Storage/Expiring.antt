-- ===== src/Storage/Expiring.antt =====
-- The `ExpiringStorage` of the Community Solid Server, whose code is not in this repository: an entry is
-- written with the time for which it stays valid, in milliseconds, and is gone after it. Reads and
-- writes happen at a time. Nothing is said of the very millisecond at which an entry expires.
use user_managed_access.Prelude.{
  String, Option, none, some, Bool, true, false, ◌≡◌, ◌==◌, if◌then◌else◌, ℕ, ◌+◌, ltb, Dict, get,
  put, remove, get-put, get-remove, eq_refl, arith, refl,
}

pub record ExpiringStorage (V : Type 0) : Type 1 where
  pub State : Type 0
  pub get : State → ℕ → String → Option V
  -- The time, the key, the value, and how long it stays valid.
  pub set : State → ℕ → String → V → ℕ → State
  pub delete : State → String → State
  pub get-set_other :
      (s : State) (now later : ℕ) (k j : String) (v : V) (duration : ℕ)
      → (k == j) ≡ false
      → get (set s now k v duration) later j ≡ get s later j
  pub get-set_valid :
      (s : State) (now later : ℕ) (k : String) (v : V) (duration : ℕ)
      → ltb later (now + duration) ≡ true
      → get (set s now k v duration) later k ≡ some v
  pub get-set_expired :
      (s : State) (now later : ℕ) (k : String) (v : V) (duration : ℕ)
      → ltb (now + duration) later ≡ true
      → get (set s now k v duration) later k ≡ none
  pub get-delete :
      (s : State) (now : ℕ) (k j : String)
      → get (delete s k) now j ≡ (if k == j then none else get s now j)

-- An entry of a dictionary, with the time until which it is valid.
abbrev pub live : {V : Type 0} → ℕ → Option (ℕ × V) → Option V
live now none = none
live now (some (until, v)) = if ltb now until then some v else none

pub live-get_other :
    {V : Type 0} (s : Dict (ℕ × V)) (e : ℕ × V) (later : ℕ) (k j : String)
    → (k == j) ≡ false
    → live later (get (put s k e) j) ≡ live later (get s j)
live-get_other s e later k j other = rw (get-put, other) refl

pub live-get_valid :
    {V : Type 0} (s : Dict (ℕ × V)) (until later : ℕ) (v : V) (k : String)
    → ltb later until ≡ true
    → live later (get (put s k (until, v)) k) ≡ some v
live-get_valid s until later v k valid = rw (get-put, eq_refl k, valid) refl

pub live-get_expired :
    {V : Type 0} (s : Dict (ℕ × V)) (until later : ℕ) (v : V) (k : String)
    → ltb until later ≡ true
    → live later (get (put s k (until, v)) k) ≡ none
live-get_expired s until later v k expired =
    let over : ltb later until ≡ false = ground (arith, expired) in
    rw (get-put, eq_refl k, over) refl

live-if :
    {V : Type 0} (now : ℕ) (b : Bool) (o : Option (ℕ × V))
    → live now (if b then none else o) ≡ (if b then none else live now o)
live-if now true o = refl
live-if now false o = refl

pub live-get_removed :
    {V : Type 0} (s : Dict (ℕ × V)) (now : ℕ) (k j : String)
    → live now (get (remove s k) j) ≡ (if k == j then none else live now (get s j))
live-get_removed s now k j = rw get-remove (live-if now (k == j) (get s j))

-- A storage that keeps its entries in a dictionary: the interface can be met.
abbrev pub expiring_memory_storage : (V : Type 0) → ExpiringStorage V
expiring_memory_storage V = record {
  State = Dict (ℕ × V);
  get = λ s now k. live now (get s k);
  set = λ s now k v duration. put s k (now + duration, v);
  delete = remove;
  get-set_other = λ s now later k j v duration. live-get_other s (now + duration, v) later k j;
  get-set_valid = λ s now later k v duration. live-get_valid s (now + duration) later v k;
  get-set_expired = λ s now later k v duration. live-get_expired s (now + duration) later v k;
  get-delete = live-get_removed;
}
