-- ===== src/Css/Owners/Common.antt =====
-- The common owner of several resources.
use user_managed_access.Prelude.{
  String, some, List, [], ◌∷◌, true, false, ◌≡◌, ◌⊎◌, inl, inr, refl, ap, ◌∙◌, get, put, get-put,
  Dict, HasDistinctKeys, ◌||◌, contains, or_else, ℕ, suc, ◌+◌, ◌≤◌, length, length-append, nat_beq,
  arith, eq_iff, Bool-cases, All, ◌==◌, eq_refl, contains-append, contains-keys,
}
use user_managed_access.Http.{ok, Outcome-cases, >>=-eq-ok}
use user_managed_access.Css.Owners.{
  Accounts, add_to_set, add_owners, valid_owners, sole_owner, find_owners, collect_owners,
  find_common_owner,
}

-- How many resources were found for an owner.
abbrev found : Dict (List String) → String → ℕ
found m owner = length (or_else (get m owner) [])

length-add_to_set : (xs : List String) (x : String) → length (add_to_set xs x) ≤ suc (length xs)
length-add_to_set xs x = elim (Bool-cases (contains xs x)) [
  | inl there ↦ rw there (omega arith)
  | inr new ↦ rw new (omega (arith, length-append xs (x ∷ [])))
]

contains-add_to_set : (xs : List String) (x : String) → contains (add_to_set xs x) x ≡ true
contains-add_to_set xs x = elim (Bool-cases (contains xs x)) [
  | inl there ↦ rw (there, there) refl
  | inr new ↦ rw new (ground (arith, contains-append xs (x ∷ []) x, eq_refl x))
]

-- One more than before at most, and no more for one who is not among the owners: once the path is
-- there, it is not counted again.
abbrev HasPath : Dict (List String) → String → String → Type 0
HasPath m owner path = contains (or_else (get m owner) []) path ≡ true

module _ (path owner : String) where
  abbrev entered : Dict (List String) → String → Dict (List String)
  entered m o = put m o (add_to_set (or_else (get m o) []) path)

  get_entered_other :
      (m : Dict (List String)) (o : String)
      → (o == owner) ≡ false
      → get (entered m o) owner ≡ get m owner
  get_entered_other m o other =
      get-put m o owner (add_to_set (or_else (get m o) []) path) ∙ rw other refl

  get_entered_same :
      (m : Dict (List String))
      → get (entered m owner) owner ≡ some (add_to_set (or_else (get m owner) []) path)
  get_entered_same m =
      get-put m owner owner (add_to_set (or_else (get m owner) []) path) ∙ rw (eq_refl owner) refl

  found-add_owners_kept :
      (owners : List String) (m : Dict (List String))
      → HasPath m owner path
      → found (add_owners owners path m) owner ≡ found m owner
  unfolding add_owners
  found-add_owners_kept [] m h = refl
  found-add_owners_kept (o ∷ owners) m h = elim (Bool-cases (o == owner)) [
    | inr other ↦
        let same = get_entered_other m o other in
        found-add_owners_kept owners (entered m o) (rw same h)
        ∙ ap (λ e. length (or_else e [])) same
    | inl this ↦
        let is_owner = (eq_iff o owner).0 this in
        let same : get (entered m o) owner ≡ some (or_else (get m owner) []) =
          rw is_owner (get_entered_same m ∙ rw h refl) in
        found-add_owners_kept owners (entered m o) (rw same h)
        ∙ ap (λ e. length (or_else e [])) same
  ]

  found-add_owners :
      (owners : List String) (m : Dict (List String))
      → (found (add_owners owners path m) owner ≤ suc (found m owner))
        × ((contains owners owner ≡ true)
            ⊎ (found (add_owners owners path m) owner ≡ found m owner))
  unfolding add_owners
  found-add_owners [] m = (omega arith, inr refl)
  found-add_owners (o ∷ owners) m = elim (Bool-cases (o == owner)) [
    | inr other ↦
        let (most, either) = found-add_owners owners (entered m o) in
        let same = ap (λ e. length (or_else e [])) (get_entered_other m o other) in
        (omega (arith, most, same), later other same either)
    | inl this ↦
        let is_owner = (eq_iff o owner).0 this in
        let there : get (entered m o) owner ≡ some (add_to_set (or_else (get m owner) []) path) =
          rw is_owner (get_entered_same m) in
        let kept =
          found-add_owners_kept owners (entered m o)
            (rw there (contains-add_to_set (or_else (get m owner) []) path)) in
        let counted = ap (λ e. length (or_else e [])) there in
        (
          omega (arith, kept, counted, length-add_to_set (or_else (get m owner) []) path),
          inl (ground (arith, this)),
        )
  ]
    where
      later :
          (o == owner) ≡ false
          → found (entered m o) owner ≡ found m owner
          → (contains owners owner ≡ true)
            ⊎ (found (add_owners owners path (entered m o)) owner ≡ found (entered m o) owner)
          → ((o == owner || contains owners owner) ≡ true)
            ⊎ (found (add_owners owners path (entered m o)) owner ≡ found m owner)
      later other same (inl listed) = inl (ground (arith, listed))
      later other same (inr equal) = inr (equal ∙ same)

module _ (env : Accounts) (owner : String) where
  abbrev pub Owns : String → Type 0
  Owns resource =
      (owners : List String) × (find_owners env resource ≡ ok owners)
      × (contains owners owner ≡ true)

  found-collect_owners :
      (resources : List String) (m done : Dict (List String))
      → collect_owners env resources m ≡ ok done
      → (found done owner ≤ length resources + found m owner)
        × ((found done owner ≡ length resources + found m owner) → All Owns resources)
  unfolding collect_owners
  found-collect_owners [] m done h =
      let same : m ≡ done = ground (arith, h) in
      (omega (arith, ap (λ d. found d owner) same), λ e. tt)
  found-collect_owners (r ∷ resources) m done h = elim (Outcome-cases (find_owners env r)) [
    | inr (e, failed) ↦ absurd (ground (arith, h, failed))
    | inl (owners, fine) ↦
        let (most, all_there) =
          found-collect_owners resources (add_owners owners r m) done (ground (arith, h, fine)) in
        let (one_more, either) = found-add_owners r owner owners m in
        (
          omega (arith, most, one_more),
          λ e. (
            elim either [
              | inl listed ↦ (owners, fine, listed)
              | inr equal ↦ absurd (omega (arith, e, most, equal))
            ],
            all_there (omega (arith, e, most, one_more)),
          ),
        )
  ]

contains-valid_owners :
    (size : ℕ) (m : Dict (List String)) (owner : String)
    → HasDistinctKeys m
    → contains (valid_owners size m) owner ≡ true
    → (get_entry : List String) × (get m owner ≡ some get_entry) × (length get_entry ≡ size)
unfolding valid_owners
contains-valid_owners size [] owner distinct h = cc
contains-valid_owners size ((o, targets) ∷ m) owner (new, distinct) h =
    elim (Bool-cases (o == owner)) [
      | inl this ↦ elim (Bool-cases (nat_beq (length targets) size)) [
        | inl full ↦ (targets, ground (arith, this), ground (arith, full))
        | inr fewer ↦
            let (entry, there, k) =
              contains-valid_owners size m owner distinct (ground (arith, h, fewer)) in
            absurd (ground (arith, new, contains-keys m o, there, this, eq_iff o owner))
      ]
      | inr other ↦
          let (entry, there, k) =
            contains-valid_owners size m owner distinct (ground (arith, h, other)) in
          (entry, ground (arith, there, other), k)
    ]

HasDistinctKeys-put :
    (m : Dict (List String)) (k : String) (v : List String)
    → HasDistinctKeys m
    → HasDistinctKeys (put m k v)
HasDistinctKeys-put [] k v h = (refl, tt)
HasDistinctKeys-put ((j, w) ∷ m) k v (new, h) = elim (Bool-cases (j == k)) [
  | inl this ↦ rw this (new, h)
  | inr other ↦ rw other (
    contains-keys (put m k v) j
        ∙ ground (arith, get-put m k j v, other, eq_iff j k, eq_iff k j, new, contains-keys m j),
    HasDistinctKeys-put m k v h,
  )
]

HasDistinctKeys-add_owners :
    (owners : List String) (path : String) (m : Dict (List String))
    → HasDistinctKeys m
    → HasDistinctKeys (add_owners owners path m)
unfolding add_owners
HasDistinctKeys-add_owners [] path m h = h
HasDistinctKeys-add_owners (o ∷ owners) path m h =
    HasDistinctKeys-add_owners owners path (put m o (add_to_set (or_else (get m o) []) path))
      (HasDistinctKeys-put m o (add_to_set (or_else (get m o) []) path) h)

HasDistinctKeys-collect_owners :
    (env : Accounts) (resources : List String) (m done : Dict (List String))
    → HasDistinctKeys m
    → collect_owners env resources m ≡ ok done
    → HasDistinctKeys done
unfolding collect_owners
HasDistinctKeys-collect_owners env [] m done d h =
    let same : m ≡ done = ground (arith, h) in rw (← same) d
HasDistinctKeys-collect_owners env (r ∷ resources) m done d h =
    elim (Outcome-cases (find_owners env r)) [
      | inr (e, failed) ↦ absurd (ground (arith, h, failed))
      | inl (owners, fine) ↦
          HasDistinctKeys-collect_owners env resources (add_owners owners r m) done
            (HasDistinctKeys-add_owners owners r m d) (ground (arith, h, fine))
    ]

sole_owner_ok :
    (owners : List String) (owner : String) → sole_owner owners ≡ ok owner → owners ≡ owner ∷ []
unfolding sole_owner
sole_owner_ok [] owner h = cc
sole_owner_ok (o ∷ []) owner h = ground (arith, h)
sole_owner_ok (o ∷ u ∷ owners) owner h = cc

-- The common owner that is found is among the owners of each of the resources.
pub find_common_owner-Owns :
    (env : Accounts) (resources : List String) (owner : String)
    → find_common_owner env resources ≡ ok owner
    → All (Owns env owner) resources
unfolding find_common_owner
find_common_owner-Owns env resources owner h =
    let (m, collected, sole) = >>=-eq-ok (collect_owners env resources []) _ h in
    let only = sole_owner_ok (valid_owners (length resources) m) owner sole in
    let (targets, there, full) =
      contains-valid_owners (length resources) m owner
        (HasDistinctKeys-collect_owners env resources [] m tt collected)
        (ap (λ os. contains os owner) only ∙ ground (arith, eq_refl owner)) in
    let counted = ap (λ e. length (or_else e [])) there in
    (found-collect_owners env owner resources [] m collected).1 (omega (arith, counted, full))
