-- ===== src/Routes/ResourceRegistration/Ownership.antt =====
-- The registrations and the lists of owned resources agree.
use user_managed_access.Prelude.{
  String, Option, none, some, List, [], ◌∷◌, ◌++◌, Bool, true, false, not, ◌==◌, ◌&&◌, ◌≡◌, ◌≢◌,
  refl, ℕ, if◌then◌else◌, is_some, is_empty, contains, contains-append, Distinct, Distinct-concat,
  arith, eq_iff, Bool-cases, inl, inr,
}
use user_managed_access.Http.{Outcome, ok, fail}
use user_managed_access.Rdf.{Term, QuadStore}
use user_managed_access.Storage.{KeyValueStorage}
use user_managed_access.Views.{ResourceDescription, Registration}
use user_managed_access.Routes.ResourceRegistration.Collections.{Changes}
use user_managed_access.Routes.ResourceRegistration.Steps.{
  Step, stays, registers, updates, removes, handle-Step,
}
use user_managed_access.Routes.ResourceRegistration.{
  Request, Registry, owned, remove_first, store_metadata, add_owned, unregister, handle,
}

abbrev pub is_owner : Option Registration → String → Bool
is_owner none owner = false
is_owner (some r) owner = r.owner == owner

contains-remove_first :
    (x : String) (ys : List String) (y : String)
    → Distinct ys
    → contains (remove_first x ys) y ≡ (contains ys y && not (x == y))
unfolding remove_first
contains-remove_first x [] y h = refl
contains-remove_first x (z ∷ ys) y (fresh, h) =
    ground (arith, contains-remove_first x ys y h, eq_iff z x, eq_iff z y, eq_iff x y)

Distinct-remove_first : (x : String) (ys : List String) → Distinct ys → Distinct (remove_first x ys)
unfolding remove_first
Distinct-remove_first x [] h = tt
Distinct-remove_first x (z ∷ ys) (fresh, h) =
    ground (arith, contains-remove_first x ys z h, Distinct-remove_first x ys h)

remove_first_absent :
    (x : String) (ys : List String) → contains ys x ≡ false → remove_first x ys ≡ ys
unfolding remove_first
remove_first_absent x [] h = refl
remove_first_absent x (z ∷ ys) h = ground (arith, remove_first_absent x ys)

or_else_of_empty : (xs : List String) → is_empty xs ≡ true → [] ≡ xs
or_else_of_empty [] h = refl
or_else_of_empty (x ∷ xs) h = cc

module _ (R : KeyValueStorage Registration) (O : KeyValueStorage (List String))
    (D : KeyValueStorage String) (Q : QuadStore) where
  -- A resource is on the list of an owner exactly when it is registered and the owner is theirs, and
  -- no list has a resource twice.
  pub record IsConsistent (s : Registry R O D Q) : Type 0 where
    pub listed :
        (owner id : String)
        → contains (owned R O D Q s owner) id ≡ is_owner (R.get s.registrations id) owner
    pub distinct : (owner : String) → Distinct (owned R O D Q s owner)

  owned-add_owned :
      (s : Registry R O D Q) (owner id other : String)
      → owned R O D Q (add_owned R O D Q owner id s) other
        ≡ (if owner == other then owned R O D Q s owner ++ id ∷ [] else owned R O D Q s other)
  owned-add_owned s owner id other =
      ground (arith, O.get-set s.ownership owner other (owned R O D Q s owner ++ id ∷ []))

  owned-unregister :
      (s : Registry R O D Q) (owner id other : String)
      → owned R O D Q (unregister R O D Q id owner s) other ≡ (
          if owner == other then remove_first id (owned R O D Q s owner) else owned R O D Q s other)
  unfolding unregister
  owned-unregister s owner id other = ground (
    arith,
    O.get-set s.ownership owner other (remove_first id (owned R O D Q s owner)),
    O.get-delete s.ownership owner other,
    or_else_of_empty (remove_first id (owned R O D Q s owner)),
    remove_first_absent id (owned R O D Q s owner),
    eq_iff owner other,
  )

  get-unregister :
      (s : Registry R O D Q) (owner id j : String)
      → R.get (unregister R O D Q id owner s).registrations j
        ≡ (if id == j then none else R.get s.registrations j)
  unfolding unregister
  get-unregister s owner id j = R.get-delete s.registrations id j

  -- A resource is registered: its first description, or a new one.
  add_owned-IsConsistent :
      (s : Registry R O D Q) (owner id : String) (d : ResourceDescription) (changes : Changes)
      → IsConsistent s
      → is_some (R.get s.registrations id) ≡ false
      → IsConsistent (add_owned R O D Q owner id (store_metadata R O D Q id d owner none changes s))
  add_owned-IsConsistent s owner id d changes c fresh = record {
    listed = λ o j. ground (
      arith,
      O.get-set s.ownership owner o (owned R O D Q s owner ++ id ∷ []),
      R.get-set s.registrations id j (record { owner = owner; description = d }),
      contains-append (owned R O D Q s owner) (id ∷ []) j,
      c.listed o j,
      c.listed owner j,
      eq_iff owner o,
      eq_iff id j,
      fresh,
    );
    distinct = λ o. elim (Bool-cases (owner == o)) [
      | inl same ↦
          rw (owned-add_owned (store_metadata R O D Q id d owner none changes s) owner id o, same)
            (Distinct-concat (owned R O D Q s owner) id (c.distinct owner)
              (ground (arith, c.listed owner id, fresh)))
      | inr other ↦
          rw (owned-add_owned (store_metadata R O D Q id d owner none changes s) owner id o, other)
            (c.distinct o)
    ];
  }

  update-IsConsistent :
      (s : Registry R O D Q) (owner id : String) (d : ResourceDescription) (entry : Registration)
      (changes : Changes)
      → IsConsistent s
      → R.get s.registrations id ≡ some entry
      → (entry.owner == owner) ≡ true
      → IsConsistent (store_metadata R O D Q id d owner (some entry.description) changes s)
  update-IsConsistent s owner id d entry changes c found mine = record {
    listed = λ o j. ground (
      arith,
      R.get-set s.registrations id j (record { owner = owner; description = d }),
      c.listed o j,
      eq_iff id j,
      eq_iff entry.owner owner,
      found,
    );
    distinct = c.distinct;
  }

  unregister-IsConsistent :
      (s : Registry R O D Q) (owner id : String) (entry : Registration)
      → IsConsistent s
      → R.get s.registrations id ≡ some entry
      → (entry.owner == owner) ≡ true
      → IsConsistent (unregister R O D Q id owner s)
  unregister-IsConsistent s owner id entry c found mine = record {
    listed = λ o j. rw (owned-unregister s owner id o) (left o j);
    distinct = λ o. rw (owned-unregister s owner id o) (elim (Bool-cases (owner == o)) [
      | inl same ↦ rw same (Distinct-remove_first id (owned R O D Q s owner) (c.distinct owner))
      | inr other ↦ rw other (c.distinct o)
    ]);
  }
    where
      left :
          (o j : String)
          → contains
              (if owner == o then remove_first id (owned R O D Q s owner) else owned R O D Q s o)
              j
            ≡ is_owner (R.get (unregister R O D Q id owner s).registrations j) o
      left o j = ground (
        arith,
        get-unregister s owner id j,
        contains-remove_first id (owned R O D Q s owner) j (c.distinct owner),
        c.listed o j,
        c.listed owner j,
        found,
        mine,
        eq_iff owner o,
        eq_iff id j,
        eq_iff entry.owner owner,
        eq_iff entry.owner o,
      )

  Step-IsConsistent :
      (owner : String) (s t : Registry R O D Q)
      → Step R O D Q owner s t
      → IsConsistent s
      → IsConsistent t
  Step-IsConsistent owner s t stays c = c
  Step-IsConsistent owner s t (registers id d changes fresh) c =
      add_owned-IsConsistent s owner id d changes c fresh
  Step-IsConsistent owner s t (updates id d entry changes found mine) c =
      update-IsConsistent s owner id d entry changes c found mine
  Step-IsConsistent owner s t (removes id entry found mine) c =
      unregister-IsConsistent s owner id entry c found mine

  -- Every request, whatever its outcome, keeps the registrations and the lists of owned resources in
  -- agreement, if the identifier that may be drawn for a resource without a name is not in use.
  pub handle-IsConsistent :
      (location : String → Outcome String) (blanks : ℕ → Term) (uuid : String)
      (validated : Outcome String) (request : Request) (s : Registry R O D Q)
      → IsConsistent s
      → R.get s.registrations uuid ≡ none
      → IsConsistent (handle R O D Q location blanks uuid validated request s).1
  unfolding handle
  handle-IsConsistent location blanks uuid (fail e) request s c new = c
  handle-IsConsistent location blanks uuid (ok owner) request s c new =
      Step-IsConsistent owner s _ (handle-Step R O D Q location blanks uuid owner request s new) c

  Step-keeps_others :
      (owner : String) (s t : Registry R O D Q) (id : String) (r : Registration)
      → Step R O D Q owner s t
      → R.get s.registrations id ≡ some r
      → (r.owner == owner) ≡ false
      → R.get t.registrations id ≡ some r
  Step-keeps_others owner s t id r stays found other = found
  Step-keeps_others owner s t id r (registers j d changes fresh) found other = ground (
    arith,
    R.get-set s.registrations j id (record { owner = owner; description = d }),
    eq_iff j id,
    fresh,
    found,
  )
  Step-keeps_others owner s t id r (updates j d entry changes mine is_mine) found other = ground (
    arith,
    R.get-set s.registrations j id (record { owner = owner; description = d }),
    eq_iff j id,
    mine,
    is_mine,
    found,
    other,
  )
  Step-keeps_others owner s t id r (removes j entry mine is_mine) found other =
      ground (arith, get-unregister s owner j id, eq_iff j id, mine, is_mine, found, other)

  -- No request of one owner changes or removes the registration of a resource that is another's.
  pub handle_keeps_others :
      (location : String → Outcome String) (blanks : ℕ → Term) (uuid owner : String)
      (request : Request) (s : Registry R O D Q) (id : String) (r : Registration)
      → R.get s.registrations uuid ≡ none
      → R.get s.registrations id ≡ some r
      → r.owner ≢ owner
      → R.get (handle R O D Q location blanks uuid (ok owner) request s).1.registrations id ≡ some r
  handle_keeps_others location blanks uuid owner request s id r new found other =
      Step-keeps_others owner s _ id r
        (handle-Step R O D Q location blanks uuid owner request s new) found
        (ground (arith, other, eq_iff r.owner owner))
