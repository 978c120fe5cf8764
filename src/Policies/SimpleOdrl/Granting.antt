-- ===== src/Policies/SimpleOdrl/Granting.antt =====
-- What the permissions that the authorizer returns rest on.
use user_managed_access.Prelude.{
  String, Option, none, some, List, [], ◌∷◌, true, false, ◌||◌, ◌&&◌, ◌≡◌, refl, sym, subst,
  Bool-cases, ◌==◌, contains, arith, eq_iff, map, Option-cases, inl, inr, ◌⊎◌,
}
use user_managed_access.Http.{ok}
use user_managed_access.Policies.{Authorizer}
use user_managed_access.Rdf.{Term, value, term_eq, QuadStore, contains_term}
use user_managed_access.Rdf.Vocabulary.Odrl
use user_managed_access.Views.{Permission, grants, to_query, ClaimSet}
use user_managed_access.Policies.SimpleOdrl.{allowed_scopes, evaluate, permissions}
use user_managed_access.Policies.SimpleOdrl.Constraints.{
  Clock, JsonPath, Constraint, check_constraint,
}
use user_managed_access.Policies.SimpleOdrl.Rules.{get_permissions}
use user_managed_access.Policies.SimpleOdrl.Soundness.{Applies, get_permissions_sound}

module _ (Q : QuadStore) (clock : Clock) (json : JsonPath) (fallback : Authorizer) where
  contains-allowed_scopes :
      (policies : Q.State) (claims : ClaimSet) (resource : String) (scopes found : List String)
      (scope : String)
      → allowed_scopes Q clock json fallback policies claims resource scopes ≡ some found
      → contains found scope ≡ true
      → (contains scopes scope ≡ true)
        × (get_permissions Q clock json policies claims resource scope ≡ some (scope ∷ []))
  unfolding allowed_scopes
  contains-allowed_scopes policies claims resource [] found scope h c =
      absurd (ground (arith, h, c))
  contains-allowed_scopes policies claims resource (x ∷ scopes) found scope h c =
      elim (Option-cases (allowed_scopes Q clock json fallback policies claims resource scopes)) [
        | inl e ↦ absurd (ground (arith, h, e))
        | inr (more, e) ↦
            let ih = contains-allowed_scopes policies claims resource scopes more scope e in
            go more e (λ k. ih k) (get_permissions Q clock json policies claims resource x) refl
      ]
    where
      go :
          (more : List String)
          → allowed_scopes Q clock json fallback policies claims resource scopes ≡ some more
          → (contains more scope ≡ true
              → (contains scopes scope ≡ true)
                × (get_permissions Q clock json policies claims resource scope ≡ some (scope ∷ [])))
          → (r : Option (List String)) → get_permissions Q clock json policies claims resource x ≡ r
          → (contains (x ∷ scopes) scope ≡ true)
            × (get_permissions Q clock json policies claims resource scope ≡ some (scope ∷ []))
      go more e ih none g = absurd (ground (arith, h, e, g))
      go more e ih (some []) g =
          let same : found ≡ more = ground (arith, h, e, g) in ground (arith, ih (rw (← same) c))
      go more e ih (some (s ∷ ss)) g =
          let sole : s ∷ ss ≡ x ∷ [] =
            (get_permissions_sound Q clock json policies claims resource x s ss g).0 in
          let same : found ≡ x ∷ more = ground (arith, h, e, g, sole) in
          let here : (x == scope || contains more scope) ≡ true =
            subst (λ ys. contains ys scope ≡ true) same c in
          ground (arith, ih, here, eq_iff x scope, g, sole)

  grants-evaluate :
      (policies : Q.State) (claims : ClaimSet) (query found : List Permission) (id scope : String)
      → evaluate Q clock json fallback policies claims query ≡ some found
      → grants found id scope ≡ true
      → (grants query id scope ≡ true)
        × (get_permissions Q clock json policies claims id scope ≡ some (scope ∷ []))
  unfolding evaluate
  grants-evaluate policies claims [] found id scope h g = absurd (ground (arith, h, g))
  grants-evaluate policies claims (p ∷ query) found id scope h g =
      elim (Option-cases (evaluate Q clock json fallback policies claims query)) [
        | inl e ↦ absurd (ground (arith, h, e))
        | inr (more, e) ↦
            go more e (λ k. grants-evaluate policies claims query more id scope e k)
              (allowed_scopes Q clock json fallback policies claims p.resource_id p.resource_scopes)
              refl
      ]
    where
      go :
          (more : List Permission)
          → evaluate Q clock json fallback policies claims query ≡ some more
          → (grants more id scope ≡ true
              → (grants query id scope ≡ true)
                × (get_permissions Q clock json policies claims id scope ≡ some (scope ∷ [])))
          → (r : Option (List String))
          → allowed_scopes Q clock json fallback policies claims p.resource_id p.resource_scopes ≡ r
          → (grants (p ∷ query) id scope ≡ true)
            × (get_permissions Q clock json policies claims id scope ≡ some (scope ∷ []))
      go more e ih none a = absurd (ground (arith, h, e, a))
      go more e ih (some []) a =
          let same : found ≡ more = ground (arith, h, e, a) in
          ground (arith, ih (subst (λ ps. grants ps id scope ≡ true) same g))
      go more e ih (some (s ∷ ss)) a =
          let same : found
              ≡ record { resource_id = p.resource_id; resource_scopes = s ∷ ss } ∷ more =
            ground (arith, h, e, a) in
          let here = subst (λ ps. grants ps id scope ≡ true) same g in
          let mine =
            contains-allowed_scopes policies claims p.resource_id p.resource_scopes (s ∷ ss) scope
              a in
          elim (Bool-cases (id == p.resource_id && contains (s ∷ ss) scope)) [
            | inl this ↦
                let there : id ≡ p.resource_id = ground (arith, this, eq_iff id p.resource_id) in
                let (asked, decided) = mine (ground (arith, this)) in
                (
                  ground (arith, asked, this),
                  subst
                      (λ i.
                        get_permissions Q clock json policies claims i scope ≡ some (scope ∷ []))
                      (sym there) decided,
                )
            | inr other ↦ ground (arith, ih (ground (arith, here, other)))
          ]

  -- What the authorizer answers to a query is either the answer of the fallback authorizer to the
  -- whole query, or it is decided here: then each scope that it grants on a resource was asked for
  -- there, some rule that applies to it is listed as a permission, and none as a prohibition.
  pub permissions_sound :
      (policies : Q.State) (claims : ClaimSet) (query found : List Permission)
      → permissions Q clock json fallback policies claims (some query) ≡ ok found
      → (fallback claims (some (map to_query query)) ≡ ok found)
        ⊎ ((id scope : String)
            → grants found id scope ≡ true
            → (grants query id scope ≡ true)
              × ((rule : Term) × Applies Q clock json policies claims id scope rule
                  × (contains_term (Q.get_predicates policies none (some rule)) Odrl.permission
                      ≡ true))
              × ((rule : Term)
                  → Applies Q clock json policies claims id scope rule
                  → contains_term (Q.get_predicates policies none (some rule)) Odrl.prohibition
                    ≡ false))
  unfolding permissions
  permissions_sound policies claims query found h =
      elim (Option-cases (evaluate Q clock json fallback policies claims query)) [
        | inl e ↦ inl (ground (arith, h, e))
        | inr (own, e) ↦
            let same : own ≡ found = ground (arith, h, e) in
            inr λ id scope g.
              let (asked, decided) =
                grants-evaluate policies claims query found id scope (ground (arith, e, same)) g in
              let (sole, listed, none_prohibits) =
                get_permissions_sound Q clock json policies claims id scope scope [] decided in
              (asked, listed, none_prohibits)
      ]

-- A `dateTime` constraint with the operator `odrl:eq` never holds, whatever the clock says, so not
-- at that very time either.
pub date_eq_never :
    (clock : Clock) (claims : ClaimSet) (c : Constraint)
    → c.left ≡ Odrl.date_time
    → value c.op ≡ "http://www.w3.org/ns/odrl/2/eq"
    → check_constraint clock claims c ≡ some false
unfolding check_constraint term_eq
date_eq_never clock claims c l o = rw (l, o)
