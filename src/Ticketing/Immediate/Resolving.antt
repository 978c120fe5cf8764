-- ===== src/Ticketing/Immediate/Resolving.antt =====
-- When `resolveTicket` grants a ticket, and what it asks for otherwise.
use user_managed_access.Prelude.{
  String, List, [], ◌∷◌, map, true, false, not, ◌&&◌, ◌≡◌, ◌↔◌, refl, ap, subst, contains, any,
  or_else, is_empty, All, arith, eq_refl, Bool-cases, inl, inr,
}
use user_managed_access.Http.{ok, >>=-eq-ok, RequiredClaim}
use user_managed_access.Policies.{Authorizer}
use user_managed_access.Views.{Permission, grants, IsCovered, Ticket, success, failure}
use user_managed_access.Ticketing.Immediate.{
  calculate_permissions, decide, resolve_ticket, unmatched_scopes, unmatched_permissions,
  scopes_claim,
}
use user_managed_access.Ticketing.Immediate.Scopes.{contains-unmatched_scopes}

-- A list without members is empty.
is_empty_of_contains :
    (xs : List String) → ((s : String) → contains xs s ≡ false) → is_empty xs ≡ true
is_empty_of_contains [] h = refl
is_empty_of_contains (x ∷ xs) h = ground (arith, h x, eq_refl x)

not_contains_of_is_empty :
    (xs : List String) (s : String) → is_empty xs ≡ true → contains xs s ≡ false
not_contains_of_is_empty [] s h = refl
not_contains_of_is_empty (x ∷ xs) s h = cc

IsCovered-of_empty :
    (ps : List Permission) (r : Permission)
    → is_empty (unmatched_scopes ps r) ≡ true
    → IsCovered ps r
IsCovered-of_empty ps r h s c =
    ground (
      arith,
      contains-unmatched_scopes ps r s,
      not_contains_of_is_empty (unmatched_scopes ps r) s h,
    )

empty_of_covered :
    (ps : List Permission) (r : Permission)
    → IsCovered ps r
    → is_empty (unmatched_scopes ps r) ≡ true
empty_of_covered ps r h =
    is_empty_of_contains (unmatched_scopes ps r)
      λ s. ground (arith, contains-unmatched_scopes ps r s, h s)

IsCovered-of_none_unmatched :
    (ps rs : List Permission)
    → is_empty (unmatched_permissions ps rs) ≡ true
    → All (IsCovered ps) rs
unfolding unmatched_permissions
IsCovered-of_none_unmatched ps [] h = tt
IsCovered-of_none_unmatched ps (r ∷ rs) h = elim (Bool-cases (is_empty (unmatched_scopes ps r))) [
  | inl e ↦ (IsCovered-of_empty ps r e, IsCovered-of_none_unmatched ps rs (ground arith))
  | inr e ↦ cc (rw e at h)
]

none_unmatched_of_covered :
    (ps rs : List Permission)
    → All (IsCovered ps) rs
    → is_empty (unmatched_permissions ps rs) ≡ true
unfolding unmatched_permissions
none_unmatched_of_covered ps [] h = refl
none_unmatched_of_covered ps (r ∷ rs) (c, h) =
    rw (empty_of_covered ps r c) (none_unmatched_of_covered ps rs h)

decide_success :
    (requested permissions ps : List Permission)
    → decide false requested permissions ≡ success ps
    → (permissions ≡ ps) × (is_empty ps ≡ false) × All (IsCovered ps) requested
unfolding decide
decide_success requested [] ps h = cc
decide_success requested (p ∷ rest) ps h =
    elim (Bool-cases (is_empty (unmatched_permissions (p ∷ rest) requested))) [
      | inl e ↦
          let same : p ∷ rest ≡ ps = ground arith in
          (
            same,
            rw (← same),
            subst (λ qs. All (IsCovered qs) requested) same
                (IsCovered-of_none_unmatched (p ∷ rest) requested e),
          )
      | inr e ↦ cc (rw e at h)
    ]

decide_covered :
    (requested permissions : List Permission)
    → is_empty permissions ≡ false
    → All (IsCovered permissions) requested
    → decide false requested permissions ≡ success permissions
unfolding decide
decide_covered requested permissions h c = rw (h, none_unmatched_of_covered permissions requested c)

-- Without partial success, a ticket is granted exactly when the authorizer answers with a list
-- that is not empty (its entries without scopes left out) and each scope that was requested of
-- each resource is in it; the granted permissions are that list.
pub resolve_ticket_success_iff :
    (authorizer : Authorizer) (ticket : Ticket) (permissions : List Permission)
    → (resolve_ticket authorizer false ticket ≡ ok (success permissions)) ↔ (
        (calculate_permissions authorizer ticket ≡ ok permissions)
        × (is_empty permissions ≡ false)
        × All (IsCovered permissions) ticket.permissions)
unfolding resolve_ticket
resolve_ticket_success_iff authorizer ticket permissions = (
  λ h.
      let (found, calculated, decided) = >>=-eq-ok (calculate_permissions authorizer ticket) _ h in
      let d : decide false ticket.permissions found ≡ success permissions = cc in
      let (same, full, covered) = decide_success ticket.permissions found permissions d in
      (rw (← same) calculated, full, covered),
  λ (calculated, full, covered).
      rw (calculated, resolve_ticket)
        (ap (λ d. ok d) (decide_covered ticket.permissions permissions full covered)),
)

claim_for_unmatched :
    (ps rs : List Permission) (scope : String)
    → any
        (λ c. contains (or_else c.resource_scopes []) scope)
        (map (λ perm. scopes_claim perm.resource_scopes) (unmatched_permissions ps rs))
      ≡ any (λ r. contains r.resource_scopes scope && not (grants ps r.resource_id scope)) rs
unfolding unmatched_permissions
claim_for_unmatched ps [] scope = refl
claim_for_unmatched ps (r ∷ rs) scope = ground (
  arith,
  claim_for_unmatched ps rs scope,
  contains-unmatched_scopes ps r scope,
  not_contains_of_is_empty (unmatched_scopes ps r) scope,
)

abbrev claims_for : List Permission → List RequiredClaim
claims_for = map λ perm. scopes_claim perm.resource_scopes

is_empty-claims_for : (ps : List Permission) → is_empty (claims_for ps) ≡ is_empty ps
is_empty-claims_for [] = refl
is_empty-claims_for (p ∷ ps) = refl

decide_failure :
    (requested permissions : List Permission) (claims : List RequiredClaim)
    → is_empty permissions ≡ false
    → decide false requested permissions ≡ failure claims
    → (is_empty claims ≡ false)
      × (claims ≡ claims_for (unmatched_permissions permissions requested))
unfolding decide
decide_failure requested permissions claims full h =
    elim (Bool-cases (is_empty (unmatched_permissions permissions requested))) [
      | inl e ↦ cc (rw (full, e) at h)
      | inr e ↦
          let same : claims ≡ claims_for (unmatched_permissions permissions requested) =
            ground (arith, full, e) in
          (rw (same, is_empty-claims_for) e, same)
    ]

-- Without partial success, where the authorizer grants something and the ticket still fails, the
-- required claims name a scope exactly when some request has it and it is not granted there, and
-- there is at least one claim.
pub resolve_ticket_failure :
    (authorizer : Authorizer) (ticket : Ticket) (permissions : List Permission)
    (claims : List RequiredClaim) (scope : String)
    → calculate_permissions authorizer ticket ≡ ok permissions
    → is_empty permissions ≡ false
    → resolve_ticket authorizer false ticket ≡ ok (failure claims)
    → (is_empty claims ≡ false)
      × (any (λ c. contains (or_else c.resource_scopes []) scope) claims
          ≡ any
              (λ r.
                contains r.resource_scopes scope && not (grants permissions r.resource_id scope))
              ticket.permissions)
unfolding resolve_ticket
resolve_ticket_failure authorizer ticket permissions claims scope calculated full h =
    let d : decide false ticket.permissions permissions ≡ failure claims =
      cc (rw calculated at h) in
    let (some_claim, same) = decide_failure ticket.permissions permissions claims full d in
    (some_claim, rw same (claim_for_unmatched permissions ticket.permissions scope))
