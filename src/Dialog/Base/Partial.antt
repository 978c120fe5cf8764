-- ===== src/Dialog/Base/Partial.antt =====
-- When a result is partial.
use user_managed_access.Prelude.{
  List, [], ◌∷◌, true, false, ◌≡◌, refl, all, any, contains, all-contains, all_of_contains, length,
  All, arith, eq_iff, eq_refl,
}
use user_managed_access.Views.{Permission, IsCovered}
use user_managed_access.Dialog.Base.{is_match, is_partial_result}

IsCovered-of_match :
    (granted : List Permission) (r : Permission)
    → any (is_match r) granted ≡ true
    → IsCovered granted r
IsCovered-of_match [] r h scope c = cc
IsCovered-of_match (g ∷ granted) r h scope c = ground (
  arith,
  eq_iff g.resource_id r.resource_id,
  eq_iff r.resource_id g.resource_id,
  all-contains (contains g.resource_scopes) r.resource_scopes scope,
  λ (k : any (is_match r) granted ≡ true). IsCovered-of_match granted r k scope c,
)

IsCovered-of_matches :
    (granted requested : List Permission)
    → all (λ r. any (is_match r) granted) requested ≡ true
    → All (IsCovered granted) requested
IsCovered-of_matches granted [] h = tt
IsCovered-of_matches granted (r ∷ requested) h = (
  IsCovered-of_match granted r (ground (arith, h)),
  IsCovered-of_matches granted requested (ground (arith, h)),
)

-- A result that is not reported as partial has as many entries as the request, and grants each
-- scope that was requested of each resource.
pub is_partial_result_sound :
    (requested granted : List Permission)
    → is_partial_result requested granted ≡ false
    → (length requested ≡ length granted) × All (IsCovered granted) requested
unfolding is_partial_result
is_partial_result_sound requested granted h =
    (ground (arith, h), IsCovered-of_matches granted requested (ground (arith, h)))

match_self : (p : Permission) → is_match p p ≡ true
match_self p =
    let scopes : all (contains p.resource_scopes) p.resource_scopes ≡ true =
      all_of_contains (contains p.resource_scopes) p.resource_scopes (λ s c. c) in
    ground (arith, eq_refl p.resource_id, scopes)

matches_in :
    (granted requested : List Permission)
    → ((p : Permission) → any (is_match p) requested ≡ true → any (is_match p) granted ≡ true)
    → all (λ r. any (is_match r) granted) requested ≡ true
matches_in granted [] h = refl
matches_in granted (r ∷ requested) h =
    let here = h r (ground (arith, match_self r)) in
    let later = matches_in granted requested λ p k. h p (ground (arith, k)) in
    ground (arith, here, later)

-- A result that grants the request as it stands is not reported as partial.
pub is_partial_result_self :
    (requested : List Permission) → is_partial_result requested requested ≡ false
unfolding is_partial_result
is_partial_result_self requested = ground (arith, matches_in requested requested λ p k. k)
