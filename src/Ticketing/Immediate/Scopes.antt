-- ===== src/Ticketing/Immediate/Scopes.antt =====
-- Which scopes of a request the strategy finds unmatched.
use user_managed_access.Prelude.{
  String, some, List, [], ◌∷◌, Bool, true, false, not, ◌&&◌, ◌≡◌, refl, if◌then◌else◌, Dict, get,
  put, get-put, keys, contains, contains-keys, contains-filter, arith,
}
use user_managed_access.Views.{Permission, grants}
use user_managed_access.Ticketing.Immediate.{
  unmarked, mark_scopes, mark_results, unmatched_scopes, is_unmatched,
}

get-unmarked :
    (scopes : List String) (d : Dict Bool) (s : String)
    → get (unmarked scopes d) s ≡ (if contains scopes s then some false else get d s)
unfolding unmarked
get-unmarked [] d s = refl
get-unmarked (x ∷ xs) d s = ground (arith, get-unmarked xs (put d x false) s, get-put d x s false)

get-mark_scopes :
    (scopes : List String) (d : Dict Bool) (s : String)
    → get (mark_scopes scopes d) s ≡ (if contains scopes s then some true else get d s)
unfolding mark_scopes
get-mark_scopes [] d s = refl
get-mark_scopes (x ∷ xs) d s =
    ground (arith, get-mark_scopes xs (put d x true) s, get-put d x s true)

get-mark_results :
    (id : String) (ps : List Permission) (d : Dict Bool) (s : String)
    → get (mark_results id ps d) s ≡ (if grants ps id s then some true else get d s)
unfolding mark_results
get-mark_results id [] d s = refl
get-mark_results id (p ∷ ps) d s = ground (
  arith,
  get-mark_results id ps (mark_scopes p.resource_scopes d) s,
  get-mark_results id ps d s,
  get-mark_scopes p.resource_scopes d s,
)

-- The unmatched scopes are those requested that no permission grants.
pub contains-unmatched_scopes :
    (permissions : List Permission) (required : Permission) (scope : String)
    → contains (unmatched_scopes permissions required) scope ≡ (
        contains required.resource_scopes scope
        && not (grants permissions required.resource_id scope))
unfolding unmatched_scopes
contains-unmatched_scopes ps r s =
    let d = unmarked r.resource_scopes [] in
    let m = mark_results r.resource_id ps d in
    ground (
      arith,
      contains-filter (is_unmatched m) (keys m) s,
      contains-keys m s,
      get-mark_results r.resource_id ps d s,
      get-unmarked r.resource_scopes [] s,
    )
