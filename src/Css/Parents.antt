-- ===== src/Css/Parents.antt =====
-- packages/css/src/authorization/ParentCreateExtractor.ts: to create a resource, one needs that right on
-- the nearest container that exists. The strategy for identifiers and the set of resources are
-- parameters: `depth` counts the containers above an identifier, of which its parent has fewer. The
-- recursion of the source runs on fuel, one more than that depth. The two calls of the recursion,
-- `hasResource` and `getParentContainer`, are taken not to throw.
pub mod Nearest
use user_managed_access.Prelude.{
  String, Option, none, some, List, [], ◌∷◌, ◌++◌, Bool, true, false, ◌≡◌, ◌<◌, ◌==◌, if◌then◌else◌,
  contains, get, put, or_else, Dict, ℕ, zero, suc,
}
use user_managed_access.Http.{Outcome, ok, fail, internal_server_error}
use user_managed_access.Css.Owners.{add_to_set}

pub record Identifiers : Type 0 where
  pub is_root : String → Bool
  pub parent : String → String
  pub has_resource : String → Bool
  pub depth : String → ℕ
  pub depth-parent : (id : String) → is_root id ≡ false → depth (parent id) < depth id

module _ (env : Identifiers) where
  -- `findFirstExistingParent`; `none` where the fuel does not suffice.
  unfoldable pub find_parent : ℕ → String → Option (Outcome String)
  find_parent zero id = none
  find_parent (suc n) id =
      let above = find_parent n (env.parent id) in
      if env.has_resource id
      then some (ok id)
      else if env.is_root id
      then some (fail internal_server_error)
      else above

  unfoldable pub find_first_existing_parent : String → Outcome String
  unfolding find_parent
  find_first_existing_parent id =
      or_else (find_parent (suc (env.depth id)) id) (fail internal_server_error)

  -- `updatedResult.add` for one mode or for several.
  unfoldable pub add_modes : String → List String → Dict (List String) → Dict (List String)
  add_modes id [] m = m
  add_modes id (mode ∷ rest) m =
      add_modes id rest (put m id (add_to_set (or_else (get m id) []) mode))

  -- `handle`, for what the source extractor found; `create` is the mode of a creation.
  unfoldable pub move_creates :
      String → List (String × List String) → Dict (List String) → Outcome (Dict (List String))
  unfolding find_first_existing_parent add_modes
  move_creates create [] m = ok m
  move_creates create ((id, modes) ∷ rest) m =
      if contains modes create
      then elim (find_first_existing_parent id) [
        | fail e ↦ fail e
        | ok parent ↦ move_creates create rest (add_modes parent (create ∷ []) m)
      ]
      else move_creates create rest (add_modes id modes m)
