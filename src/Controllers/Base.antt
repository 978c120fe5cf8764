-- ===== src/Controllers/Base.antt =====
-- packages/uma/src/controller/BaseController.ts and util/routeSpecific/sanitizeUtil.ts. The state is
-- that of the policy store. `new Store(store)` is a copy, so a sanitizer that writes does so on a state
-- of its own. The parser of Turtle is a parameter of the calls: `data` is `none` where it throws.
-- Serialization is left out: a body is the quads that it has.
pub mod Diffs
use user_managed_access.Prelude.{
  String, Option, none, some, List, [], Bool, true, false, not, ◌==◌, if◌then◌else◌, all, filter,
  is_empty, ℕ, nat_beq,
}
use user_managed_access.Http.{Outcome, ok, fail, HttpError, conflict, plain_error}
use user_managed_access.Http.Exec.{Exec, ◌>>=◌, ◌>>◌, pure, lift}
use user_managed_access.Rdf.{Term, Quad, QuadStore}

pub record Answer : Type 0 where
  pub status : ℕ
  pub message : List Quad

pub record Created : Type 0 where
  pub status : ℕ
  pub id : String

-- What the routes call of a controller. A body is a text, as it was sent.
pub record Controller (S : Type 0) : Type 0 where
  pub get_entities : String → Exec S Answer
  pub get_entity : (entity client : String) → Exec S Answer
  pub add_entity : (body client : String) → Exec S Created
  pub patch_entity : (entity information client : String) → Bool → Exec S ℕ
  pub put_entity : (body entity client : String) → Exec S ℕ
  pub delete_entity : (entity client : String) → Exec S ℕ

module _ (Q : QuadStore) where
  abbrev pub quads : Q.State → List Quad
  quads s = Q.get_quads s none none none

  -- `a.difference(b)`: the quads of the first that the second does not have.
  abbrev pub difference : Q.State → Q.State → List Quad
  difference a b = filter (λ q. not (Q.has b q)) (quads a)

  -- `noAlreadyDefinedSubjects(store, newStore)`
  unfoldable pub no_already_defined_subjects : Q.State → Q.State → Bool
  no_already_defined_subjects store new_store =
      all (λ subject. is_empty (Q.get_quads store (some subject) none none))
        (Q.get_subjects new_store none none)

  -- The functions that a controller is made with. One that writes gives the store that it leaves.
  pub record Sanitizers : Type 0 where
    pub post : Q.State → String → Outcome (Q.State × String)
    pub delete : Q.State → String → String → Outcome Q.State
    pub gets : Q.State → String → Outcome Q.State
    pub get : Q.State → String → String → Outcome Q.State
    pub patch : Q.State → String → String → String → Outcome Q.State

  -- Removal and addition, each only where there is something to remove or to add.
  abbrev pub apply_difference : Q.State → Q.State → Q.State
  apply_difference original filtered =
      let remove = difference original filtered in
      let add = difference filtered original in
      let removed = if is_empty remove then original else Q.remove_quads original remove in
      if is_empty add then removed else Q.add_quads removed add

module _ (Q : QuadStore) (sanitize : Sanitizers Q) where
  -- `get`
  abbrev get_with : (Q.State → Outcome Q.State) → Exec Q.State Answer
  get_with sanitize_get s =
      (lift (sanitize_get s) >>= λ store. pure (record { status = 200; message = quads Q store })) s

  unfoldable pub get_entities : String → Exec Q.State Answer
  get_entities client = get_with λ s. sanitize.gets s client

  unfoldable pub get_entity : String → String → Exec Q.State Answer
  get_entity entity client = get_with λ s. sanitize.get s entity client

  unfoldable pub add_entity : Option Q.State → String → Exec Q.State Created
  unfolding no_already_defined_subjects
  add_entity none client s = (fail plain_error, s)
  add_entity (some store) client s = elim (sanitize.post store client) [
    | fail e ↦ (fail e, s)
    | ok (result, id) ↦
        if no_already_defined_subjects Q s result
        then (ok (record { status = 201; id = id }), Q.add_quads s (quads Q result))
        else (fail conflict, s)
  ]

  unfoldable pub delete_entity : String → String → Exec Q.State ℕ
  delete_entity entity client s = elim (sanitize.delete s entity client) [
    | fail e ↦ (fail e, s)
    | ok filtered ↦ (ok 204, Q.remove_quads s (difference Q s filtered))
  ]

  -- What is patched: the whole store, or the entity alone.
  abbrev isolated : Bool → Q.State → String → String → Outcome Q.State
  isolated isolate s entity client = if isolate then sanitize.get s entity client else ok s

  -- The store as it is to be: what was not isolated, and what the patch leaves of the entity.
  abbrev rejoined : Bool → Q.State → Q.State → Q.State → String → String → Outcome Q.State
  rejoined isolate s entity_store patched entity client =
      if isolate
      then elim (sanitize.get patched entity client) [
        | fail e ↦ fail e
        | ok again ↦ ok (Q.add_quads (Q.remove_quads s (quads Q entity_store)) (quads Q again))
      ]
      else ok patched

  unfoldable pub patch_entity : String → String → String → Bool → Exec Q.State ℕ
  patch_entity entity information client isolate s = elim (isolated isolate s entity client) [
    | fail e ↦ (fail e, s)
    | ok entity_store ↦ elim (sanitize.patch entity_store entity client information) [
      | fail e ↦ (fail e, s)
      | ok patched ↦ elim (rejoined isolate s entity_store patched entity client) [
        | fail e ↦ (fail e, s)
        | ok filtered ↦ (ok 204, apply_difference Q s filtered)
      ]
    ]
  ]

  -- The parsed entity takes the place of the one that is there.
  unfoldable pub replace_entity : Option Q.State → String → String → Exec Q.State ℕ
  unfolding delete_entity
  replace_entity none entity client s = (fail plain_error, s)
  replace_entity (some store) entity client s =
      (lift (sanitize.post store client) >>= λ posted.
      delete_entity entity client >>= λ status t. (ok 204, Q.add_quads t (quads Q posted.0)))
        s

  unfoldable pub put_entity : Option Q.State → String → String → Exec Q.State ℕ
  unfolding get_entity
  put_entity parsed entity client s =
      (get_entity entity client >>= λ found.
      if nat_beq found.status 200 then replace_entity parsed entity client else pure 404)
        s

  unfoldable pub base_controller : (String → Option Q.State) → Controller Q.State
  unfolding get_entities get_entity add_entity patch_entity put_entity delete_entity
  base_controller parse = record {
    get_entities = get_entities;
    get_entity = get_entity;
    add_entity = λ body client. add_entity (parse body) client;
    patch_entity = patch_entity;
    put_entity = λ body entity client. put_entity (parse body) entity client;
    delete_entity = delete_entity;
  }
