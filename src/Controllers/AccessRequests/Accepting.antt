-- ===== src/Controllers/AccessRequests/Accepting.antt =====
-- An accepted request as a policy: what the authorizer over ODRL policies finds of it.
use user_managed_access.Prelude.{
  String, none, some, List, [], ◌∷◌, ◌++◌, map, true, false, ◌||◌, ◌≡◌, refl, ap, ◌∙◌, any,
  any-append, flat_map, arith,
}
use user_managed_access.Http.{ok}
use user_managed_access.Rdf.{
  Term, named, term_eq, Quad, quad, quad_eq, contains_term, contains_quad, QuadStore,
}
use user_managed_access.Rdf.Lists.{term_eq_iff}
use user_managed_access.Rdf.Patterns.{quad_eq_refl, contains-get_objects_has}
use user_managed_access.Rdf.Vocabulary.Odrl
use user_managed_access.Rdf.Vocabulary.Ovc
use user_managed_access.Rdf.Vocabulary.RdfType
use user_managed_access.Rdf.Vocabulary.Sotw
use user_managed_access.Storage.{KeyValueStorage}
use user_managed_access.Views.{ClaimSet, claims_of, webid}
use user_managed_access.Policies.SimpleOdrl.Constraints.{Clock, JsonPath, is_value}
use user_managed_access.Policies.SimpleOdrl.Rules.{odrl_scope}
use user_managed_access.Policies.SimpleOdrl.Soundness.{Applies}
use user_managed_access.Controllers.AccessRequests.{
  Pending, objects_of, policy_quads, resolve_request, patch_request, entity_node, permission_node,
}
use user_managed_access.Controllers.AccessRequests.Patching.{
  changed, has-changed, contains-actions_other,
}
use user_managed_access.Controllers.AccessRequests.Checks.{IsPending, patch_request_ok}
use user_managed_access.Policies.SimpleOdrl.Triples.{objects_nil, Applies-of_triples}

contains-actions :
    (permission : Term) (actions : List Term) (a : Term)
    → contains_term actions a ≡ true
    → contains_quad
        (map (λ action. quad permission Odrl.action action) actions)
        (quad permission Odrl.action a)
      ≡ true
contains-actions permission [] a h = cc
contains-actions permission (b ∷ actions) a h = ground (
  arith,
  h,
  term_eq_iff b a,
  quad_eq_refl (quad permission Odrl.action a),
  contains-actions permission actions a,
)

module _ (Q : QuadStore) (O : KeyValueStorage (List String)) where
  abbrev policy_of : String → Q.State → Term → String → Pending → List Quad
  policy_of uuid s node client p = policy_quads Q O uuid s node client p.target p.party p.actions

  has-accepted :
      (uuid request client : String) (ownership : O.State) (s t : Q.State)
      → patch_request Q O uuid ownership s request client "accepted" ≡ ok t
      → (p : Pending) × IsPending Q O ownership s (named request) client p
        × ((q : Quad)
            → Q.has t q ≡ (
                Q.has (changed Q O s (named request) "accepted") q
                || contains_quad
                    (policy_of uuid
                      (changed Q O s (named request) "accepted")
                      (named request)
                      client
                      p)
                    q))
  unfolding resolve_request
  has-accepted uuid request client ownership s t h =
      let (p, valid, pending, after) =
        patch_request_ok Q O uuid request client "accepted" ownership s t h in
      let c = changed Q O s (named request) "accepted" in
      (p, pending, λ q. rw after (Q.has-add_quads c (policy_of uuid c (named request) client p) q))

  -- The policy of a request without constraints.
  module _ (uuid : String) (s : Q.State) (node : Term) (client : String) (p : Pending)
      (plain : objects_of Q O s node Odrl.constraint ≡ []) where
    abbrev action_quads : List Quad
    action_quads = map (λ action. quad (permission_node uuid) Odrl.action action) p.actions

    -- The actions stand between the other triples.
    any-parts :
        (q : Quad)
        → any
            (λ r. quad_eq r q)
            (action_quads
              ++ (quad (permission_node uuid) Odrl.target p.target
                  ∷ (quad (permission_node uuid) Odrl.assignee p.party
                      ∷ (quad (permission_node uuid) Odrl.assigner (named client)
                          ∷ flat_map
                              (λ c.
                                quad (permission_node uuid) Odrl.constraint c
                                ∷ Q.get_quads s (some c) none none)
                              (objects_of Q O s node Odrl.constraint)))))
          ≡ (contains_quad action_quads q
              || contains_quad
                  (quad (permission_node uuid) Odrl.target p.target
                    ∷ (quad (permission_node uuid) Odrl.assignee p.party
                        ∷ (quad (permission_node uuid) Odrl.assigner (named client) ∷ [])))
                  q)
    any-parts q = rw plain (any-append (λ r. quad_eq r q) action_quads _)

    policy-constraint_free :
        (predicate o : Term)
        → term_eq Odrl.action predicate ≡ false
        → term_eq Odrl.target predicate ≡ false
        → term_eq Odrl.assignee predicate ≡ false
        → term_eq Odrl.assigner predicate ≡ false
        → term_eq RdfType.type predicate ≡ false
        → term_eq Odrl.uid predicate ≡ false
        → term_eq Odrl.permission predicate ≡ false
        → contains_quad (policy_of uuid s node client p) (quad (permission_node uuid) predicate o)
          ≡ false
    unfolding policy_quads quad_eq
    policy-constraint_free predicate o a b c d e f g = ground (
      arith,
      a,
      b,
      c,
      d,
      e,
      f,
      g,
      any-parts (quad (permission_node uuid) predicate o),
      contains-actions_other Q O (permission_node uuid) p.actions
          (quad (permission_node uuid) predicate o) a,
    )

    contains-policy_parts :
        (a : Term)
        → contains_term p.actions a ≡ true
        → (contains_quad
              (policy_of uuid s node client p)
              (quad (permission_node uuid) Odrl.target p.target)
            ≡ true)
          × (contains_quad
                (policy_of uuid s node client p)
                (quad (permission_node uuid) Odrl.assignee p.party)
              ≡ true)
          × (contains_quad
                (policy_of uuid s node client p)
                (quad (permission_node uuid) Odrl.action a)
              ≡ true)
          × (contains_quad
                (policy_of uuid s node client p)
                (quad (entity_node uuid) Odrl.permission (permission_node uuid))
              ≡ true)
    unfolding policy_quads
    contains-policy_parts a h =
        let permission = permission_node uuid in
        (
          ground (
            arith,
            any-parts (quad permission Odrl.target p.target),
            quad_eq_refl (quad permission Odrl.target p.target),
          ),
          ground (
            arith,
            any-parts (quad permission Odrl.assignee p.party),
            quad_eq_refl (quad permission Odrl.assignee p.party),
          ),
          ground (
            arith,
            any-parts (quad permission Odrl.action a),
            contains-actions permission p.actions a h,
          ),
          ground (arith, quad_eq_refl (quad (entity_node uuid) Odrl.permission permission)),
        )

  -- An accepted request without constraints becomes a policy that applies: where the new identifier is
  -- not used yet, the authorizer finds that the new permission is about the requested resource, allows
  -- the requested action to the requester, and has no constraint that fails.
  pub accepted-Applies :
      (clock : Clock) (json : JsonPath) (uuid request client resource scope user : String)
      (ownership : O.State) (s t : Q.State) (claims : ClaimSet)
      → patch_request Q O uuid ownership s request client "accepted" ≡ ok t
      → ((predicate o : Term) → Q.has s (quad (permission_node uuid) predicate o) ≡ false)
      → ((o : Term) → Q.has s (quad (named request) Odrl.constraint o) ≡ false)
      → Q.get_objects s (some (named request)) (some Sotw.requested_target) ≡ named resource ∷ []
      → Q.has s (quad (named request) Sotw.requesting_party (named user)) ≡ true
      → Q.has s (quad (named request) Sotw.requested_action (named (odrl_scope scope))) ≡ true
      → any (is_value user) (claims_of claims webid) ≡ true
      → Applies Q clock json t claims resource scope (permission_node uuid)
        × (Q.has t (quad (entity_node uuid) Odrl.permission (permission_node uuid)) ≡ true)
  unfolding quad_eq term_eq
  accepted-Applies clock json uuid request client resource scope user ownership s t claims h fresh
        plain target party action claimed =
      let node = named request in
      let c = changed Q O s node "accepted" in
      let (p, pending, has-t) = has-accepted uuid request client ownership s t h in
      let permission = permission_node uuid in
      let scope_term = named (odrl_scope scope) in
      let plain_c : objects_of Q O c node Odrl.constraint ≡ [] =
        objects_nil Q c node Odrl.constraint λ o.
          ground
            (arith, has-changed Q O s node "accepted" (quad node Odrl.constraint o), plain o) in
      let is_target : p.target ≡ named resource = ground (arith, pending.targeted, target) in
      let is_party : p.party ≡ named user = (term_eq_iff p.party (named user)).0 (
        ground (
          arith,
          ap (λ ts. contains_term ts (named user)) pending.parties,
          contains-get_objects_has Q s node Sotw.requesting_party (named user),
          party,
        )) in
      let acts : contains_term p.actions scope_term ≡ true =
        ap (λ ts. contains_term ts scope_term) pending.actions
        ∙ contains-get_objects_has Q s node Sotw.requested_action scope_term
        ∙ action in
      let (targets, assigns, allows, listed) =
        contains-policy_parts uuid c node client p plain_c scope_term acts in
      let unconstrained = policy-constraint_free uuid c node client p plain_c in
      (
        Applies-of_triples Q clock json t claims resource scope user permission
            (ground (arith, has-t (quad permission Odrl.target p.target), targets, is_target))
            (ground (arith, has-t (quad permission Odrl.action scope_term), allows))
            (ground (arith, has-t (quad permission Odrl.assignee p.party), assigns, is_party))
            claimed
            (λ o.
              has-t (quad permission Odrl.constraint o)
              ∙ ground (
                arith,
                has-changed Q O s node "accepted" (quad permission Odrl.constraint o),
                fresh Odrl.constraint o,
                unconstrained Odrl.constraint o refl refl refl refl refl refl refl,
              ))
            (λ o.
              has-t (quad permission Ovc.constraint o)
              ∙ ground (
                arith,
                has-changed Q O s node "accepted" (quad permission Ovc.constraint o),
                fresh Ovc.constraint o,
                unconstrained Ovc.constraint o refl refl refl refl refl refl refl,
              )),
        ground (arith, has-t (quad (entity_node uuid) Odrl.permission permission), listed),
      )
