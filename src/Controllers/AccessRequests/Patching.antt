-- ===== src/Controllers/AccessRequests/Patching.antt =====
-- The life of an access request: who resolves it, that it is resolved once, and what stays as it was.
use user_managed_access.Prelude.{
  String, none, some, List, [], ◌∷◌, map, true, false, not, ◌&&◌, ◌||◌, ◌==◌, ◌≡◌, inl, inr, refl,
  sym, ap, ◌∙◌, any-append, flat_map, arith, Bool-cases,
}
use user_managed_access.Http.{HttpError, ok, fail, Outcome-cases}
use user_managed_access.Rdf.{
  Term, named, term_eq, Quad, quad, quad_eq, contains_term, contains_quad, QuadStore,
}
use user_managed_access.Rdf.Lists.{term_eq_refl}
use user_managed_access.Rdf.Patterns.{quad_eq_refl, contains-get_objects_has}
use user_managed_access.Rdf.Vocabulary.Odrl
use user_managed_access.Rdf.Vocabulary.Sotw
use user_managed_access.Storage.{KeyValueStorage}
use user_managed_access.Controllers.AccessRequests.{
  objects_of, status_term, policy_quads, resolve_request, patch_request, permission_node,
}
use user_managed_access.Controllers.AccessRequests.Checks.{patch_request_ok}

module _ (Q : QuadStore) (O : KeyValueStorage (List String)) where
  pub contains-actions_other :
      (permission : Term) (actions : List Term) (q : Quad)
      → term_eq Odrl.action q.predicate ≡ false
      → contains_quad (map (λ action. quad permission Odrl.action action) actions) q ≡ false
  unfolding quad_eq
  contains-actions_other permission [] q h = refl
  contains-actions_other permission (a ∷ actions) q h =
      ground (arith, h, contains-actions_other permission actions q h)

  -- The copied triples of constraints were there before.
  has_of_copied :
      (s : Q.State) (permission : Term) (constraints : List Term) (q : Quad)
      → term_eq Odrl.constraint q.predicate ≡ false
      → contains_quad
          (flat_map
            (λ c. quad permission Odrl.constraint c ∷ Q.get_quads s (some c) none none)
            constraints)
          q
        ≡ true
      → Q.has s q ≡ true
  unfolding quad_eq
  has_of_copied s permission [] q other h = cc
  has_of_copied s permission (c ∷ constraints) q other h = ground (
    arith,
    any-append (λ r. quad_eq r q) (Q.get_quads s (some c) none none)
        (flat_map (λ c. quad permission Odrl.constraint c ∷ Q.get_quads s (some c) none none)
          constraints),
    Q.contains-get_quads s (some c) none none q,
    has_of_copied s permission constraints q other,
  )

  -- A new policy says nothing new about statuses.
  has_of_policy_status :
      (uuid client : String) (s : Q.State) (node target party : Term) (actions : List Term)
      (a b : Term)
      → contains_quad
          (policy_quads Q O uuid s node client target party actions)
          (quad a Sotw.request_status b)
        ≡ true
      → Q.has s (quad a Sotw.request_status b) ≡ true
  unfolding policy_quads quad_eq term_eq
  has_of_policy_status uuid client s node target party actions a b h =
      let q = quad a Sotw.request_status b in
      let permission = permission_node uuid in
      has_of_copied s permission (objects_of Q O s node Odrl.constraint) q refl (
        ground (
          arith,
          h,
          any-append (λ r. quad_eq r q) (map (λ action. quad permission Odrl.action action) actions)
              (quad permission Odrl.target target
                ∷ (quad permission Odrl.assignee party
                    ∷ (quad permission Odrl.assigner (named client)
                        ∷ flat_map
                            (λ c.
                              quad permission Odrl.constraint c ∷ Q.get_quads s (some c) none none)
                            (objects_of Q O s node Odrl.constraint)))),
          contains-actions_other permission actions q refl,
        ))

  -- The store once the status is replaced.
  abbrev pub changed : Q.State → Term → String → Q.State
  changed s node information =
      Q.add_quads (Q.remove_quads s (quad node Sotw.request_status Sotw.requested ∷ []))
        (quad node Sotw.request_status (status_term Q O information) ∷ [])

  pub has-changed :
      (s : Q.State) (node : Term) (information : String) (q : Quad)
      → Q.has (changed s node information) q ≡ (
          (Q.has s q && not (quad_eq (quad node Sotw.request_status Sotw.requested) q))
          || quad_eq (quad node Sotw.request_status (status_term Q O information)) q)
  has-changed s node information q = ground (
    arith,
    Q.has-add_quads (Q.remove_quads s (quad node Sotw.request_status Sotw.requested ∷ []))
        (quad node Sotw.request_status (status_term Q O information) ∷ []) q,
    Q.has-remove_quads s (quad node Sotw.request_status Sotw.requested ∷ []) q,
  )

  resolution-ne-requested :
      (information : String) → term_eq (status_term Q O information) Sotw.requested ≡ false
  unfolding term_eq
  resolution-ne-requested information = elim (Bool-cases (information == "accepted")) [
    | inl yes_accepted ↦ rw yes_accepted refl
    | inr denied ↦ rw denied refl
  ]

  -- A resolved request is no longer `requested`.
  not_requested_resolved :
      (uuid client information : String) (s : Q.State) (node target party : Term)
      (actions : List Term)
      → Q.has
          (resolve_request Q O uuid s node client information target party actions)
          (quad node Sotw.request_status Sotw.requested)
        ≡ false
  unfolding resolve_request quad_eq
  not_requested_resolved uuid client information s node target party actions =
      let old = quad node Sotw.request_status Sotw.requested in
      let t = changed s node information in
      let gone : Q.has t old ≡ false = ground (
        arith,
        has-changed s node information old,
        term_eq_refl node,
        term_eq_refl Sotw.request_status,
        term_eq_refl Sotw.requested,
        resolution-ne-requested information,
      ) in
      ground (
        arith,
        gone,
        Q.has-add_quads t (policy_quads Q O uuid t node client target party actions) old,
        has_of_policy_status uuid client t node target party actions node Sotw.requested,
      )

  -- Once a request was accepted or denied, no patch of it succeeds any more, whoever sends it.
  pub resolved_once :
      (uuid uuid' request client client' information information' : String)
      (ownership ownership' : O.State) (s t : Q.State)
      → patch_request Q O uuid ownership s request client information ≡ ok t
      → (e : HttpError) × (patch_request Q O uuid' ownership' t request client' information'
          ≡ fail e)
  resolved_once uuid uuid' request client client' information information' ownership ownership' s t
        h =
      elim (Outcome-cases (patch_request Q O uuid' ownership' t request client' information')) [
        | inr failed ↦ failed
        | inl (u, again) ↦
            let (p, valid, pending, after) =
              patch_request_ok Q O uuid request client information ownership s t h in
            let (p', valid', pending', after') =
              patch_request_ok Q O uuid' request client' information' ownership' t u again in
            let node = named request in
            let here : Q.has t (quad node Sotw.request_status Sotw.requested) ≡ true =
              sym (contains-get_objects_has Q t node Sotw.request_status Sotw.requested)
              ∙ ap (λ ts. contains_term ts Sotw.requested) pending'.status
              ∙ ground (arith, term_eq_refl Sotw.requested) in
            let gone =
              not_requested_resolved uuid client information s node p.target p.party p.actions in
            absurd (
              ground (
                arith,
                here,
                ap (λ v. Q.has v (quad node Sotw.request_status Sotw.requested)) after,
                gone,
              ))
      ]

  -- A patch that succeeds keeps every triple but the status `requested` of that request, and records the
  -- new status.
  pub has-patch_request :
      (uuid request client information : String) (ownership : O.State) (s t : Q.State)
      → patch_request Q O uuid ownership s request client information ≡ ok t
      → ((q : Quad)
          → Q.has s q ≡ true
          → quad_eq (quad (named request) Sotw.request_status Sotw.requested) q ≡ false
          → Q.has t q ≡ true)
        × (Q.has t (quad (named request) Sotw.request_status (status_term Q O information)) ≡ true)
        × (information ≡ "denied"
            → (q : Quad) → Q.has s q ≡ false
            → quad_eq (quad (named request) Sotw.request_status Sotw.denied) q ≡ false
            → Q.has t q ≡ false)
  unfolding resolve_request
  has-patch_request uuid request client information ownership s t h =
      let (p, valid, pending, after) =
        patch_request_ok Q O uuid request client information ownership s t h in
      let node = named request in
      let c = changed s node information in
      let policy = policy_quads Q O uuid c node client p.target p.party p.actions in
      let status = quad node Sotw.request_status (status_term Q O information) in
      (
        λ q there other. rw after (
            ground
              (arith, there, other, has-changed s node information q, Q.has-add_quads c policy q)),
        rw after (
            ground (
              arith,
              has-changed s node information status,
              quad_eq_refl status,
              Q.has-add_quads c policy status,
            )),
        λ denied q missing other.
            rw (after, denied) (ground (arith, missing, other, has-changed s node "denied" q)),
      )
