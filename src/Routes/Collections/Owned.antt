-- ===== src/Routes/Collections/Owned.antt =====
-- What a user can change of the collections of others.
use user_managed_access.Prelude.{
  String, none, some, List, Bool, true, not, ◌≡◌, inl, inr, sym, ap, ◌∙◌, ◌&&◌, ◌||◌, any-append,
  is_empty, truthy, arith, Bool-cases, any,
}
use user_managed_access.Http.{ok, Outcome-cases, >>=-eq-ok, ◌>>=◌}
use user_managed_access.Rdf.{Term, named, term_eq, Quad, quad, quad_eq, contains_quad, QuadStore}
use user_managed_access.Rdf.Patterns.{contains-get_objects_has}
use user_managed_access.Rdf.Vocabulary.Dc
use user_managed_access.Rdf.Vocabulary.Odrl
use user_managed_access.Rdf.Vocabulary.OdrlP
use user_managed_access.Storage.{KeyValueStorage}
use user_managed_access.Controllers.Base.{difference}
use user_managed_access.Controllers.Base.Diffs.{contains-difference}
use user_managed_access.Routes.Collections.{
  Request, Response, verify_ownership, stored_quads, check_change, description_to_quads, new_quads,
  replace_collection, handle_put, handle_delete,
}

module _ (Q : QuadStore) where
  -- A triple of the collection, or one that makes something a part of it.
  abbrev pub is_about : Term → Quad → Bool
  is_about subject q =
      term_eq subject q.subject || (term_eq Odrl.part_of q.predicate && term_eq subject q.object)

  contains-stored_quads :
      (s : Q.State) (subject : Term) (q : Quad)
      → contains_quad (stored_quads Q s subject) q ≡ (Q.has s q && is_about subject q)
  contains-stored_quads s subject q = ground (
    arith,
    any-append (λ r. quad_eq r q) (Q.get_quads s (some subject) none none)
        (Q.get_quads s none (some Odrl.part_of) (some subject)),
    Q.contains-get_quads s (some subject) none none q,
    Q.contains-get_quads s none (some Odrl.part_of) (some subject) q,
  )

  verify_ownership_ok :
      (s : Q.State) (subject : Term) (user : String)
      → verify_ownership Q s subject user ≡ ok tt
      → Q.has s (quad subject Dc.creator (named user)) ≡ true
  unfolding verify_ownership
  verify_ownership_ok s subject user h =
      let owners = Q.get_objects s (some subject) (some Dc.creator) in
      let mine : any (λ owner. term_eq owner (named user)) owners ≡ true = ground (arith, h) in
      sym (contains-get_objects_has Q s subject Dc.creator (named user)) ∙ mine

  check_change_ok :
      (s : Q.State) (request : Request) (user : String) (subject : Term)
      → check_change Q s request user ≡ ok subject
      → (subject ≡ named request.url)
        × (Q.has s (quad (named request.url) Dc.creator (named user)) ≡ true)
  unfolding check_change
  check_change_ok s request user subject h = elim (Bool-cases (truthy request.id)) [
    | inr root ↦ absurd (ground (arith, h, root))
    | inl given ↦
        elim (Bool-cases
          (is_empty (Q.get_objects s (some (named request.url)) (some OdrlP.relation)))) [
            | inr relation ↦ absurd (ground (arith, h, given, relation))
            | inl plain ↦
                let (checked, verified, rest) =
                  >>=-eq-ok (verify_ownership Q s (named request.url) user)
                    (λ c. ok (named request.url)) {y = subject} (ground (arith, h, given, plain)) in
                (ground (arith, rest), verify_ownership_ok s (named request.url) user verified)
          ]
  ]

module _ (Q : QuadStore) (O : KeyValueStorage (List String)) (new_store : List Quad → Q.State)
    (join_url : String → String → String) (ownership : O.State) where
  -- A collection is deleted by one of its owners only, and with it go just its triples and those that
  -- make something a part of it.
  pub has-handle_delete :
      (request : Request) (user : String) (s t : Q.State) (response : Response)
      → handle_delete Q O new_store join_url ownership request user s ≡ (ok response, t)
      → (Q.has s (quad (named request.url) Dc.creator (named user)) ≡ true)
        × ((q : Quad) → Q.has t q ≡ (Q.has s q && not (is_about Q (named request.url) q)))
  unfolding handle_delete
  has-handle_delete request user s t response h =
      elim (Outcome-cases (check_change Q s request user)) [
        | inr (e, failed) ↦ absurd (ground (arith, h, failed))
        | inl (subject, checked) ↦
            let (same, mine) = check_change_ok Q s request user subject checked in
            let node = named request.url in
            let after : Q.remove_quads s (stored_quads Q s subject) ≡ t =
              ground (arith, h, checked) in
            (
              mine,
              λ q.
                  rw (← after, same)
                    (ground (
                      arith,
                      Q.has-remove_quads s (stored_quads Q s node) q,
                      contains-stored_quads Q s node q,
                    )),
            )
      ]

  -- A collection is replaced by one of its owners only. Its triples are then just those of the new
  -- description, and all others stay as they were.
  pub has-handle_put :
      (request : Request) (user : String) (s t : Q.State) (response : Response)
      → ((qs : List Quad) (q : Quad) → Q.has (new_store qs) q ≡ contains_quad qs q)
      → handle_put Q O new_store join_url ownership request user s ≡ (ok response, t)
      → (quads : List Quad) × (description_to_quads O ownership request.body user
            (named request.url)
          ≡ ok quads)
        × (Q.has s (quad (named request.url) Dc.creator (named user)) ≡ true)
        × ((q : Quad)
            → Q.has t q
              ≡ (contains_quad quads q || (Q.has s q && not (is_about Q (named request.url) q))))
  unfolding handle_put new_quads replace_collection
  has-handle_put request user s t response fresh h =
      elim (Outcome-cases (
        check_change Q s request user
        >>= new_quads Q O new_store join_url ownership request user)) [
          | inr (e, failed) ↦ absurd (ground (arith, h, failed))
          | inl ((subject, quads), fine) ↦
              let (node, checked, rest) = >>=-eq-ok (check_change Q s request user) _ fine in
              let (made, described, last) =
                >>=-eq-ok (description_to_quads O ownership request.body user node) _ rest in
              let (same, mine) = check_change_ok Q s request user node checked in
              let to_subject : node ≡ subject = ground (arith, last) in
              let is_quads : made ≡ quads = ground (arith, last) in
              let here : named request.url ≡ subject = sym same ∙ to_subject in
              let old = new_store (stored_quads Q s subject) in
              let new = new_store quads in
              let added = Q.add_quads s (difference Q new old) in
              let after : replace_collection Q O new_store join_url ownership s subject quads ≡ t =
                ground (arith, h, fine) in
              (
                quads,
                rw (← same) described ∙ ap ok is_quads,
                mine,
                λ q.
                    rw (← after, here)
                      (ground (
                        arith,
                        Q.has-remove_quads added (difference Q old new) q,
                        Q.has-add_quads s (difference Q new old) q,
                        contains-difference Q old new q,
                        contains-difference Q new old q,
                        fresh quads q,
                        fresh (stored_quads Q s subject) q,
                        contains-stored_quads Q s subject q,
                      )),
              )
        ]
