-- ===== src/Controllers/Base/Diffs.antt =====
-- What the operations of a controller leave in the store, as the set of quads that it has.
use user_managed_access.Prelude.{
  String, Option, none, some, List, [], ◌∷◌, Bool, true, false, not, ◌&&◌, ◌||◌, ◌≡◌, refl, ap, ◌∙◌,
  if◌then◌else◌, is_empty, all, ℕ, arith, Bool-cases, inl, inr,
}
use user_managed_access.Http.{ok, Outcome-cases}
use user_managed_access.Http.Exec.{lift, >>=-eq-ok}
use user_managed_access.Rdf.{Term, term_eq, Quad, contains_term, contains_quad, QuadStore}
use user_managed_access.Rdf.Lists.{contains-filter, term_eq_iff, term_eq_refl}
use user_managed_access.Rdf.Patterns.{any_of_contains}
use user_managed_access.Controllers.Base.{
  quads, difference, apply_difference, no_already_defined_subjects, Sanitizers, Answer, Created,
  add_entity, delete_entity, replace_entity, put_entity, patch_entity, get_entity,
}

pub not_contains_of_is_empty :
    (qs : List Quad) (q : Quad) → is_empty qs ≡ true → contains_quad qs q ≡ false
not_contains_of_is_empty [] q h = refl
not_contains_of_is_empty (r ∷ qs) q h = cc

-- A term that tests find in a list passes what every member passes.
pub all_terms :
    (p : Term → Bool) (ts : List Term) (t : Term)
    → all p ts ≡ true
    → contains_term ts t ≡ true
    → p t ≡ true
all_terms p [] t h c = cc
all_terms p (u ∷ ts) t h c = ground (arith, term_eq_iff u t, all_terms p ts t)

module _ (Q : QuadStore) where
  pub contains-quads : (s : Q.State) (q : Quad) → contains_quad (quads Q s) q ≡ Q.has s q
  contains-quads s q = ground (arith, Q.contains-get_quads s none none none q)

  pub contains-difference :
      (a b : Q.State) (q : Quad)
      → contains_quad (difference Q a b) q ≡ (Q.has a q && not (Q.has b q))
  contains-difference a b q =
      contains-filter (λ r. not (Q.has b r)) (quads Q a) q
      ∙ ap (λ c. c && not (Q.has b q)) (contains-quads a q)

  -- After the difference is removed and added, the store has just the quads of the other one.
  pub has-apply_difference :
      (s filtered : Q.State) (q : Quad) → Q.has (apply_difference Q s filtered) q ≡ Q.has filtered q
  has-apply_difference s filtered q =
      let remove = difference Q s filtered in
      let add = difference Q filtered s in
      ground (
        arith,
        contains-difference s filtered q,
        contains-difference filtered s q,
        not_contains_of_is_empty remove q,
        not_contains_of_is_empty add q,
        Q.has-remove_quads s remove q,
        Q.has-add_quads (if is_empty remove then s else Q.remove_quads s remove) add q,
      )

  -- A store defines the subject of each of its quads.
  contains-subjects :
      (s : Q.State) (q : Quad)
      → Q.has s q ≡ true
      → contains_term (Q.get_subjects s none none) q.subject ≡ true
  contains-subjects s q h =
      Q.contains-get_subjects s none none q.subject
      ∙ any_of_contains (λ r. term_eq r.subject q.subject) (quads Q s) q (contains-quads s q ∙ h)
          (term_eq_refl q.subject)

  no_already_defined_lem :
      (store new_store : Q.State) (p q : Quad)
      → no_already_defined_subjects Q store new_store ≡ true
      → Q.has new_store p ≡ true
      → Q.has store q ≡ true
      → term_eq q.subject p.subject ≡ false
  unfolding no_already_defined_subjects
  no_already_defined_lem store new_store p q fresh h k =
      let none_there : is_empty (Q.get_quads store (some p.subject) none none) ≡ true =
        all_terms (λ subject. is_empty (Q.get_quads store (some subject) none none))
          (Q.get_subjects new_store none none) p.subject fresh (contains-subjects new_store p h) in
      ground (
        arith,
        k,
        Q.contains-get_quads store (some p.subject) none none q,
        not_contains_of_is_empty (Q.get_quads store (some p.subject) none none) q none_there,
        term_eq_iff q.subject p.subject,
        term_eq_iff p.subject q.subject,
      )

module _ (Q : QuadStore) (sanitize : Sanitizers Q) where
  -- A deletion that succeeds keeps just the quads that the sanitizer keeps.
  pub has-delete_entity :
      (entity client : String) (s t : Q.State) (status : ℕ)
      → delete_entity Q sanitize entity client s ≡ (ok status, t)
      → (filtered : Q.State) × (sanitize.delete s entity client ≡ ok filtered)
        × ((q : Quad) → Q.has t q ≡ (Q.has s q && Q.has filtered q))
  unfolding delete_entity
  has-delete_entity entity client s t status h =
      elim (Outcome-cases (sanitize.delete s entity client)) [
        | inr (e, failed) ↦ absurd (ground (arith, h, failed))
        | inl (filtered, found) ↦
            let same : Q.remove_quads s (difference Q s filtered) ≡ t = ground (arith, h, found) in
            (
              filtered,
              found,
              λ q. rw (← same) (
                  ground (
                    arith,
                    Q.has-remove_quads s (difference Q s filtered) q,
                    contains-difference Q s filtered q,
                  )),
            )
      ]

  -- An entity that was created has no subject that the store had before, and the store has its quads
  -- besides those that it had.
  pub add_entity_created :
      (store s t : Q.State) (client : String) (created : Created)
      → add_entity Q sanitize (some store) client s ≡ (ok created, t)
      → (result : Q.State) × (sanitize.post store client ≡ ok (result, created.id))
        × ((p q : Quad)
            → Q.has result p ≡ true
            → Q.has s q ≡ true
            → term_eq q.subject p.subject ≡ false)
        × ((q : Quad) → Q.has t q ≡ (Q.has s q || Q.has result q))
  unfolding add_entity
  add_entity_created store s t client created h =
      elim (Outcome-cases (sanitize.post store client)) [
        | inr (e, failed) ↦ absurd (ground (arith, h, failed))
        | inl ((result, id), posted) ↦ elim (Bool-cases (no_already_defined_subjects Q s result)) [
          | inr defined ↦ absurd (ground (arith, h, posted, defined))
          | inl fresh ↦
              let same : Q.add_quads s (quads Q result) ≡ t = ground (arith, h, posted, fresh) in
              let named : id ≡ created.id = ground (arith, h, posted, fresh) in
              (
                result,
                posted ∙ ap (λ i. ok (result, i)) named,
                λ p q. no_already_defined_lem Q s result p q fresh,
                λ q. rw (← same) (
                    Q.has-add_quads s (quads Q result) q
                    ∙ ap (λ b. Q.has s q || b) (contains-quads Q result q)),
              )
        ]
      ]

  -- Where a patch is isolated, the store keeps the quads that do not belong to the entity, and has of
  -- the rest just what the patch leaves of the entity.
  pub has-patch_entity :
      (entity information client : String) (s t : Q.State) (status : ℕ)
      → patch_entity Q sanitize entity information client true s ≡ (ok status, t)
      → (before patched after : Q.State) × (sanitize.get s entity client ≡ ok before)
        × (sanitize.patch before entity client information ≡ ok patched)
        × (sanitize.get patched entity client ≡ ok after)
        × ((q : Quad) → Q.has t q ≡ ((Q.has s q && not (Q.has before q)) || Q.has after q))
  unfolding patch_entity
  has-patch_entity entity information client s t status h =
      elim (Outcome-cases (sanitize.get s entity client)) [
        | inr (e, failed) ↦ absurd (ground (arith, h, failed))
        | inl (before, found) ↦
            elim (Outcome-cases (sanitize.patch before entity client information)) [
              | inr (e, failed) ↦ absurd (ground (arith, h, found, failed))
              | inl (patched, done) ↦ elim (Outcome-cases (sanitize.get patched entity client)) [
                | inr (e, failed) ↦ absurd (ground (arith, h, found, done, failed))
                | inl (after, again) ↦
                    let kept = Q.remove_quads s (quads Q before) in
                    let filtered = Q.add_quads kept (quads Q after) in
                    let same : apply_difference Q s filtered ≡ t =
                      ground (arith, h, found, done, again) in
                    (
                      before,
                      patched,
                      after,
                      found,
                      done,
                      again,
                      λ q. rw (← same) (
                          has-apply_difference Q s filtered q
                          ∙ ground (
                            arith,
                            Q.has-add_quads kept (quads Q after) q,
                            Q.has-remove_quads s (quads Q before) q,
                            contains-quads Q before q,
                            contains-quads Q after q,
                          )),
                    )
              ]
            ]
      ]

  get_entity_ok :
      (entity client : String) (s t : Q.State) (answer : Answer)
      → get_entity Q sanitize entity client s ≡ (ok answer, t)
      → (answer.status ≡ 200) × (t ≡ s)
  unfolding get_entity
  get_entity_ok entity client s t answer h = elim (Outcome-cases (sanitize.get s entity client)) [
    | inr (e, failed) ↦ absurd (ground (arith, h, failed))
    | inl (store, found) ↦ (ground (arith, h, found), ground (arith, h, found))
  ]

  has-replace_entity :
      (parsed : Option Q.State) (entity client : String) (s t : Q.State) (status : ℕ)
      → replace_entity Q sanitize parsed entity client s ≡ (ok status, t)
      → (store result filtered : Q.State) × (id : String) × (parsed ≡ some store)
        × (sanitize.post store client ≡ ok (result, id))
        × (sanitize.delete s entity client ≡ ok filtered)
        × (status ≡ 204)
        × ((q : Quad) → Q.has t q ≡ ((Q.has s q && Q.has filtered q) || Q.has result q))
  unfolding replace_entity
  has-replace_entity none entity client s t status h = absurd (ground (arith, h))
  has-replace_entity (some store) entity client s t status h =
      let ((result, id), s1, posted, rest) =
        >>=-eq-ok (lift (sanitize.post store client)) _ s t status h in
      let (deleted, u, removed, last) =
        >>=-eq-ok (delete_entity Q sanitize entity client) _ s1 t status rest in
      let here : s ≡ s1 = ap (λ p. p.1) posted in
      let removed_here : delete_entity Q sanitize entity client s ≡ (ok deleted, u) =
        rw here removed in
      let after : Q.add_quads u (quads Q result) ≡ t = ap (λ p. p.1) last in
      let (filtered, dropped, kept) = has-delete_entity entity client s u deleted removed_here in
      (
        store,
        result,
        filtered,
        id,
        refl,
        ap (λ p. p.0) posted,
        dropped,
        ground (arith, last),
        λ q. rw (← after) (
            ground
              (arith, Q.has-add_quads u (quads Q result) q, contains-quads Q result q, kept q)),
      )

  -- An entity that was replaced is answered by 204: the sanitizer for posts accepted what was sent, and
  -- the store has it besides what the sanitizer for deletions keeps.
  pub has-put_entity :
      (parsed : Option Q.State) (entity client : String) (s t : Q.State) (status : ℕ)
      → put_entity Q sanitize parsed entity client s ≡ (ok status, t)
      → (store result filtered : Q.State) × (id : String) × (parsed ≡ some store)
        × (sanitize.post store client ≡ ok (result, id))
        × (sanitize.delete s entity client ≡ ok filtered)
        × (status ≡ 204)
        × ((q : Quad) → Q.has t q ≡ ((Q.has s q && Q.has filtered q) || Q.has result q))
  unfolding put_entity get_entity
  has-put_entity parsed entity client s t status h =
      let (shown, s1, found, rest) =
        >>=-eq-ok (get_entity Q sanitize entity client) _ s t status h in
      let (fine, same) = get_entity_ok entity client s s1 shown found in
      let replaced : replace_entity Q sanitize parsed entity client s ≡ (ok status, t) =
        ground (arith, rest, fine, same) in
      has-replace_entity parsed entity client s t status replaced
