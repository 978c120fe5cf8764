-- ===== src/Controllers/AccessRequests/Visibility.antt =====
-- Which requests a client sees, and the life of a new request.
use user_managed_access.Prelude.{
  all, ◌++◌, String, List, [], ◌∷◌, map, Bool, true, false, ◌==◌, ◌≡◌, ◌⊎◌, inl, inr, refl, sym, ap,
  ◌∙◌, any, any-append, contains, flat_map, is_empty, arith, eq_iff, or_else, Bool-cases,
  if◌then◌else◌,
}
use user_managed_access.Http.{ok, fail, forbidden, >>=-eq-ok}
use user_managed_access.Rdf.{
  contains_term, Term, named, value, Quad, quad, quad_eq, contains_quad, QuadStore,
}
use user_managed_access.Rdf.Lists.{contains_quad-flat_map-any, any_term_witness}
use user_managed_access.Rdf.Vocabulary.Sotw
use user_managed_access.Storage.{KeyValueStorage}
use user_managed_access.Controllers.AccessRequests.{
  SparqlEngine, owns, objects_of, quads_of_request, get_requests, owns_target, is_visible,
  get_request,
}

any_named :
    (f : Term → Bool) (resources : List String)
    → any f (map named resources) ≡ true
    → (resource : String) × (contains resources resource ≡ true) × (f (named resource) ≡ true)
any_named f [] h = absurd (cc)
any_named f (r ∷ resources) h = elim (Bool-cases (f (named r))) [
  | inl here ↦ (r, ground (arith, eq_iff r r), here)
  | inr other ↦
      let (resource, there, k) = any_named f resources (ground (arith, h, other)) in
      (resource, ground (arith, there), k)
]

module _ (Q : QuadStore) (O : KeyValueStorage (List String)) where
  -- A request that the client sent, or one for a resource that is the client's.
  abbrev pub IsInvolved : O.State → Q.State → String → Term → Type 0
  IsInvolved ownership s client node =
      (Q.has s (quad node Sotw.requesting_party (named client)) ≡ true)
      ⊎ ((resource : String) × (contains (or_else (O.get ownership client) []) resource ≡ true)
          × (Q.has s (quad node Sotw.requested_target (named resource)) ≡ true))

  query_sound :
      (engine : SparqlEngine Q) (s : Q.State) (predicate : Term) (names : List String)
      (nodes : List Term) (t : Term)
      → all engine.is_iri names ≡ true
      → engine.query s predicate names ≡ ok nodes
      → contains_term nodes t ≡ true
      → any (λ o. Q.has s (quad t predicate o)) (map named names) ≡ true
  query_sound engine s predicate names nodes t iris asked there =
      let (found, answered, law) = engine.contains-query s predicate names iris in
      let same : found ≡ nodes = ground (arith, answered, asked) in
      sym (law t) ∙ ap (λ l. contains_term l t) same ∙ there

  owned_sound :
      (engine : SparqlEngine Q) (s : Q.State) (resources : List String) (nodes : List Term)
      (t : Term)
      → all engine.is_iri resources ≡ true
      → (if is_empty resources then ok [] else engine.query s Sotw.requested_target resources)
        ≡ ok nodes
      → contains_term nodes t ≡ true
      → any (λ o. Q.has s (quad t Sotw.requested_target o)) (map named resources) ≡ true
  owned_sound engine s [] nodes t iris asked there = ground (arith, asked, there)
  owned_sound engine s (r ∷ rest) nodes t iris asked there =
      query_sound engine s Sotw.requested_target (r ∷ rest) nodes t iris asked there

  -- If the client and the resources of the client are named by IRIs, then the quads that the client is
  -- shown belong to requests that the client sent, or that are about a resource of the client. Nothing
  -- is said of other names: they are written into the queries as they are, and may change them.
  pub get_requests-IsInvolved :
      (engine : SparqlEngine Q) (ownership : O.State) (s : Q.State) (client : String)
      (quads : List Quad) (q : Quad)
      → engine.is_iri client ≡ true
      → all engine.is_iri (or_else (O.get ownership client) []) ≡ true
      → get_requests Q O engine ownership s client ≡ ok quads
      → contains_quad quads q ≡ true
      → (node : Term) × IsInvolved ownership s client node
        × (contains_quad (quads_of_request Q O s node) q ≡ true)
  unfolding get_requests
  get_requests-IsInvolved engine ownership s client quads q iri iris h shown =
      let resources = or_else (O.get ownership client) [] in
      let (requested, asked, rest) =
        >>=-eq-ok (engine.query s Sotw.requesting_party (client ∷ [])) _ h in
      let (owned, asked_owned, made) =
        >>=-eq-ok
          (if is_empty resources then ok [] else engine.query s Sotw.requested_target resources) _
          rest in
      let same : flat_map (quads_of_request Q O s) requested
            ++ flat_map (quads_of_request Q O s) owned
          ≡ quads =
        ground (arith, made) in
      let k = ap (λ l. contains_quad l q) same ∙ shown in
      elim (Bool-cases (contains_quad (flat_map (quads_of_request Q O s) requested) q)) [
        | inl mine ↦
            let (node, there, belongs) =
              any_term_witness (λ t. contains_quad (quads_of_request Q O s t) q) requested
                (sym (contains_quad-flat_map-any (quads_of_request Q O s) requested q) ∙ mine) in
            (
              node,
              inl (
                  ground (
                    arith,
                    query_sound engine s Sotw.requesting_party (client ∷ []) requested node
                        (ground (arith, iri)) asked there,
                  )),
              belongs,
            )
        | inr other ↦
            let (node, there, belongs) =
              any_term_witness (λ t. contains_quad (quads_of_request Q O s t) q) owned
                (ground (
                  arith,
                  k,
                  other,
                  any-append (λ r. quad_eq r q) (flat_map (quads_of_request Q O s) requested)
                      (flat_map (quads_of_request Q O s) owned),
                  contains_quad-flat_map-any (quads_of_request Q O s) owned q,
                )) in
            (
              node,
              inr (
                  any_named (λ o. Q.has s (quad node Sotw.requested_target o)) resources
                    (owned_sound engine s resources owned node iris asked_owned there)),
              belongs,
            )
      ]

  owns_target_ok :
      (ownership : O.State) (client : String) (targets : List Term)
      → owns_target Q O ownership client targets ≡ ok true
      → (target : Term) × (targets ≡ target ∷ []) × (owns Q O ownership client target ≡ true)
  unfolding owns_target
  owns_target_ok ownership client [] h = absurd (cc)
  owns_target_ok ownership client (t ∷ []) h = (t, refl, ground (arith, h))
  owns_target_ok ownership client (t ∷ u ∷ ts) h = absurd (cc)

  -- A request that is shown by its identifier has a requester. The client is one of them, or owns the
  -- one resource that the request is about.
  pub get_request-IsInvolved :
      (ownership : O.State) (s : Q.State) (request client : String) (found : List Quad)
      → get_request Q O ownership s request client ≡ ok found
      → (found ≡ quads_of_request Q O s (named request))
        × (is_empty (objects_of Q O s (named request) Sotw.requesting_party) ≡ false)
        × ((any
                (λ requester. value requester == client)
                (objects_of Q O s (named request) Sotw.requesting_party)
              ≡ true)
            ⊎ ((target : Term) × (objects_of Q O s (named request) Sotw.requested_target
                  ≡ target ∷ [])
                × (owns Q O ownership client target ≡ true)))
  unfolding get_request is_visible
  get_request-IsInvolved ownership s request client found h =
      let node = named request in
      let requesters = objects_of Q O s node Sotw.requesting_party in
      let targets = objects_of Q O s node Sotw.requested_target in
      elim (Bool-cases (is_empty requesters)) [
        | inl missing ↦ absurd (ground (arith, h, missing))
        | inr there ↦ elim (Bool-cases (any (λ requester. value requester == client) requesters)) [
          | inl mine ↦ (ground (arith, h, there, mine), there, inl mine)
          | inr theirs ↦
              let (visible, seen, rest) =
                >>=-eq-ok (owns_target Q O ownership client targets)
                  (λ visible. if visible then ok (quads_of_request Q O s node) else fail forbidden)
                  {y = found} (ground (arith, h, there, theirs)) in
              elim (Bool-cases visible) [
                | inr hidden ↦ absurd (ground (arith, rest, hidden))
                | inl shown ↦ (
                  ground (arith, rest, shown),
                  there,
                  inr (owns_target_ok ownership client targets (seen ∙ ap ok shown)),
                )
              ]
        ]
      ]
