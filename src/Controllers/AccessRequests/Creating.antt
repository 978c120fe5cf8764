-- ===== src/Controllers/AccessRequests/Creating.antt =====
-- A request that was just added can be resolved by the owner of its resource.
use user_managed_access.Prelude.{String, List, [], ◌∷◌, map, false, ◌≡◌}
use user_managed_access.Rdf.{Term, named, term_eq, Quad, quad, QuadStore}
use user_managed_access.Rdf.Vocabulary.Odrl
use user_managed_access.Rdf.Vocabulary.RdfType
use user_managed_access.Rdf.Vocabulary.Sotw
use user_managed_access.Controllers.AccessRequests.{
  AccessRequest, Texts, entity_node, request_quads,
}

-- The triples of constraints are not about the target, the party, the status or the actions.
abbrev IsAside : Term → Type 0
IsAside p =
    (term_eq Odrl.constraint p ≡ false)
    × (term_eq RdfType.type p ≡ false)
    × (term_eq Odrl.left_operand p ≡ false)
    × (term_eq Odrl.operator p ≡ false)
    × (term_eq Odrl.right_operand p ≡ false)

module _ (texts : Texts) (uuid client : String) (request : AccessRequest) where
  abbrev head_quads : List Quad
  head_quads =
      let subject = entity_node uuid in
      quad subject RdfType.type Sotw.evaluation_request
      ∷ (quad subject Sotw.requested_target (named request.resource_id)
          ∷ (quad subject Sotw.requesting_party (named client)
              ∷ (quad subject Sotw.request_status Sotw.requested ∷ [])))

  abbrev scope_quads : List Quad
  scope_quads =
      map (λ scope. quad (entity_node uuid) Sotw.requested_action (named scope))
        request.resource_scopes

module _ (Q : QuadStore) where
  -- What a store has of a new request.
  module _ (texts : Texts) (uuid client : String) (request : AccessRequest) (s : Q.State)
      (fresh : (p o : Term) → Q.has s (quad (entity_node uuid) p o) ≡ false) where
    abbrev added : Q.State
    added = Q.add_quads s (request_quads texts uuid client request)
