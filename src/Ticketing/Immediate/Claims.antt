-- ===== src/Ticketing/Immediate/Claims.antt =====
-- What `validateClaims` leaves in the ticket.
use user_managed_access.Prelude.{
  String, List, [], ◌∷◌, ◌++◌, ◌≡◌, refl, sym, if◌then◌else◌, get, put, get-put, keys, contains,
  contains-keys, HasDistinctKeys, Distinct, arith, eq_iff, append_assoc, append-nil, Option-cases,
  inl, inr, ◌==◌,
}
use user_managed_access.Http.{ok}
use user_managed_access.Views.{Ticket, ClaimSet, Claim, claims_of}
use user_managed_access.Ticketing.Immediate.{push_key, push_claims, validate_claims}

claims_of-put :
    (d : ClaimSet) (k j : String) (values : List Claim)
    → claims_of (put d k values) j ≡ (if k == j then values else claims_of d j)
claims_of-put d k j values = ground (arith, get-put d k j values)

abbrev pushed : List String → ClaimSet → String → List Claim
pushed ks claims j = if contains ks j then claims_of claims j else []

claims_of-push_key :
    (k : String) (claims provided : ClaimSet) (j : String)
    → claims_of (push_key k claims provided) j
      ≡ claims_of provided j ++ (if k == j then claims_of claims j else [])
unfolding push_key
claims_of-push_key k claims provided j = elim (Option-cases (get claims k)) [
  | inl e ↦ rw (e, push_key) (ground (arith, eq_iff k j, append-nil (claims_of provided j), e))
  | inr (values, e) ↦
      rw (e, push_key)
        (ground (
          arith,
          eq_iff k j,
          append-nil (claims_of provided j),
          claims_of-put provided k j (claims_of provided k ++ values),
          e,
        ))
]

claims_of-push_claims :
    (ks : List String) (claims provided : ClaimSet) (j : String)
    → Distinct ks
    → claims_of (push_claims ks claims provided) j ≡ claims_of provided j ++ pushed ks claims j
unfolding push_claims
claims_of-push_claims [] claims provided j h = sym (append-nil (claims_of provided j))
claims_of-push_claims (k ∷ ks) claims provided j (fresh, h) =
    rw
      (
        claims_of-push_claims ks claims (push_key k claims provided) j h,
        claims_of-push_key k claims provided j,
        append_assoc,
      )
      (ground (arith, eq_iff k j, append-nil (claims_of claims j)))

Distinct-keys : (claims : ClaimSet) → HasDistinctKeys claims → Distinct (keys claims)
Distinct-keys [] h = tt
Distinct-keys ((k, v) ∷ d) (fresh, h) = (fresh, Distinct-keys d h)

pushed-keys : (claims : ClaimSet) (j : String) → pushed (keys claims) claims j ≡ claims_of claims j
pushed-keys claims j = ground (arith, contains-keys claims j)

-- Validating claims always gives a ticket: under every key the new claims stand behind those that
-- were provided before, and the requested permissions and derived identifiers are as they were.
pub validate_claims_lem :
    (ticket : Ticket) (claims : ClaimSet)
    → HasDistinctKeys claims
    → (t : Ticket) × (validate_claims ticket claims ≡ ok t)
      × ((key : String)
          → claims_of t.provided key ≡ claims_of ticket.provided key ++ claims_of claims key)
      × (t.permissions ≡ ticket.permissions)
      × (t.derived_ids ≡ ticket.derived_ids)
unfolding validate_claims
validate_claims_lem ticket claims h = (
  record ticket { provided = push_claims (keys claims) claims ticket.provided },
  refl,
  λ key. rw (
    claims_of-push_claims (keys claims) claims ticket.provided key (Distinct-keys claims h),
    pushed-keys claims key,
  ),
  refl,
  refl,
)
