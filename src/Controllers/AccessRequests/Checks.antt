-- ===== src/Controllers/AccessRequests/Checks.antt =====
-- What a patch of an access request has checked before it writes.
use user_managed_access.Prelude.{
  String, some, List, [], ◌∷◌, true, false, ◌||◌, ◌==◌, ◌≡◌, ◌⊎◌, inl, inr, ap, ◌∙◌, head?,
  is_empty, arith, Bool-cases, Option-cases, eq_iff,
}
use user_managed_access.Http.{ok, >>=-eq-ok}
use user_managed_access.Rdf.{Term, named, QuadStore}
use user_managed_access.Rdf.Lists.{term_eq_iff}
use user_managed_access.Rdf.Vocabulary.Sotw
use user_managed_access.Storage.{KeyValueStorage}
use user_managed_access.Controllers.AccessRequests.{
  Pending, owns, objects_of, check_status, check_parties, check_pending, check_patch,
  resolve_request, patch_request,
}

check_status_ok : (ts : List Term) → check_status ts ≡ ok tt → ts ≡ Sotw.requested ∷ []
unfolding check_status
check_status_ok [] h = cc
check_status_ok (t ∷ []) h = ground (arith, h, term_eq_iff t Sotw.requested)
check_status_ok (t ∷ u ∷ ts) h = cc

check_parties_ok :
    (actions ts : List Term) (party : Term)
    → check_parties actions ts ≡ ok party
    → (ts ≡ party ∷ []) × (is_empty actions ≡ false)
unfolding check_parties
check_parties_ok actions [] party h = cc
check_parties_ok actions (t ∷ []) party h = (ground (arith, h), ground (arith, h))
check_parties_ok actions (t ∷ u ∷ ts) party h = cc

module _ (Q : QuadStore) (O : KeyValueStorage (List String)) where
  -- What the code has checked of a request before it writes: it is pending, its status is just
  -- `requested`, it has one party and some actions, and its first target is the client's.
  pub record IsPending (ownership : O.State) (s : Q.State) (node : Term) (client : String)
      (p : Pending) : Type 0 where
    pub targeted : head? (objects_of Q O s node Sotw.requested_target) ≡ some p.target
    pub owned : owns Q O ownership client p.target ≡ true
    pub status : objects_of Q O s node Sotw.request_status ≡ Sotw.requested ∷ []
    pub parties : objects_of Q O s node Sotw.requesting_party ≡ p.party ∷ []
    pub acting : is_empty p.actions ≡ false
    pub actions : p.actions ≡ objects_of Q O s node Sotw.requested_action

  check_pending_ok :
      (ownership : O.State) (s : Q.State) (node target : Term) (client : String) (p : Pending)
      → head? (objects_of Q O s node Sotw.requested_target) ≡ some target
      → owns Q O ownership client target ≡ true
      → check_pending Q O s node target ≡ ok p
      → IsPending ownership s node client p
  unfolding check_pending
  check_pending_ok ownership s node target client p first mine h =
      let (u, checked, rest) =
        >>=-eq-ok (check_status (objects_of Q O s node Sotw.request_status)) _ h in
      let (party, found, last) =
        >>=-eq-ok
          (check_parties (objects_of Q O s node Sotw.requested_action)
            (objects_of Q O s node Sotw.requesting_party))
          _ rest in
      let (single, acting) =
        check_parties_ok (objects_of Q O s node Sotw.requested_action)
          (objects_of Q O s node Sotw.requesting_party) party found in
      let to : target ≡ p.target = ground (arith, last) in
      record {
        targeted = first ∙ ap (λ t. some t) to;
        owned = rw (← to) mine;
        status = check_status_ok (objects_of Q O s node Sotw.request_status) checked;
        parties = single ∙ ap (λ t. t ∷ []) (ground (arith, last));
        acting = ground (arith, last, acting);
        actions = ground (arith, last);
      }

  -- A status is one of the two that the code takes.
  abbrev pub IsResolution : String → Type 0
  IsResolution information = (information ≡ "accepted") ⊎ (information ≡ "denied")

  check_patch_ok :
      (ownership : O.State) (s : Q.State) (node : Term) (client information : String) (p : Pending)
      → check_patch Q O ownership s node client information ≡ ok p
      → IsResolution information × IsPending ownership s node client p
  unfolding check_patch
  check_patch_ok ownership s node client information p h =
      elim (Option-cases (head? (objects_of Q O s node Sotw.requested_target))) [
        | inl missing ↦ absurd (ground (arith, h, missing))
        | inr (target, first) ↦
            elim (Bool-cases ((information == "accepted") || (information == "denied"))) [
              | inr other ↦ absurd (ground (arith, h, first, other))
              | inl valid ↦ elim (Bool-cases (owns Q O ownership client target)) [
                | inr theirs ↦ absurd (ground (arith, h, first, valid, theirs))
                | inl mine ↦ (
                  ground (arith, valid, eq_iff information "accepted", eq_iff information "denied"),
                  check_pending_ok ownership s node target client p first mine
                      (ground (arith, h, first, valid, mine)),
                )
              ]
            ]
      ]

  -- A patch that succeeds was sent by an owner of the target, with a status to resolve by, for a request
  -- that was pending; it leaves the store that the code writes.
  pub patch_request_ok :
      (uuid request client information : String) (ownership : O.State) (s t : Q.State)
      → patch_request Q O uuid ownership s request client information ≡ ok t
      → (p : Pending) × IsResolution information
        × IsPending ownership s (named request) client p
        × (t
            ≡ resolve_request Q O uuid s
                (named request)
                client
                information
                p.target
                p.party
                p.actions)
  unfolding patch_request
  patch_request_ok uuid request client information ownership s t h =
      let (p, checked, last) =
        >>=-eq-ok (check_patch Q O ownership s (named request) client information) _ h in
      let (valid, pending) =
        check_patch_ok ownership s (named request) client information p checked in
      (p, valid, pending, ground (arith, last))
