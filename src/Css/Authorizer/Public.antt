-- ===== src/Css/Authorizer/Public.antt =====
-- When the authorizer lets a request through.
use user_managed_access.Prelude.{
  [], ◌∷◌, subst, Option-cases, All, String, Option, none, some, List, map, true, ◌≡◌, ◌⊎◌, inl,
  inr, refl, sym, ap, ◌∙◌, nat_beq, arith, Bool-cases, truthy,
}
use user_managed_access.Http.{Outcome, ok, fail, HttpError}
use user_managed_access.Http.Exec.{lift, >>=-eq-ok}
use user_managed_access.Css.Scopes.{Permissions}
use user_managed_access.Css.Client.{Reply}
use user_managed_access.Css.Owners.{Accounts, find_common_owner, required_settings}
use user_managed_access.Css.Owners.Common.{Owns, find_common_owner-Owns}
use user_managed_access.Css.Authorizer.{
  await_id, ensure_registered, known_id, scopes_of, AccessMap, Requested, Resources, read_ticket,
  request_body, ticket_endpoint, fetch_ticket, request_ticket, allowed, asks_ticket, decide_ticket,
  to_header, authorize,
}

read_ticket-none : (reply : Reply) → read_ticket reply ≡ ok none → reply.status ≡ 200
unfolding read_ticket
read_ticket-none reply h = elim (Bool-cases (nat_beq reply.status 200)) [
  | inl public ↦ ground (arith, public)
  | inr private ↦ absurd (ground (arith, h, private))
]

read_ticket-truthy :
    (reply : Reply) (ticket : String)
    → read_ticket reply ≡ ok (some ticket)
    → truthy (some ticket) ≡ true
unfolding read_ticket
read_ticket-truthy reply ticket h = ground (arith, h)

module _ {W : Type 0} (client : Resources W) (P : Permissions) where
  -- The permissions of a request for a ticket: for each target the identifier under which it is
  -- registered, and the scopes of its modes.
  abbrev pub AreRequested : AccessMap → List Requested → Type 0
  AreRequested [] body = body ≡ []
  AreRequested ((path, modes) ∷ rest) body =
      (id : String) × (scopes : List (Option String)) × (others : List Requested) × (v : W) × (body
        ≡ record { resource_id = id; resource_scopes = scopes } ∷ others)
      × (client.uma_id v path ≡ some id)
      × (truthy (some id) ≡ true)
      × (scopes_of P modes ≡ ok scopes)
      × AreRequested rest others

  known_id-ok :
      (path id : String) (w w' : W)
      → known_id client P path w ≡ (ok id, w')
      → (client.uma_id w path ≡ some id) × (truthy (some id) ≡ true)
  unfolding known_id
  known_id-ok path id w w' h = elim (Option-cases (client.uma_id w path)) [
    | inl missing ↦ absurd (ground (arith, h, missing))
    | inr (known, found) ↦ elim (Bool-cases (truthy (some known))) [
      | inr empty ↦ absurd (ground (arith, h, found, empty))
      | inl full ↦
          let same : known ≡ id = ground (arith, h, found, full) in
          (rw (← same) found, rw (← same) full)
    ]
  ]

  request_body-AreRequested :
      (issuer credentials : String) (modes : AccessMap) (w w' : W) (body : List Requested)
      → request_body client P issuer credentials modes w ≡ (ok body, w')
      → AreRequested modes body
  unfolding request_body
  request_body-AreRequested issuer credentials [] w w' body h = ground (arith, h)
  request_body-AreRequested issuer credentials ((path, modes) ∷ rest) w w' body h =
      let (u1, w1, awaited, h1) = >>=-eq-ok (await_id client P path) _ w w' body h in
      let (u2, w2, ensured, h2) =
        >>=-eq-ok (ensure_registered client P path issuer credentials) _ w1 w' body h1 in
      let (id, w3, known, h3) = >>=-eq-ok (known_id client P path) _ w2 w' body h2 in
      let (scopes, w4, mapped, h4) = >>=-eq-ok (lift (scopes_of P modes)) _ w3 w' body h3 in
      let (others, w5, later, h5) =
        >>=-eq-ok (request_body client P issuer credentials rest) _ w4 w' body h4 in
      let (registered, full) = known_id-ok path id w2 w3 known in
      (
        id,
        scopes,
        others,
        w2,
        ground (arith, h5),
        registered,
        full,
        ap (λ p. p.0) mapped,
        request_body-AreRequested issuer credentials rest w4 w5 others later,
      )

  ticket_endpoint-ok :
      (issuer endpoint : String) (w v : W)
      → ticket_endpoint client P issuer w ≡ (ok endpoint, v)
      → client.permission_endpoint issuer w ≡ (ok endpoint, v)
  unfolding ticket_endpoint
  ticket_endpoint-ok issuer endpoint w v h =
      go (client.permission_endpoint issuer w).0 (client.permission_endpoint issuer w).1 refl
    where
      go :
          (r : Outcome String) (u : W)
          → client.permission_endpoint issuer w ≡ (r, u)
          → client.permission_endpoint issuer w ≡ (ok endpoint, v)
      go (ok found) u e = ground (arith, h, e)
      go (fail error) u e = absurd (ground (arith, h, e))

  -- From a state on, the endpoint for tickets in the configuration of the issuer was asked for a ticket
  -- for the modes of all targets, with the token for the protection API that the issuer gives for the
  -- credentials, and answered that access is public.
  abbrev pub IsPublic : String → String → AccessMap → W → Type 0
  IsPublic issuer credentials modes w =
      (endpoint pat : String) × (body : List Requested) × (v v' v'' : W)
      × (client.permission_endpoint issuer w ≡ (ok endpoint, v))
      × (request_body client P issuer credentials modes v ≡ (ok body, v'))
      × AreRequested modes body
      × (client.get_pat issuer credentials v' ≡ (ok pat, v''))
      × ((client.post endpoint pat body).status ≡ 200)

  fetch_ticket-none :
      (issuer credentials : String) (modes : AccessMap) (w w' : W)
      → fetch_ticket client P modes issuer credentials w ≡ (ok none, w')
      → IsPublic issuer credentials modes w
  unfolding fetch_ticket
  fetch_ticket-none issuer credentials modes w w' h =
      let (endpoint, w1, configured, rest) =
        >>=-eq-ok (ticket_endpoint client P issuer) _ w w' none h in
      let (body, w2, built, more) =
        >>=-eq-ok (request_body client P issuer credentials modes) _ w1 w' none rest in
      let (pat, w3, authenticated, last) =
        >>=-eq-ok (client.get_pat issuer credentials) _ w2 w' none more in
      (
        endpoint,
        pat,
        body,
        w1,
        w2,
        w3,
        ticket_endpoint-ok issuer endpoint w w1 configured,
        built,
        request_body-AreRequested issuer credentials modes w1 w2 body built,
        authenticated,
        read_ticket-none (client.post endpoint pat body) (ap (λ p. p.0) last),
      )

  -- The settings of the owner of all targets.
  abbrev pub AreSettings : Accounts → AccessMap → String → String → Type 0
  AreSettings accounts modes issuer credentials =
      (owner : String) × (find_common_owner accounts (map (λ e. e.0) modes) ≡ ok owner)
      × All (Owns accounts owner) (map (λ e. e.0) modes)
      × (required_settings accounts owner ≡ ok (issuer, credentials))

  fetch_ticket-truthy :
      (issuer credentials ticket : String) (modes : AccessMap) (w w' : W)
      → fetch_ticket client P modes issuer credentials w ≡ (ok (some ticket), w')
      → truthy (some ticket) ≡ true
  unfolding fetch_ticket
  fetch_ticket-truthy issuer credentials ticket modes w w' h =
      let (endpoint, w1, configured, rest) =
        >>=-eq-ok (ticket_endpoint client P issuer) _ w w' (some ticket) h in
      let (body, w2, built, more) =
        >>=-eq-ok (request_body client P issuer credentials modes) _ w1 w' (some ticket) rest in
      let (pat, w3, authenticated, last) =
        >>=-eq-ok (client.get_pat issuer credentials) _ w2 w' (some ticket) more in
      read_ticket-truthy (client.post endpoint pat body) ticket (ap (λ p. p.0) last)

  request_ticket-none :
      (accounts : Accounts) (modes : AccessMap) (w w' : W)
      → request_ticket client P accounts modes w ≡ (ok none, w')
      → (issuer credentials : String) × AreSettings accounts modes issuer credentials
        × IsPublic issuer credentials modes w
  unfolding request_ticket to_header
  request_ticket-none accounts modes w w' h =
      let (owner, w1, common, rest) =
        >>=-eq-ok (lift (find_common_owner accounts (map (λ e. e.0) modes))) _ w w' none h in
      let ((issuer, credentials), w2, chosen, last) =
        >>=-eq-ok (lift (required_settings accounts owner)) _ w1 w' none rest in
      (
        issuer,
        credentials,
        (
          owner,
          ap (λ p. p.0) common,
          find_common_owner-Owns accounts (map (λ e. e.0) modes) owner (ap (λ p. p.0) common),
          ap (λ p. p.0) chosen,
        ),
        subst (IsPublic issuer credentials modes)
            (sym (ap (λ p. p.1) common ∙ ap (λ p. p.1) chosen))
            (public issuer credentials w2 (fetch_ticket client P modes issuer credentials w2).0 refl
              (ap (λ p. p.0) last)),
      )
    where
      public :
          (issuer credentials : String) (v : W) (r : Outcome (Option String))
          → (fetch_ticket client P modes issuer credentials v).0 ≡ r
          → to_header issuer (fetch_ticket client P modes issuer credentials v).0 ≡ ok none
          → IsPublic issuer credentials modes v
      public issuer credentials v (fail e) found k =
          absurd (ground (arith, k, ap (to_header issuer) found))
      public issuer credentials v (ok none) found k =
          fetch_ticket-none issuer credentials modes v
            (fetch_ticket client P modes issuer credentials v).1
            (λ i. (found i, (fetch_ticket client P modes issuer credentials v).1))
      public issuer credentials v (ok (some ticket)) found k =
          let full =
            fetch_ticket-truthy issuer credentials ticket modes v
              (fetch_ticket client P modes issuer credentials v).1
              (λ i. (found i, (fetch_ticket client P modes issuer credentials v).1)) in
          absurd (ground (arith, k, ap (to_header issuer) found, full))

  -- A request is let through only where the other authorizer accepts it, or where that one refuses it
  -- for want of rights, and access is public: the endpoint for tickets in the configuration of the
  -- authorization server that an owner of all targets has chosen answered with status 200 to a request
  -- for the registered identifiers of all targets and the scopes of their modes, sent with a token that
  -- this server gave for the credentials of that owner.
  pub authorize_allowed :
      (accounts : Accounts) (answer : Outcome (Unit {0})) (modes : AccessMap) (w w' : W)
      → authorize client P accounts answer modes w ≡ (allowed, w')
      → (answer ≡ ok tt)
        ⊎ ((error : HttpError) × (answer ≡ fail error)
            × (asks_ticket error ≡ true)
            × ((issuer credentials : String) × AreSettings accounts modes issuer credentials
                × IsPublic issuer credentials modes w))
  unfolding authorize decide_ticket
  authorize_allowed accounts (ok u) modes w w' h = inl refl
  authorize_allowed accounts (fail error) modes w w' h = elim (Bool-cases (asks_ticket error)) [
    | inr other ↦ absurd (ground (arith, h, other))
    | inl asked ↦ inr (
      error,
      refl,
      asked,
      decided (request_ticket client P accounts modes w).0 refl (
          let run : authorize client P accounts (fail error) modes w ≡ (
            decide_ticket error (request_ticket client P accounts modes w).0,
            (request_ticket client P accounts modes w).1,
          ) =
            rw (asked, authorize) refl in
          sym (ap (λ p. p.0) run) ∙ ap (λ p. p.0) h),
    )
  ]
    where
      decided :
          (r : Outcome (Option (String × String)))
          → (request_ticket client P accounts modes w).0 ≡ r
          → decide_ticket error (request_ticket client P accounts modes w).0 ≡ allowed
          → (issuer credentials : String) × AreSettings accounts modes issuer credentials
            × IsPublic issuer credentials modes w
      decided (fail e) found k = absurd (ground (arith, k, ap (decide_ticket error) found))
      decided (ok none) found k =
          request_ticket-none accounts modes w (request_ticket client P accounts modes w).1
            (λ i. (found i, (request_ticket client P accounts modes w).1))
      decided (ok (some header)) found k =
          absurd (ground (arith, k, ap (decide_ticket error) found))
