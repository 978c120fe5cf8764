-- ===== src/Lib.antt =====
-- User-Managed Access: the authorization server of packages/uma, what it promises to resource owners
-- and to resource servers, and the resource server's side of it in packages/css.
--
-- A resource server registers resources (Routes/ResourceRegistration.antt, the handler of
-- packages/uma/src/routes/ResourceRegistration.ts) and asks for a ticket when a client comes without
-- a token (Routes/Ticket.antt, routes/Ticket.ts). The client takes the ticket to the token endpoint
-- (Routes/Token.antt, routes/Token.ts and routes/token/RefreshTokenHandler.ts), which calls the
-- negotiator (Dialog/Base.antt, dialog/BaseNegotiator.ts). The negotiator has the claims verified,
-- lets a ticketing strategy (Ticketing/Strategy.antt and Ticketing/Immediate.antt,
-- ticketing/strategy/TicketingStrategy.ts and ImmediateAuthorizerStrategy.ts) resolve the ticket with an
-- authorizer (Policies, policies/authorizers), and then mints an access token and a refresh token
-- (Tokens.antt, tokens/OpaqueTokenFactory.ts, tokens/StoredRefreshTokenIssuer.ts and
-- credentials/verify/RefreshTokenVerifier.ts). The resource server introspects the token
-- (Routes/Introspection.antt, routes/Introspection.ts). It calls these endpoints with a token of its
-- own, which Routes/UmaProtection.antt hands out (routes/token/UmaProtection.ts). The paths in
-- parentheses are below packages/uma/src.
--
-- An access request is created by who wants access, and accepted or denied by the owner of its resource;
-- an accepted one becomes a policy, which the authorizers read (Controllers/Base.antt and
-- Controllers/AccessRequests.antt, controller/BaseController.ts and AccessRequestController.ts;
-- Routes/Entities.antt, routes/BaseHandler.ts). Routes/Collections.antt is the endpoint for collections of
-- assets and of parties (routes/Collection.ts), Routes/ClientRegistration.antt the one where a user
-- registers clients (routes/ClientRegistration.ts).
--
-- On the other side, the Community Solid Server protects its resources with packages/css/src.
-- Css/Authorizer.antt decides on a request and asks for a ticket (authorization/UmaAuthorizer.ts,
-- `fetchTicket` of uma/UmaClient.ts), for the owner that Css/Owners.antt finds (util/OwnerUtil.ts,
-- uma/ResourceRegistrar.ts). Css/Extractor.antt and Css/Client.antt verify the token of a
-- request (authentication/UmaTokenExtractor.ts, uma/UmaClient.ts),
-- Css/Reader.antt and Css/Scopes.antt turn it into modes of access
-- (authorization/UmaPermissionReader.ts, uma/ScopeUtil.ts). Css/Parents.antt finds the container on which
-- the right to create a resource is needed (authorization/ParentCreateExtractor.ts). Css/Pats.antt is how calls that run at the
-- same time share the token for the protection API (`getPat` of uma/UmaClient.ts): a step relation,
-- where a step is the run of one call up to its next `await`.
--
-- Views.antt: the data of requests, tickets and tokens (views, credentials, ticketing/Ticket.ts).
-- Http.antt and Http/Exec.antt: errors as values. A method that may throw returns an `Outcome`; one
-- that also writes to stores is an `Exec`, from a state to an outcome and the state that is left,
-- also where it throws. A method's name is that of the source in the spelling of this library:
--   `negotiate`, `get_ticket`, `resolve_ticket`, `handle_post`.
-- Storage.antt: the key/value storage of the Community Solid Server, which is not in this repository:
-- an interface with the laws of reading after writing and deleting. Storage/Memory.antt fills it.
-- Storage/Expiring.antt is that server's storage of entries that expire, in the same way.
-- Storage/Indexed.antt is the interface of that server's indexed storage, and Storage/Rows.antt fills it.
-- Rdf.antt: the triple store of the n3 package, an interface with the laws of adding, removing and
-- matching. Rdf/Lists.antt fills it. Rdf/Vocabulary has the terms of ucp/util/Vocabularies.ts, and
-- those that the code takes from the odrl-evaluator package.
-- Policies: the authorizers. Static.antt (AllAuthorizer.ts, NoneAuthorizer.ts, WebIdAuthorizer.ts),
-- Namespaced.antt (NamespacedAuthorizer.ts), SimpleOdrl.antt with SimpleOdrl/Constraints.antt and
-- SimpleOdrl/Rules.antt (SimpleOdrlAuthorizer.ts).
-- Credentials.antt: the verifiers TypedVerifier.ts, IriVerifier.ts, KeyValueVerifier.ts and
-- JwtVerifier.ts of credentials/verify.
-- Routes/ResourceRegistration.antt, its Collections.antt for the triples of asset collections and its
-- Steps.antt for the transitions that a request can make.
-- The other modules below a component have its theorems; Tests.antt has runs on concrete data.
--
-- Parameters stand for what the code calls and does not define: the storages, the triple store, the
-- JSON path query, the SPARQL engine, the parsing of URLs and dates, and the answer of the request
-- validator. New
-- identifiers, new blank nodes and the time are arguments of the operation that draws them. One
-- request is one step, but for `getPat`, whose calls are interleaved at their `await` points.
-- Every loop of the source goes over a list and is structural recursion, but for the search for a parent
-- in Css/Parents.antt: it runs on fuel, one more than the number of containers above. Times
-- are natural numbers of milliseconds.
--
-- Not modelled: reading and writing of HTTP messages and their signatures, access tokens that are JWTs
-- (what is said of introspection is for opaque tokens), the OpenID Connect,
-- verifiable credential and unsecured verifiers, the contract and aggregation variants of the
-- negotiation, the endpoint for policies, the registration of
-- resources by the client in packages/css (the request for a ticket takes it as an argument), and the
-- seeding and the web forms there. The token endpoint takes the UMA protection handler as an argument.
pub mod Prelude
pub mod Http
pub mod Views
pub mod Storage
pub mod Policies
pub mod Rdf
pub mod Ticketing
pub mod Dialog
pub mod Tokens
pub mod Credentials
pub mod Routes
pub mod Controllers
pub mod Css
pub mod Tests
