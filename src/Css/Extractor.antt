-- ===== src/Css/Extractor.antt =====
-- packages/css/src/authentication/UmaTokenExtractor.ts: the credentials of a request. What the header
-- has after its scheme is an argument, and so is what the target extractor makes of the request. The
-- introspections of a token at several issuers run one after the other.
pub mod Issued
use user_managed_access.Prelude.{
  String, Option, none, some, List, [], ◌∷◌, Bool, true, false, if◌then◌else◌, truthy, or_else,
  Dict, ℕ,
}
use user_managed_access.Http.{Outcome, ok, fail, bad_request, ◌>>=◌}
use user_managed_access.Http.Exec.{Exec, continue}
use user_managed_access.Css.Client.{
  Reply, Cached, Payload, Jose, verify_jwt_token, verify_opaque_token,
}
use user_managed_access.Css.Owners.{Accounts, find_owners, find_uma_settings}

-- The issuers that the owners have chosen, without those that are `undefined`.
unfoldable pub issuers_of : Accounts → List String → Outcome (List String)
issuers_of accounts [] = ok []
issuers_of accounts (owner ∷ rest) = elim (find_uma_settings accounts owner) [
  | fail e ↦ fail e
  | ok settings ↦ elim (issuers_of accounts rest) [
    | fail e ↦ fail e
    | ok more ↦ ok (elim settings.issuer [ none ↦ more | some issuer ↦ issuer ∷ more ])
  ]
]

unfoldable pub valid_issuers : Accounts → Outcome String → Outcome (List String)
unfolding issuers_of
valid_issuers accounts target = target >>= find_owners accounts >>= issuers_of accounts

module _ (jose : Jose) (fetch : String → Reply) (post : String → String → Reply) (now : ℕ) where
  -- All issuers are asked, and the first one that knows the token counts.
  unfoldable pub introspect_all : String → List String → Exec (Dict Cached) Payload
  introspect_all token [] s = (fail bad_request, s)
  introspect_all token (issuer ∷ rest) s =
      let (first, t) = verify_opaque_token jose fetch post now token issuer s in
      let (later, u) = introspect_all token rest t in
      (elim first [ ok payload ↦ ok payload | fail e ↦ later ], u)

  unfoldable pub verify_token : Bool → String → List String → Exec (Dict Cached) Payload
  unfolding introspect_all
  verify_token introspect token issuers =
      if introspect
      then introspect_all token issuers
      else verify_jwt_token jose fetch now token issuers

  -- `handle`: every error becomes the same one.
  unfoldable pub extract :
      Accounts → Bool → Option String → Outcome String → Exec (Dict Cached) Payload
  unfolding valid_issuers verify_token
  extract accounts introspect token target s =
      if truthy token
      then elim (valid_issuers accounts target) [
        | fail e ↦ (fail bad_request, s)
        | ok issuers ↦
            let (r, t) = verify_token introspect (or_else token "") issuers s in
            (elim r [ ok payload ↦ ok payload | fail e ↦ fail bad_request ], t)
      ]
      else (fail bad_request, s)
