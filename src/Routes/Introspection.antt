-- ===== src/Routes/Introspection.antt =====
-- packages/uma/src/routes/Introspection.ts: what a token stands for. The validator's answer is an
-- argument. The body is `none` where the request has none, and has the form's field `token`, if there.
pub mod Negotiated
use user_managed_access.Prelude.{
  String, Option, none, some, Bool, true, if◌then◌else◌, truthy, or_else,
}
use user_managed_access.Http.{Outcome, ok, fail, bad_request}
use user_managed_access.Http.Exec.{Exec, ◌>>=◌, ◌>>◌, lift}
use user_managed_access.Views.{AccessToken}
use user_managed_access.Dialog.{TokenFactory}

pub record IntrospectionResponse : Type 0 where
  pub active : Bool
  pub token : AccessToken

-- The `try` block: every error in it is answered by the same one.
unfoldable pub describe : {W : Type 0} → TokenFactory W → String → Exec W IntrospectionResponse
describe factory token w =
    let (r, w') = factory.deserialize token w in
    elim r [
      | ok unsigned ↦ (ok (record { active = true; token = unsigned }), w')
      | fail e ↦ (fail bad_request, w')
    ]

unfoldable pub introspect :
    {W : Type 0}
    → TokenFactory W
    → Outcome (Unit {0})
    → Option (Option String)
    → Exec W IntrospectionResponse
unfolding describe
introspect factory validated body = lift validated >> λ w. elim body [
  | none ↦ (fail bad_request, w)
  | some token ↦
      if truthy token then describe factory (or_else token "") w else (fail bad_request, w)
]
