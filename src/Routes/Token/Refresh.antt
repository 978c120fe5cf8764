-- ===== src/Routes/Token/Refresh.antt =====
-- The rotation of refresh tokens.
use user_managed_access.Prelude.{
  String, none, some, false, ◌≡◌, sym, ap, ℕ, ltb, arith, eq_refl, Bool-cases, Option-cases, inl,
  inr,
}
use user_managed_access.Http.{ok}
use user_managed_access.Http.Exec.{Exec, ◌>>=◌, >>=-eq-ok}
use user_managed_access.Dialog.{DialogInput, DialogOutput}
use user_managed_access.Tokens.{RefreshInformation}
use user_managed_access.Routes.Token.{
  TokenResponse, answered, RefreshStore, find_refresh, delete_refresh, refresh_input,
  use_refresh_token, handle_refresh,
}

module _ {S : Type 0} (store : RefreshStore S)
    (negotiator : DialogInput → Exec S DialogOutput) where
  find-delete_refresh :
      (s : S) (token : String)
      → find_refresh store negotiator (delete_refresh store negotiator token s) token ≡ none
  find-delete_refresh s token = ground (
    arith,
    store.refreshes-set_refreshes s (store.storage.delete (store.refreshes s) token),
    store.storage.get-delete (store.refreshes s) token token,
    eq_refl token,
  )

  use_refresh_token-answered :
      (now : ℕ) (token : String) (s t : S) (response : TokenResponse)
      → use_refresh_token store negotiator now token s ≡ (ok response, t)
      → (information : RefreshInformation) × (out : DialogOutput) × (u : S) × (find_refresh store
            negotiator s token
          ≡ some information)
        × (ltb information.expiration now ≡ false)
        × (negotiator (refresh_input information.permissions token) s ≡ (ok out, u))
        × (response ≡ answered out)
        × (t ≡ delete_refresh store negotiator token u)
  unfolding use_refresh_token
  use_refresh_token-answered now token s t response h =
      elim (Option-cases (find_refresh store negotiator s token)) [
        | inl missing ↦ absurd (ground (arith, h, missing))
        | inr (information, found) ↦ elim (Bool-cases (ltb information.expiration now)) [
          | inl late ↦ absurd (ground (arith, h, found, late))
          | inr fresh ↦
              let called : (negotiator (refresh_input information.permissions token) >>= λ out u.
              (ok (answered out), delete_refresh store negotiator token u))
                    s
                  ≡ (ok response, t) =
                ground (arith, h, found, fresh) in
              let (out, u, made, rest) =
                >>=-eq-ok (negotiator (refresh_input information.permissions token)) _ s t response
                  called in
              (
                information,
                out,
                u,
                found,
                fresh,
                made,
                ground (arith, rest),
                sym (ap (λ p. p.1) rest),
              )
        ]
      ]

  -- A refresh that is answered used a token that was in the store and had not expired, gives just the
  -- negotiator's answer for the permissions that were stored with it, and leaves the token unusable.
  pub handle_refresh_once :
      (now : ℕ) (params : DialogInput) (s t : S) (response : TokenResponse)
      → handle_refresh store negotiator now (some params) s ≡ (ok response, t)
      → (token : String) × (information : RefreshInformation) × (out : DialogOutput) × (u : S)
        × (params.refresh_token ≡ some token)
        × (find_refresh store negotiator s token ≡ some information)
        × (ltb information.expiration now ≡ false)
        × (negotiator (refresh_input information.permissions token) s ≡ (ok out, u))
        × (response ≡ answered out)
        × (find_refresh store negotiator t token ≡ none)
  unfolding handle_refresh
  handle_refresh_once now params s t response h = elim (Option-cases params.refresh_token) [
    | inl missing ↦ absurd (ground (arith, h, missing))
    | inr (token, given) ↦
        let (information, out, u, found, fresh, made, same, after) =
          use_refresh_token-answered now token s t response (ground (arith, h, given)) in
        (
          token,
          information,
          out,
          u,
          given,
          found,
          fresh,
          made,
          same,
          rw after (find-delete_refresh u token),
        )
  ]
