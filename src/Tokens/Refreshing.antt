-- ===== src/Tokens/Refreshing.antt =====
-- A refresh token that was issued, and what it is worth later.
use user_managed_access.Prelude.{
  String, List, true, false, ◌≡◌, refl, if◌then◌else◌, ℕ, ◌+◌, ltb, nat_beq, inl, inr, arith,
  Bool-cases,
}
use user_managed_access.Http.{ok, fail, bad_request}
use user_managed_access.Storage.{KeyValueStorage}
use user_managed_access.Storage.Expiring.{ExpiringStorage}
use user_managed_access.Views.{Permission, AccessToken, ClaimSet, refresh_token_format}
use user_managed_access.Tokens.{Tokens, RefreshInformation, issue, verify_refresh_token}

module _ (T : KeyValueStorage AccessToken) (F : ExpiringStorage RefreshInformation) where
  -- A refresh token that was issued at one time for some claims verifies as just these claims until the
  -- period is over. Afterwards the store has dropped it, so it is refused as an unknown one, and nothing
  -- changes. Nothing is said of the very millisecond at which the period ends.
  pub verify_refresh_token-issue :
      (period now later : ℕ) (id : String) (claims : ClaimSet) (permissions : List Permission)
      (s : Tokens T.State F.State)
      → nat_beq later (now + period) ≡ false
      → let (r, t) = issue T F period id now claims permissions s in
        verify_refresh_token T F later (record { token = id; format = refresh_token_format }) t
        ≡ (if ltb later (now + period) then (ok claims, t) else (fail bad_request, t))
  unfolding issue verify_refresh_token
  verify_refresh_token-issue period now later id claims permissions s other =
      let information : RefreshInformation = record {
        claims = claims;
        permissions = permissions;
        expiration = now + period;
      } in
      elim (Bool-cases (ltb later (now + period))) [
        | inl early ↦
            let fresh : ltb (now + period) later ≡ false = ground (arith, early) in
            let there = F.get-set_valid s.refreshes now later id information period early in
            rw (early, there, fresh) refl
        | inr late ↦
            let over : ltb (now + period) later ≡ true = ground (arith, late, other) in
            let gone = F.get-set_expired s.refreshes now later id information period over in
            rw (late, gone) refl
      ]
