-- ===== src/Tests/Protection.antt =====
-- One resource server with one token: packages/uma/src/routes/token/UmaProtection.ts.
use user_managed_access.Prelude.{
  String, none, some, [], ◌∷◌, true, ◌==◌, ◌≡◌, refl, ℕ, ◌+◌, length, head?, ◌≤◌, arith, eq_iff,
}
use user_managed_access.Http.{ok}
use user_managed_access.Storage.Rows.{row_storage}
use user_managed_access.Dialog.{DialogInput, no_token}
use user_managed_access.Routes.UmaProtection.{
  Pat, Registered, Environment, find_registration, generate_token, refresh_pat, token_output,
  handle_refresh_token, handle_protection,
}
use user_managed_access.Routes.UmaProtection.Rotation.{
  HasOnePat, handle_protection-HasOnePat, handle_refresh_token_rotates,
}

abbrev server : Registered
server = record {
  id = "registration";
  client = record {
    client_name = none;
    client_uri = "https://server.example/";
    client_id = "client";
    client_secret = "secret";
    user_id = "https://alice.example/";
  };
}

abbrev env : Environment
env = record {
  is_basic = λ s. true;
  credentials = λ s. ok ("client", "secret");
  sign = λ client expiration. "signed";
  find_clients = λ id secret. server ∷ [];
  token_expiration = 1800;
}

abbrev issued : String → Pat
issued refresh = record {
  pat = "signed";
  expiration = 1800007;
  refresh_token = refresh;
  registration = "registration";
}

abbrev asks : DialogInput
asks = record {
  grant_type = some "client_credentials";
  ticket = none;
  claim_token = no_token;
  claim_token_format = none;
  permissions = none;
  scope = some "uma_protection";
  refresh_token = none;
}

has_one : HasOnePat (row_storage Pat) env "new" 7 (issued "old" ∷ [])
has_one r = ground arith

handle_protection-HasOnePat_example :
    length (
      (row_storage Pat).find
        (handle_protection
          (row_storage Pat)
          env
          "new"
          7
          (some asks)
          (some "Basic x")
          (issued "old" ∷ [])).1
        (λ p. p.registration == "registration"))
    ≤ 1
handle_protection-HasOnePat_example =
    handle_protection-HasOnePat (row_storage Pat) env "new" 7 (some asks) (some "Basic x")
      (issued "old" ∷ []) has_one "registration"

refreshes :
    handle_refresh_token
      (row_storage Pat)
      env
      "new"
      7
      (some "old")
      (some "Basic x")
      (issued "old" ∷ [])
    ≡ (ok (token_output (row_storage Pat) env "new" 7 server), issued "new" ∷ [])
unfolding handle_refresh_token refresh_pat find_registration generate_token
refreshes = refl

handle_refresh_token_rotates_example :
    (i : ℕ) × (e : Pat) × (registration : Registered) × (head?
        ((row_storage Pat).find (issued "old" ∷ []) (λ p. p.refresh_token == "old"))
      ≡ some (i, e))
    × (find_registration (row_storage Pat) env "new" 7 (some "Basic x") ≡ ok registration)
    × (e.registration ≡ registration.id)
    × (token_output (row_storage Pat) env "new" 7 server
        ≡ token_output (row_storage Pat) env "new" 7 registration)
    × (length ((row_storage Pat).find (issued "old" ∷ []) (λ p. p.refresh_token == "old"))
        ≡ length ((row_storage Pat).find (issued "new" ∷ []) (λ p. p.refresh_token == "old")) + 1)
handle_refresh_token_rotates_example =
    handle_refresh_token_rotates (row_storage Pat) env "new" 7 "old" (some "Basic x")
      (issued "old" ∷ []) (issued "new" ∷ []) (token_output (row_storage Pat) env "new" 7 server)
      (ground (arith, eq_iff "old" "new")) refreshes
