-- ===== src/Examples/Tokens.antt =====
-- A user and a server log in.
use openlink.Prelude.{◌≡◌, refl, Text, text, Bool, true, some, [], ◌=t◌, ◌++◌, if◌then◌else◌}
use openlink.Sdk.Subjects.{outbox, inbox, outbox_wildcard}
use openlink.Auth.{
  denied, granted, oidc_exchange_failed, Signer, Answer, answered, OidcProviderConfig, AppConfig,
  ExchangeRequest, ExchangeResponse, last_part, extract_cid_from_token, exchange_code,
  encode_and_sign, exchange_token, exchange_server_token, user_claims,
}
use openlink.Auth.Granted.{is_literal, allows, Authenticated, IsCid, claims, exchange_token-allows}

abbrev signer : Signer
signer = record {
  public_key = text "A";
  encoded_header = some (text "h");
  encode = λ c. some c.name;
  sign = λ s. some (text "s");
}

abbrev config : AppConfig
config = record {
  networks = λ n. some (record { token_url = text "http://localhost:4000/token" });
  listen_port = 3001;
}

abbrev respond : OidcProviderConfig → Text → Answer
respond provider code = answered (some (text "demonetwork_" ++ code))

abbrev request : ExchangeRequest
request = record {
  oidc_code = text "42";
  user_nkey_public = text "U";
  network = text "demonetwork";
}

abbrev response : ExchangeResponse
response = record { jwt = text "h.42.s"; cid = text "42"; network = text "demonetwork" }

exchanged : exchange_token signer config respond request (text "1") 100 ≡ granted response
unfolding exchange_token exchange_code extract_cid_from_token last_part encode_and_sign user_claims
exchanged = refl

-- A broker that knows no wildcards but one for everything.
abbrev matches : Text → Text → Bool
matches p subject = if is_literal p then p =t subject else true

literal : (p subject : Text) → is_literal p ≡ true → matches p subject ≡ (p =t subject)
literal p subject h = rw h refl

exchange_token-allows_example :
    let permissions = (claims signer config respond request (text "1") 100 response).permissions in
    let publish = allows matches permissions.publish in
    let subscribe = allows matches permissions.subscribe in
    Authenticated signer config respond request (text "1") 100 response
    × IsCid response.cid
    × (publish (text ">") ≡ (outbox (text "demonetwork") (text "42") =t text ">"))
    × (subscribe (text ">") ≡ (inbox (text "demonetwork") (text "42") =t text ">"))
    × (publish (outbox (text "demonetwork") (text "43")) ≡ (text "42" =t text "43"))
    × (subscribe (inbox (text "demonetwork") (text "43")) ≡ (text "42" =t text "43"))
exchange_token-allows_example =
    exchange_token-allows signer config respond request (text "1") 100 response matches literal
      (text ">") (text "43") refl refl exchanged

-- An identifier that is a wildcard of the broker.
wildcard_cid : outbox (text "demonetwork") (text ">") ≡ outbox_wildcard (text "demonetwork")
unfolding outbox outbox_wildcard
wildcard_cid = refl

wrong_secret :
    exchange_server_token signer
      (text "secret")
      (record { server_secret = []; user_nkey_public = text "U"; network = text "demonetwork" })
      (text "1")
      100
    ≡ denied (oidc_exchange_failed (text "invalid server secret"))
unfolding exchange_server_token ◌=t◌
wrong_secret = refl
