-- ===== src/Auth.antt =====
-- crates/openlink-auth: the exchange of a login or of the server secret for a NATS token. The identity
-- provider, the encoding of JSON in base64 and the key pair are parameters, as are the fresh
-- identifier and the time of day.
pub mod Granted
use openlink.Prelude.{
  ℕ, ◌+◌, Text, text, Bool, true, false, List, [], ◌∷◌, ◌++◌, Option, none, some, ◌==◌, ◌=t◌,
  if◌then◌else◌,
}
use openlink.Models.Endpoint.{NetworkId}
use openlink.Sdk.Subjects.{outbox, inbox, outbox_wildcard, inbox_wildcard}

pub data AuthError : Type 0 where
  unknown_network : Text → AuthError
  oidc_exchange_failed : Text → AuthError
  http_error : AuthError
  nkey_error : AuthError
  serialization : AuthError

pub data AuthResult (A : Type 0) : Type 0 where
  denied : AuthError → AuthResult A
  granted : A → AuthResult A

-- The operator `?`, and what follows it.
abbrev pub grant : {A B : Type 0} → AuthResult A → (A → AuthResult B) → AuthResult B
grant (denied e) next = denied e
grant (granted a) next = next a

-- `into_response`: the status.
unfoldable pub status : AuthError → ℕ
status (unknown_network _) = 400
status (oidc_exchange_failed _) = 401
status http_error = 502
status nkey_error = 500
status serialization = 500

-- `NatsPermissions`, `NatsClaims` and `NatsUserClaims`; a permission list is its `allow`.
pub record NatsPermissions : Type 0 where
  pub publish : List Text
  pub subscribe : List Text

pub record NatsUserClaims : Type 0 where
  pub jti : Text
  pub iat : ℕ
  pub exp : ℕ
  pub iss : Text
  pub name : Text
  pub sub : Text
  pub permissions : NatsPermissions
  pub claim_type : Text
  pub version : ℕ

-- The key pair of the account, and the encoding of the claims: none is an error of the library.
pub record Signer : Type 0 where
  pub public_key : Text
  pub encoded_header : Option Text
  pub encode : NatsUserClaims → Option Text
  pub sign : Text → Option Text

-- What the token endpoint answers: no answer or one that is no JSON, an error status with its text,
-- or a body with its access token, if that is a string.
pub data Answer : Type 0 where
  unreachable : Answer
  refused : Text → Answer
  answered : Option Text → Answer

pub record OidcProviderConfig : Type 0 where
  pub token_url : Text

-- The map of networks is a lookup function.
pub record AppConfig : Type 0 where
  pub networks : NetworkId → Option OidcProviderConfig
  pub listen_port : ℕ

abbrev pub provider_for : AppConfig → NetworkId → Option OidcProviderConfig
provider_for config network = config.networks network

pub record ExchangeRequest : Type 0 where
  pub oidc_code : Text
  pub user_nkey_public : Text
  pub network : NetworkId

pub record ExchangeResponse : Type 0 where
  pub jwt : Text
  pub cid : Text
  pub network : NetworkId

pub record ExchangeServerRequest : Type 0 where
  pub server_secret : Text
  pub user_nkey_public : Text
  pub network : NetworkId

pub record ExchangeServerResponse : Type 0 where
  pub jwt : Text
  pub network : NetworkId

-- The part behind the last underscore: `current` is the part that has been read from the last one on.
unfoldable pub last_part : Text → Text → Text
last_part current [] = current
last_part current (c ∷ s) =
    let later = last_part s s in let same = last_part current s in if c == 95 then later else same

abbrev nonempty_cid : Text → Text → AuthResult Text
nonempty_cid token [] =
    denied (oidc_exchange_failed (text "unexpected access_token format: " ++ token))
nonempty_cid token (c ∷ s) = granted (c ∷ s)

unfoldable pub extract_cid_from_token : Text → AuthResult Text
extract_cid_from_token token = nonempty_cid token (last_part token token)

unfoldable pub exchange_code : Answer → AuthResult Text
exchange_code unreachable = denied http_error
exchange_code (refused body) =
    denied (oidc_exchange_failed (text "provider returned error: " ++ body))
exchange_code (answered none) = denied (oidc_exchange_failed (text "missing access_token"))
exchange_code (answered (some token)) = extract_cid_from_token token

-- The claims of `sign_user_jwt` and `sign_server_jwt`.
unfoldable pub user_claims : Text → Text → Text → Text → NetworkId → ℕ → ℕ → NatsUserClaims
user_claims id issuer user cid network now ttl = record {
  jti = id;
  iat = now;
  exp = now + ttl;
  iss = issuer;
  name = cid;
  sub = user;
  permissions = record { publish = outbox network cid ∷ []; subscribe = inbox network cid ∷ [] };
  claim_type = text "user";
  version = 2;
}

abbrev bucket_subjects : List Text
bucket_subjects = text "$JS.API.>" ∷ text "_INBOX.>" ∷ []

unfoldable pub server_claims : Text → Text → Text → NetworkId → ℕ → ℕ → NatsUserClaims
server_claims id issuer user network now ttl = record {
  jti = id;
  iat = now;
  exp = now + ttl;
  iss = issuer;
  name = text "openlink-server-" ++ network;
  sub = user;
  permissions = record {
    publish = inbox_wildcard network ∷ bucket_subjects;
    subscribe = outbox_wildcard network ∷ bucket_subjects;
  };
  claim_type = text "user";
  version = 2;
}

abbrev or_error : AuthError → Option Text → AuthResult Text
or_error e none = denied e
or_error e (some s) = granted s

module _ (signer : Signer) where
  unfoldable pub encode_and_sign : NatsUserClaims → AuthResult Text
  encode_and_sign claims = grant (or_error serialization signer.encoded_header) (λ header.
      grant (or_error serialization (signer.encode claims)) (λ body.
        let signing_input = header ++ (46 ∷ body) in
        grant (or_error nkey_error (signer.sign signing_input))
          (λ signature. granted (signing_input ++ (46 ∷ signature)))))

  -- What the token endpoint of a provider answers to a code.
  module _ (config : AppConfig) (respond : OidcProviderConfig → Text → Answer) where
    abbrev pub issued : ExchangeRequest → Text → ℕ → Text → AuthResult ExchangeResponse
    issued req id now cid =
        grant
          (encode_and_sign
            (user_claims id signer.public_key req.user_nkey_public cid req.network now 3600))
          (λ jwt. granted (record { jwt = jwt; cid = cid; network = req.network }))

    abbrev pub exchange_with :
        Option OidcProviderConfig → ExchangeRequest → Text → ℕ → AuthResult ExchangeResponse
    exchange_with none req id now = denied (unknown_network req.network)
    exchange_with (some provider) req id now =
        grant (exchange_code (respond provider req.oidc_code)) (issued req id now)

    unfoldable pub exchange_token : ExchangeRequest → Text → ℕ → AuthResult ExchangeResponse
    exchange_token req id now = exchange_with (provider_for config req.network) req id now

  unfoldable pub exchange_server_token :
      Text → ExchangeServerRequest → Text → ℕ → AuthResult ExchangeServerResponse
  exchange_server_token secret req id now =
      if req.server_secret =t secret
      then grant
          (encode_and_sign
            (server_claims id signer.public_key req.user_nkey_public req.network now 86400))
          (λ jwt. granted (record { jwt = jwt; network = req.network }))
      else denied (oidc_exchange_failed (text "invalid server secret"))
