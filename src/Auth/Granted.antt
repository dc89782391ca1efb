-- ===== src/Auth/Granted.antt =====
-- crates/openlink-auth/src/main.rs, oidc.rs and jwt.rs: what a token that is issued to a user allows.
use openlink.Prelude.{
  text, ◌++◌, ◌∙◌, ◌&&◌, ◌||◌, ◌=t◌, Bool, List, any, ℕ, ◌≡◌, refl, inl, inr, Text, true, false, [],
  ◌∷◌, Option, none, some, lacks, is_empty, arith, Bool-cases, ◌==◌,
}
use openlink.Sdk.Subjects.{outbox, inbox}
use openlink.Auth.{
  AuthResult, denied, granted, grant, NatsUserClaims, Signer, Answer, unreachable, refused,
  answered, OidcProviderConfig, AppConfig, provider_for, ExchangeRequest, ExchangeResponse,
  last_part, nonempty_cid, extract_cid_from_token, exchange_code, user_claims, encode_and_sign,
  issued, exchange_with, exchange_token,
}

-- The two steps of a success.
grant_succeeds :
    {A B : Type 0} (r : AuthResult A) (next : A → AuthResult B) (b : B)
    → grant r next ≡ granted b
    → (a : A) × (r ≡ granted a) × (next a ≡ granted b)
grant_succeeds (denied e) next b h = cc
grant_succeeds (granted a) next b h = (a, refl, h)

-- The candidate has an underscore exactly if what is left to read has one.
last_part-lacks :
    (current s : Text) → lacks 95 current ≡ lacks 95 s → lacks 95 (last_part current s) ≡ true
unfolding last_part
last_part-lacks current [] h = h
last_part-lacks current (c ∷ s) h = elim (Bool-cases (c == 95)) [
  | inl p ↦ rw p (last_part-lacks s s refl)
  | inr p ↦ rw p (last_part-lacks current s (ground arith))
]

-- A connection identifier: not empty, and without an underscore.
abbrev pub IsCid : Text → Type 0
IsCid cid = (lacks 95 cid ≡ true) × (is_empty cid ≡ false)

nonempty_cid-IsCid :
    (token part cid : Text)
    → lacks 95 part ≡ true
    → nonempty_cid token part ≡ granted cid
    → IsCid cid
nonempty_cid-IsCid token [] cid h p = cc
nonempty_cid-IsCid token (c ∷ s) cid h p = let e : c ∷ s ≡ cid = cc in rw⁻¹ e (h, refl)

exchange_code-IsCid :
    (answer : Answer) (cid : Text) → exchange_code answer ≡ granted cid → IsCid cid
unfolding exchange_code extract_cid_from_token
exchange_code-IsCid unreachable cid h = cc
exchange_code-IsCid (refused body) cid h = cc
exchange_code-IsCid (answered none) cid h = cc
exchange_code-IsCid (answered (some token)) cid h =
    nonempty_cid-IsCid token (last_part token token) cid (last_part-lacks token token refl) h

-- A text without the wildcards `*` and `>` of the broker.
abbrev pub is_literal : Text → Bool
is_literal s = lacks 42 s && lacks 62 s

-- The subjects that a list of permissions allows, by the broker's rule for one of them.
abbrev pub allows : (Text → Text → Bool) → List Text → Text → Bool
allows matches patterns subject = any (λ p. matches p subject) patterns

lacks-append : (c : ℕ) (p s : Text) → lacks c (p ++ s) ≡ (lacks c p && lacks c s)
lacks-append c [] s = refl
lacks-append c (d ∷ p) s = let h = lacks-append c p s in ground arith

subjects-is_literal :
    (network cid : Text)
    → is_literal network ≡ true
    → is_literal cid ≡ true
    → (is_literal (outbox network cid) ≡ true) × (is_literal (inbox network cid) ≡ true)
unfolding outbox inbox
subjects-is_literal network cid h k =
    let out_tail = 46 ∷ (text "outbox" ++ (46 ∷ cid)) in
    let in_tail = 46 ∷ (text "inbox" ++ (46 ∷ cid)) in
    (
      ground (arith, lacks-append 42 network out_tail, lacks-append 62 network out_tail),
      ground (arith, lacks-append 42 network in_tail, lacks-append 62 network in_tail),
    )

same-append : (p s t : Text) → (p ++ s =t p ++ t) ≡ (s =t t)
unfolding ◌=t◌
same-append [] s t = refl
same-append (c ∷ p) s t = let h = same-append p s t in ground arith

subjects-same :
    (network cid other : Text)
    → ((outbox network cid =t outbox network other) ≡ (cid =t other))
      × ((inbox network cid =t inbox network other) ≡ (cid =t other))
unfolding outbox inbox ◌=t◌
subjects-same network cid other = (same-append network _ _, same-append network _ _)

only : (a b : Bool) → a ≡ b → (a || false) ≡ b
only a b h = ground arith

module _ (signer : Signer) (config : AppConfig) (respond : OidcProviderConfig → Text → Answer)
    (req : ExchangeRequest) (id : Text) (now : ℕ) (response : ExchangeResponse) where
  -- The claims of a token for the connection identifier and the network of the response.
  abbrev pub claims : NatsUserClaims
  claims = user_claims id signer.public_key req.user_nkey_public response.cid req.network now 3600

  -- The provider of the network has answered with the identifier, and the token is signed for it.
  abbrev pub Authenticated : Type 0
  Authenticated =
      (provider : OidcProviderConfig) × (provider_for config req.network ≡ some provider)
      × (exchange_code (respond provider req.oidc_code) ≡ granted response.cid)
      × (response.network ≡ req.network)
      × (encode_and_sign signer claims ≡ granted response.jwt)

  issued-signed :
      (cid : Text)
      → issued signer config respond req id now cid ≡ granted response
      → (cid ≡ response.cid)
        × (response.network ≡ req.network)
        × (encode_and_sign signer claims ≡ granted response.jwt)
  issued-signed cid h =
      let (jwt, p, q) = grant_succeeds _ _ response h in
      let e : record { jwt = jwt; cid = cid; network = req.network } ≡ response = cc in
      rw⁻¹ e (refl, refl, p)

  exchange_with-Authenticated :
      (found : Option OidcProviderConfig)
      → provider_for config req.network ≡ found
      → exchange_with signer config respond found req id now ≡ granted response
      → Authenticated
  exchange_with-Authenticated none p h = cc
  exchange_with-Authenticated (some provider) p h =
      let (cid, q, i) =
        grant_succeeds (exchange_code (respond provider req.oidc_code))
          (issued signer config respond req id now) response h in
      let (same, network, signed) = issued-signed cid i in
      (provider, p, rw⁻¹ same q, network, signed)

  -- A user gets a token only for a network that has an identity provider, whose answer to the code
  -- names the connection identifier that the response names; this is not empty and has no underscore.
  -- The token is the signature of claims for them. Let the broker's rule match a subject without
  -- wildcards with itself only. If neither the network nor the identifier holds a wildcard, the
  -- permissions of the claims allow to publish on the outbox of the identifier and to subscribe to its
  -- inbox, and on no other subject: not on those of any other address of the network.
  pub exchange_token-allows :
      (matches : Text → Text → Bool)
      (literal : (p subject : Text) → is_literal p ≡ true → matches p subject ≡ (p =t subject))
      (subject other : Text)
      → is_literal req.network ≡ true
      → is_literal response.cid ≡ true
      → exchange_token signer config respond req id now ≡ granted response
      → let publish = allows matches claims.permissions.publish in
        let subscribe = allows matches claims.permissions.subscribe in
        Authenticated
        × IsCid response.cid
        × (publish subject ≡ (outbox req.network response.cid =t subject))
        × (subscribe subject ≡ (inbox req.network response.cid =t subject))
        × (publish (outbox req.network other) ≡ (response.cid =t other))
        × (subscribe (inbox req.network other) ≡ (response.cid =t other))
  unfolding exchange_token user_claims
  exchange_token-allows matches literal subject other h k g =
      let a = exchange_with-Authenticated (provider_for config req.network) refl g in
      let (provider, _, q, _, _) = a in
      let (out, in_) = subjects-is_literal req.network response.cid h k in
      let (out_same, in_same) = subjects-same req.network response.cid other in
      let published = λ (s : Text). literal (outbox req.network response.cid) s out in
      let subscribed = λ (s : Text). literal (inbox req.network response.cid) s in_ in
      (
        a,
        exchange_code-IsCid (respond provider req.oidc_code) response.cid q,
        only _ _ (published subject),
        only _ _ (subscribed subject),
        only _ _ (published (outbox req.network other)) ∙ out_same,
        only _ _ (subscribed (inbox req.network other)) ∙ in_same,
      )
