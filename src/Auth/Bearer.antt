-- ===== src/Auth/Bearer.antt =====
-- Whom the middleware of internal/auth/middleware.go lets through.
use bluestaq_takehome.Prelude.{
  ℕ, ◌+◌, ◌≤◌, ◌<◌, ◌≡◌, refl, ◌⊎◌, inl, inr, String, true, false, Option, none, some, Option-cases,
  any, str_eq, ◌++◌,
}
use bluestaq_takehome.Prelude.Text.{Text, codes, text_eq, is_empty, trim_space}
use bluestaq_takehome.Httpx.{Request, Reply, write_problem, classify}
use bluestaq_takehome.Httpx.Problems.{errorf}
use bluestaq_takehome.Store.World.{Env, World}
use bluestaq_takehome.Auth.{
  Claims, ParserOptions, Jwt, Tokens, Answer, claims_for, with_expiry, numeric_date, issue,
  parser_options, subject_id, parse, cut_space, is_bearer, token_of, bearer_token, with_user_id,
  unauthorized, answered, authenticated, authenticate, middleware,
}

-- What the service relies on for one token: the library takes it, from the `not_before` of its claims
-- to their `expires_at`, as the claims that were signed; the text has no white space at its ends; and google/uuid
-- reads back what it prints.
pub record IsVerified (jwt : Jwt) (t : Tokens) (env : Env) (user : ℕ) (id : Text) (now : ℕ)
    (token : Text) : Type 0 where
  pub verified :
      (options : ParserOptions) (alg : String) (at : ℕ)
      → jwt.signed_string alg t.secret (claims_for t (env.uuid_string user) id now) ≡ some token
      → any (str_eq alg) options.valid_methods ≡ true
      → options.issuer ≡ (claims_for t (env.uuid_string user) id now).issuer
      → (claims_for t (env.uuid_string user) id now).not_before ≤ at
      → at < (claims_for t (env.uuid_string user) id now).expires_at
      → jwt.parse_with_claims options t.secret at token
        ≡ some (claims_for t (env.uuid_string user) id now)
  pub compact : trim_space token ≡ token
  pub not_blank : is_empty token ≡ false
  pub uuid_back : env.uuid_parse (env.uuid_string user) ≡ some user

bearer_token-Bearer :
    (token : Text)
    → trim_space token ≡ token
    → is_empty token ≡ false
    → bearer_token (codes "Bearer " ++ token) ≡ some token
unfolding bearer_token cut_space token_of is_bearer is_empty text_eq
bearer_token-Bearer token compact full = rw (compact, full) refl

with_expiry-some :
    (n : ℕ) (o : Option Text) (token : Text) (expires : ℕ)
    → with_expiry n o ≡ some (token, expires)
    → (o ≡ some token) × (expires ≡ n)
with_expiry-some n none token expires e = cc
with_expiry-some n (some signed) token expires e = (cc, cc)

issue-signed :
    (jwt : Jwt) (t : Tokens) (subject id : Text) (now : ℕ) (token : Text) (expires : ℕ)
    → issue jwt t subject id now ≡ some (token, expires)
    → (jwt.signed_string "HS256" t.secret (claims_for t subject id now) ≡ some token)
      × (expires ≡ now + t.ttl)
unfolding issue
issue-signed jwt t subject id now token expires = with_expiry-some (now + t.ttl) _ token expires

module _ {A : Type 0} (jwt : Jwt) (t : Tokens) (clock : ℕ → ℕ)
    (next : Request → World → Reply A × World) where
  -- A token that `Issue` has given a user lets the requests that carry it through as that user, until
  -- the second of its expiry. The library verifies what it has signed.
  pub middleware-issue :
      (r : Request) (w : World) (user : ℕ) (id : Text) (now : ℕ) (token : Text) (expires : ℕ)
      → issue jwt t (w.env.uuid_string user) id now ≡ some (token, expires)
      → IsVerified jwt t w.env user id now token
      → numeric_date now ≤ clock w.calls
      → clock w.calls < numeric_date expires
      → middleware jwt t clock next (codes "Bearer " ++ token) r w
        ≡ answered (next (with_user_id r user) w)
  unfolding middleware authenticate authenticated parse subject_id claims_for any
  middleware-issue r w user id now token expires signed v from until =
      let (is_signed, lasts) =
        issue-signed jwt t (w.env.uuid_string user) id now token expires signed in
      rw
        (
          bearer_token-Bearer token v.compact v.not_blank,
          v.verified parser_options "HS256" (clock w.calls) is_signed refl refl from
              (rw lasts at until),
          v.uuid_back,
        )
        refl

  -- The claims that let a request with this header through, as the user `id`.
  abbrev pub Admits : Text → World → ℕ → Type 0
  Admits authorization w id =
      (raw : Text) × (claims : Claims) × (bearer_token authorization ≡ some raw)
      × (jwt.parse_with_claims parser_options t.secret (clock w.calls) raw ≡ some claims)
      × (w.env.uuid_parse claims.subject ≡ some id)

  -- The middleware has answered 401 with a challenge, and nothing has happened.
  abbrev pub Refuses : Answer A × World → World → Type 0
  Refuses (a, w1) w =
      (a.reply.status ≡ 401) × (a.www_authenticate ≡ some "Bearer realm=\"notes\"") × (w1 ≡ w)

  -- A request reaches a handler only as the subject of a bearer token that the library accepts, under
  -- the secret, for HS256 and the service's issuer alone and with an expiry; any other request gets a
  -- 401 with a challenge, and nothing happens.
  pub middleware-Admits :
      (authorization : Text) (r : Request) (w : World)
      → ((id : ℕ) × Admits authorization w id
          × (middleware jwt t clock next authorization r w ≡ answered (next (with_user_id r id) w)))
        ⊎ Refuses (middleware jwt t clock next authorization r w) w
  unfolding middleware authenticate authenticated parse subject_id unauthorized write_problem
      classify errorf
  middleware-Admits authorization r w = elim (Option-cases (bearer_token authorization)) [
    | inl e ↦ rw e (inr (refl, refl, refl))
    | inr (raw, e) ↦
        elim (Option-cases (jwt.parse_with_claims parser_options t.secret (clock w.calls) raw)) [
          | inl bad ↦ rw (e, bad) (inr (refl, refl, refl))
          | inr (claims, good) ↦ elim (Option-cases (w.env.uuid_parse claims.subject)) [
            | inl no_id ↦ rw (e, good, no_id) (inr (refl, refl, refl))
            | inr (id, found) ↦ inl (id, (raw, claims, e, good, found), rw (e, good, found) refl)
          ]
        ]
  ]
