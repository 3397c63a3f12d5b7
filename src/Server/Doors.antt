-- ===== src/Server/Doors.antt =====
-- Who gets through the public listener (internal/server/server.go).
use bluestaq_takehome.Prelude.{◌≡◌, refl, ◌⊎◌, inl, inr, ℕ, true, Bool-cases}
use bluestaq_takehome.Httpx.{Decoded, Request}
use bluestaq_takehome.Auth.{with_user_id}
use bluestaq_takehome.Store.World.{World}
use bluestaq_takehome.Auth.Bearer.{Admits, middleware-Admits}
use bluestaq_takehome.Users.{RegisterRequest, LoginRequest}
use bluestaq_takehome.Users.Routes.{register_call, login_call}
use bluestaq_takehome.Server.{
  Deps, Endpoint, HttpRequest, users_endpoint, openapi_yaml, docs, no_such_endpoint, wrong_method,
  is_public, handle, routes, cors, public_router,
}

-- The token of the request, as the middleware of the public listener reads it.
abbrev pub IsAdmitted : Deps → HttpRequest → World → ℕ → Type 0
IsAdmitted d q w id =
    Admits d.users.jwt d.users.tokens d.users.clock (handle d q.endpoint) q.authorization w id

pub data IsSignIn : Endpoint → Type 0 where
  register : {b : Decoded RegisterRequest} → IsSignIn (users_endpoint (register_call b))
  login : {b : Decoded LoginRequest} → IsSignIn (users_endpoint (login_call b))

-- What needs no token changes nothing, but for register and login.
public-IsSignIn :
    (d : Deps) (e : Endpoint) (r : Request) (w : World)
    → is_public e ≡ true
    → ((handle d e r w).1 ≡ w) ⊎ IsSignIn e
unfolding handle
public-IsSignIn d openapi_yaml r w p = inl refl
public-IsSignIn d docs r w p = inl refl
public-IsSignIn d no_such_endpoint r w p = inl refl
public-IsSignIn d wrong_method r w p = inl refl
public-IsSignIn d (users_endpoint (register_call b)) r w p = inr IsSignIn.register
public-IsSignIn d (users_endpoint (login_call b)) r w p = inr IsSignIn.login
public-IsSignIn d _ r w p = cc

-- A request to the public listener leaves everything as it was, unless it registers or logs in, or
-- the library accepts its bearer token, and then its endpoint has run as the subject of the token.
pub public_router-IsAdmitted :
    (d : Deps) (q : HttpRequest) (w : World)
    → ((public_router d q w).1 ≡ w)
      ⊎ (IsSignIn q.endpoint
          ⊎ ((id : ℕ) × IsAdmitted d q w id
              × ((public_router d q w).1 ≡ (handle d q.endpoint (with_user_id q.request id) w).1)))
unfolding public_router cors routes
public_router-IsAdmitted d q w = elim (Bool-cases q.is_options) [
  | inl options ↦ rw options (inl refl)
  | inr other ↦ elim (Bool-cases (is_public q.endpoint)) [
    | inl is_open ↦ elim (public-IsSignIn d q.endpoint q.request w is_open) [
      | inl same ↦ inl (rw (other, is_open) same)
      | inr sign_in ↦ inr (inl sign_in)
    ]
    | inr closed ↦
        elim (middleware-Admits d.users.jwt d.users.tokens d.users.clock (handle d q.endpoint)
          q.authorization q.request w) [
            | inl (id, admitted, runs) ↦ inr (inr (id, admitted, rw (other, closed, runs) refl))
            | inr (status, challenge, same) ↦ inl (rw (other, closed) same)
          ]
  ]
]
