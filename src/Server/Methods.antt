-- ===== src/Server/Methods.antt =====
-- What a browser on an allowed origin may call (`cors` of internal/server/server.go).
use bluestaq_takehome.Prelude.{
  ◌≡◌, ◌↔◌, ◌&&◌, if◌then◌else◌, List, [], ◌∷◌, refl, String, Bool, true, false, Option, none, some,
  any, str_eq,
}
use bluestaq_takehome.Prelude.Text.{Text, text_eq, is_empty}
use bluestaq_takehome.Httpx.{Decoded, write_status}
use bluestaq_takehome.Store.World.{World}
use bluestaq_takehome.Notes.Routes.{upsert_share_call}
use bluestaq_takehome.Notes.Shares.{ShareRequest}
use bluestaq_takehome.Notes.Attachments.{AttachmentCall, list_attachments_call}
use bluestaq_takehome.Teams
use bluestaq_takehome.Teams.{list_call}
use bluestaq_takehome.Users.Routes as UserRoutes
use bluestaq_takehome.Users.Routes.{me_call}
use bluestaq_takehome.Server.{
  Endpoint, note_endpoint, users_endpoint, teams_endpoint, attachment_endpoint, CorsHeaders, Deps,
  HttpRequest, is_public, headers_for, allowed, cors, method_of, public_router,
}

-- The headers of a request that a preflight asks for: the token behind the middleware, and what the
-- bodies and the updates need.
abbrev pub headers_of : Endpoint → List String
headers_of e =
    if is_public e then "Content-Type" ∷ [] else "Authorization" ∷ "Content-Type" ∷ "If-Match" ∷ []

abbrev pub has_all : List String → List String → Bool
has_all [] given = true
has_all (s ∷ asked) given = any (str_eq s) given && has_all asked given

abbrev has_method : Option String → List String → Bool
has_method none given = true
has_method (some method) given = any (str_eq method) given

-- What a browser takes from the reply to a preflight: the request goes out.
abbrev pub is_callable : Option CorsHeaders → Endpoint → Bool
is_callable none e = false
is_callable (some h) e =
    h.allow_credentials
    && (has_method (method_of e) h.allow_methods && has_all (headers_of e) h.allow_headers)

abbrev pub origin_of : Option CorsHeaders → Option Text
origin_of none = none
origin_of (some h) = some h.allow_origin

pub data IsShareUpdate : Endpoint → Type 0 where
  share_update : {b : Decoded ShareRequest} → IsShareUpdate (note_endpoint (upsert_share_call b))

users-callable :
    (origin : Text) (c : UserRoutes.Call)
    → is_callable (some (headers_for origin)) (users_endpoint c) ≡ true
unfolding method_of headers_for any
users-callable origin me_call = refl
users-callable origin _ = refl

teams-callable :
    (origin : Text) (c : Teams.Call)
    → is_callable (some (headers_for origin)) (teams_endpoint c) ≡ true
unfolding method_of headers_for any
teams-callable origin list_call = refl
teams-callable origin _ = refl

attachment-callable :
    (origin : Text) (c : AttachmentCall)
    → is_callable (some (headers_for origin)) (attachment_endpoint c) ≡ true
unfolding method_of headers_for any
attachment-callable origin list_attachments_call = refl
attachment-callable origin _ = refl

blocked-IsShareUpdate :
    (origin : Text) (e : Endpoint)
    → is_callable (some (headers_for origin)) e ≡ false
    → IsShareUpdate e
unfolding method_of headers_for any
blocked-IsShareUpdate origin (note_endpoint (upsert_share_call b)) h = IsShareUpdate.share_update
blocked-IsShareUpdate origin (users_endpoint c) h = cc (users-callable origin c)
blocked-IsShareUpdate origin (teams_endpoint c) h = cc (teams-callable origin c)
blocked-IsShareUpdate origin (attachment_endpoint c) h = cc (attachment-callable origin c)
blocked-IsShareUpdate origin (note_endpoint _) h = cc
blocked-IsShareUpdate origin _ h = cc

IsShareUpdate-blocked :
    (origin : Text) (e : Endpoint)
    → IsShareUpdate e
    → is_callable (some (headers_for origin)) e ≡ false
unfolding method_of headers_for any
IsShareUpdate-blocked origin e IsShareUpdate.share_update = refl

preflight :
    (d : Deps) (q : HttpRequest) (w : World)
    → q.is_options ≡ true
    → is_empty q.origin ≡ false
    → any (text_eq q.origin) d.cors_origins ≡ true
    → ((public_router d q w).0.answer.reply.status ≡ 204)
      × ((public_router d q w).0.cors_headers ≡ some (headers_for q.origin))
unfolding public_router cors allowed write_status
preflight d q w options given listed = rw (options, given, listed) (refl, refl)

-- The public listener answers the preflight of a browser on an origin of the configured list with a
-- 204 that names the origin, and by that reply the browser may call every endpoint, with its token, but
-- one: the methods leave out PUT, which sets a grant of a note.
pub blocked_iff :
    (d : Deps) (q : HttpRequest) (w : World) (e : Endpoint)
    → q.is_options ≡ true
    → is_empty q.origin ≡ false
    → any (text_eq q.origin) d.cors_origins ≡ true
    → ((public_router d q w).0.answer.reply.status ≡ 204)
      × (origin_of (public_router d q w).0.cors_headers ≡ some q.origin)
      × ((is_callable (public_router d q w).0.cors_headers e ≡ false) ↔ IsShareUpdate e)
unfolding headers_for
blocked_iff d q w e options given listed =
    let (status, headers) = preflight d q w options given listed in
    rw (status, headers)
      (refl, refl, (blocked-IsShareUpdate q.origin e, IsShareUpdate-blocked q.origin e))
