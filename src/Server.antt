-- ===== src/Server.antt =====
-- internal/server/server.go: the public listener, with RequestID of internal/obs/middleware.go. The
-- router of chi hands on the endpoint that matches the method and the path.
pub mod Doors
pub mod Methods
pub mod Health
use bluestaq_takehome.Prelude.{
  ℕ, String, Bool, true, false, not, ◌&&◌, Option, none, some, List, [], ◌∷◌, any, if◌then◌else◌,
}
use bluestaq_takehome.Prelude.Text.{Text, text_eq, is_empty}
use bluestaq_takehome.Httpx.Problems.{problem, errorf, say}
use bluestaq_takehome.Httpx.{
  Request, Reply, Content, nothing, json, problem_json, Decoded, write_problem, write_json,
  write_status,
}
use bluestaq_takehome.Store.World.{World}
use bluestaq_takehome.Auth.{Answer, answered, middleware}
use bluestaq_takehome.Notes.Dto.{Note}
use bluestaq_takehome.Notes.Handler.{CreateRequest}
use bluestaq_takehome.Notes.Routes as NoteRoutes
use bluestaq_takehome.Notes.Routes.{list_shares_call, restore_call, upsert_share_call}
use bluestaq_takehome.Notes.Uploads.{StorageDeps}
use bluestaq_takehome.Notes.Attachments.{
  AttachmentCall, AttachmentBody, attachment_serve, list_attachments_call, delete_attachment_call,
}
use bluestaq_takehome.Notes.List.{ListResponse, list_serve}
use bluestaq_takehome.Teams
use bluestaq_takehome.Teams.{list_call, list_members_call, leave_call, create_call, add_member_call}
use bluestaq_takehome.Users.{Handler, Payload}
use bluestaq_takehome.Users.Routes as UserRoutes
use bluestaq_takehome.Users.Routes.{
  register_call, login_call, me_call, lookup_call, delete_me_call, update_me_call,
}

pub record Deps : Type 0 where
  pub cors_origins : List Text
  pub new_request_id : ℕ → Text
  pub users : Handler
  pub notes : StorageDeps

-- What a request can ask for: the documents, an endpoint of a handler, a path that nothing matches, a
-- method that the path does not have.
pub data Endpoint : Type 0 where
  openapi_yaml docs no_such_endpoint wrong_method list_notes : Endpoint
  users_endpoint : UserRoutes.Call → Endpoint
  teams_endpoint : Teams.Call → Endpoint
  note_endpoint : NoteRoutes.Call → Endpoint
  create_note : Decoded CreateRequest → Endpoint
  attachment_endpoint : AttachmentCall → Endpoint

pub data Body : Type 0 where
  openapi_body swagger_body : Body
  users_body : Payload → Body
  teams_body : Teams.Payload → Body
  note_body : (c : NoteRoutes.Call) → NoteRoutes.Body c → Body
  new_note_body : Note → Body
  attachment_body : (c : AttachmentCall) → AttachmentBody c → Body
  list_body : ListResponse → Body

-- `PublicRoutes`, the documents and the router's own errors are served without a token.
abbrev pub is_public : Endpoint → Bool
is_public openapi_yaml = true
is_public docs = true
is_public no_such_endpoint = true
is_public wrong_method = true
is_public (users_endpoint (register_call b)) = true
is_public (users_endpoint (login_call b)) = true
is_public _ = false

-- The method that the router has for each endpoint.
abbrev users_method : UserRoutes.Call → String
users_method me_call = "GET"
users_method lookup_call = "GET"
users_method delete_me_call = "DELETE"
users_method (update_me_call b) = "PATCH"
users_method _ = "POST"

abbrev teams_method : Teams.Call → String
teams_method list_call = "GET"
teams_method Teams.get_call = "GET"
teams_method list_members_call = "GET"
teams_method leave_call = "POST"
teams_method (create_call b) = "POST"
teams_method (add_member_call b) = "POST"
teams_method (Teams.update_call b) = "PATCH"
teams_method _ = "DELETE"

abbrev note_method : NoteRoutes.Call → String
note_method NoteRoutes.get_call = "GET"
note_method list_shares_call = "GET"
note_method restore_call = "POST"
note_method (NoteRoutes.update_call b) = "PATCH"
note_method (upsert_share_call b) = "PUT"
note_method _ = "DELETE"

abbrev attachment_method : AttachmentCall → String
attachment_method list_attachments_call = "GET"
attachment_method delete_attachment_call = "DELETE"
attachment_method _ = "POST"

unfoldable pub method_of : Endpoint → Option String
method_of openapi_yaml = some "GET"
method_of docs = some "GET"
method_of no_such_endpoint = none
method_of wrong_method = none
method_of list_notes = some "GET"
method_of (users_endpoint c) = some (users_method c)
method_of (teams_endpoint c) = some (teams_method c)
method_of (note_endpoint c) = some (note_method c)
method_of (create_note b) = some "POST"
method_of (attachment_endpoint c) = some (attachment_method c)

module _ {A : Type 0} (body : A → Body) where
  abbrev in_content : Content A → Content Body
  in_content nothing = nothing
  in_content (json a) = json (body a)
  in_content (problem_json p) = problem_json p

  unfoldable pub in_body : Reply A × World → Reply Body × World
  in_body (reply, w) =
      (record { status = reply.status; etag = reply.etag; content = in_content reply.content }, w)

abbrev pub refuse : Request → ℕ → String → Reply Body
refuse r status detail = write_problem r (problem (errorf status (say detail)))

unfoldable pub handle : Deps → Endpoint → Request → World → Reply Body × World
handle d openapi_yaml r w = (write_json 200 openapi_body, w)
handle d docs r w = (write_json 200 swagger_body, w)
handle d no_such_endpoint r w = (refuse r 404 "no such endpoint", w)
handle d wrong_method r w = (refuse r 405 "method not allowed for this endpoint", w)
handle d list_notes r w = in_body list_body (list_serve r w)
handle d (users_endpoint c) r w = in_body users_body (UserRoutes.serve d.users r c w)
handle d (teams_endpoint c) r w = in_body teams_body (Teams.serve r c w)
handle d (note_endpoint c) r w = in_body (note_body c) (NoteRoutes.serve r c w)
handle d (create_note b) r w = in_body new_note_body (NoteRoutes.serve_create r b w)
handle d (attachment_endpoint c) r w = in_body (attachment_body c) (attachment_serve d.notes r c w)

-- A request as it arrives; a header that is missing is empty. Its `request` names no user yet.
pub record HttpRequest : Type 0 where
  pub is_options : Bool
  pub origin : Text
  pub authorization : Text
  pub request_id : Text
  pub endpoint : Endpoint
  pub request : Request

pub record CorsHeaders : Type 0 where
  pub allow_origin : Text
  pub allow_credentials : Bool
  pub allow_headers : List String
  pub allow_methods : List String
  pub expose_headers : List String
  pub vary : String

pub record Response : Type 0 where
  pub request_id : Text
  pub cors_headers : Option CorsHeaders
  pub answer : Answer Body

-- The middleware of the group that needs a token, and the handlers without it.
unfoldable pub routes : Deps → HttpRequest → World → Answer Body × World
routes d q w =
    if is_public q.endpoint
    then answered (handle d q.endpoint q.request w)
    else middleware d.users.jwt d.users.tokens d.users.clock (handle d q.endpoint) q.authorization
        q.request w

unfoldable pub headers_for : Text → CorsHeaders
headers_for origin = record {
  allow_origin = origin;
  allow_credentials = true;
  allow_headers = "Authorization" ∷ "Content-Type" ∷ "If-Match" ∷ "X-Request-Id" ∷ [];
  allow_methods = "GET" ∷ "POST" ∷ "PATCH" ∷ "DELETE" ∷ "OPTIONS" ∷ [];
  expose_headers = "ETag" ∷ "X-Request-Id" ∷ [];
  vary = "Origin";
}

unfoldable pub allowed : List Text → Text → Option CorsHeaders
allowed origins origin =
    if not (is_empty origin) && any (text_eq origin) origins
    then some (headers_for origin)
    else none

abbrev pub with_cors :
    Option CorsHeaders → Answer Body × World → (Option CorsHeaders × Answer Body) × World
with_cors headers (answer, w) = ((headers, answer), w)

-- `cors`: a request with the method OPTIONS goes no further.
unfoldable pub cors :
    List Text
    → HttpRequest
    → (World → Answer Body × World)
    → World
    → (Option CorsHeaders × Answer Body) × World
cors origins q next w =
    with_cors (allowed origins q.origin)
      (if q.is_options then answered (write_status 204, w) else next w)

-- `RequestID`.
abbrev pub request_id_of : Deps → HttpRequest → World → Text
request_id_of d q w = if is_empty q.request_id then d.new_request_id w.calls else q.request_id

abbrev pub with_request_id : Text → (Option CorsHeaders × Answer Body) × World → Response × World
with_request_id id ((headers, answer), w) =
    (record { request_id = id; cors_headers = headers; answer = answer }, w)

unfoldable pub public_router : Deps → HttpRequest → World → Response × World
public_router d q w = with_request_id (request_id_of d q w) (cors d.cors_origins q (routes d q) w)
