-- ===== src/Users/Routes.antt =====
-- `PublicRoutes` and `AuthedRoutes` of internal/users/handler.go: each endpoint with its decoded body.
use bluestaq_takehome.Httpx.{Request, Reply, Decoded, respond}
use bluestaq_takehome.Store.World.{World, M}
use bluestaq_takehome.Users.{
  Handler, RegisterRequest, LoginRequest, UpdateMeRequest, ChangePasswordRequest, Payload,
}
use bluestaq_takehome.Users.Endpoints.{
  register, login, me, update_me, change_password, delete_me, lookup,
}

pub data Call : Type 0 where
  me_call delete_me_call lookup_call : Call
  register_call : Decoded RegisterRequest → Call
  login_call : Decoded LoginRequest → Call
  update_me_call : Decoded UpdateMeRequest → Call
  change_password_call : Decoded ChangePasswordRequest → Call

unfoldable pub route : Handler → Request → Call → M (Reply Payload)
route h r me_call = me r
route h r delete_me_call = delete_me r
route h r lookup_call = lookup r
route h r (register_call b) = register h b
route h r (login_call b) = login h b
route h r (update_me_call b) = update_me r b
route h r (change_password_call b) = change_password h r b

unfoldable pub serve : Handler → Request → Call → World → Reply Payload × World
serve h r c = respond r (route h r c)
