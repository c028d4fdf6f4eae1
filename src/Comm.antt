-- ===== src/Comm.antt =====
-- `CacicComm` (src/cacic_comm.cpp): a request to the manager, the login and the download of a file.
pub mod Laws
pub mod Download
use Prim.Native.String.{len}
use text.Mathlib.Text.{find?, get?}
use cacic_agente.Base.{
  ℕ, ◌+◌, ◌-◌, Bool, true, false, ◌||◌, String, ◌<>◌, ◌===◌, Option, none, some, List, [], ◌∷◌, leb,
  ltb, if◌then◌else◌, is_empty, ends_with, contains, base_name, ℤ, at_least, is_some,
}
use cacic_agente.Json.{
  Json, null, bool, str, obj, Object, end, field, insert, value, to_object, to_string,
  is_empty_object,
}
use cacic_agente.Log.{Level}
use cacic_agente.Machine.{Machine, Request, Reply, Body, form, json, nothing}
use cacic_agente.World.{World, M, ok, exit, Result, ◌>>=◌, ◌>>◌, pure, write_log}
use cacic_agente.World.Route

-- The fields of a `CacicComm` that a request reads. `form_params` is empty unless the long
-- constructor was called.
pub record Comm : Type 0 where
  pub manager_url : String
  pub ssl_url : String
  pub form_params : String
  pub user : String
  pub password : String
  pub ftp_user : String
  pub ftp_password : String
  pub session : String

abbrev pub new_comm : Comm
new_comm = record {
  manager_url = "";
  ssl_url = "";
  form_params = "";
  user = "";
  password = "";
  ftp_user = "";
  ftp_password = "";
  session = "";
}

abbrev pub slice : String → ℕ → ℕ → String
slice s a b = elim (get? s a b) [ none ↦ "" | some t ↦ t ]

abbrev after_scheme : String → String
after_scheme s = elim (find? s "://") [ none ↦ s | some i ↦ slice s (i + 3) (len s) ]

-- `CacicComm::setUrlGerente`: the scheme and one final slash go.
unfoldable pub set_manager_url : String → Comm → Comm
set_manager_url s c =
    let t = after_scheme s in
    record c { manager_url = if ends_with t "/" then slice t 0 (len t - 1) else t }

-- What `comm` makes of the address.
unfoldable pub request_url : Comm → String → Bool → String
request_url c route ssl =
    if ssl
    then (if is_empty c.ssl_url then "https://" <> c.manager_url <> route else c.ssl_url <> route)
    else "http://" <> c.manager_url <> route

abbrev body_of : Comm → Object → Body
body_of c o = if is_empty_object o then form c.form_params else json o

-- The request that `comm` makes.
abbrev pub request : Comm → String → Object → Bool → Request
request c route o ssl = record {
  url = request_url c route ssl;
  user = "";
  password = "";
  body = body_of c o;
}

module _ (m : Machine) where
  -- The object that `comm` returns for a reply: its status, and its content or its error.
  unfoldable pub reply_object : Reply m.Bytes → Object
  reply_object r =
      let status = insert "codestatus" (str r.status) end in
      elim r.failure [
        | some message ↦ insert "error" (str message) status
        | none ↦
            insert "reply"
              (elim (m.decode r.content) [ some o ↦ obj o | none ↦ str (m.as_text r.content) ])
              status
      ]

  -- The request goes out and is answered.
  unfoldable pub send : Request → M m (Bool × Object)
  send req w =
      let reply = m.post (req ∷ w.sent) in
      ok ((if is_some reply.failure then false else true), reply_object reply)
        (record w { sent = req ∷ w.sent })

  -- `CacicComm::comm`: whether it was answered without an error (`*ok`), and the object returned.
  unfoldable pub comm : Comm → String → Object → Bool → M m (Bool × Object)
  comm c route o ssl w =
      if ssl
      then (if m.valid_url (request_url c route ssl)
          then send (request c route o ssl) w
          else ok (false, insert "error" (str "Invalid Url") end) w)
      else send (request c route o ssl) w

  abbrev pub login_data : Comm → Object
  login_data c = insert "password" (str c.password) (insert "user" (str c.user) end)

  abbrev logged_in : Comm → Bool × Object → Bool × Object × Comm
  logged_in c (done, o) = (
    done,
    o,
    if done
        then record c { session = to_string (value "session" (to_object (value "reply" o))) }
        else c,
  )

  -- `CacicComm::login`
  unfoldable pub login : Comm → M m (Bool × Object × Comm)
  login c = do r ← comm c Route.get_login (login_data c) true; pure (logged_in c r)
