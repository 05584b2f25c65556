-- ===== src/Api/Authentication.antt =====
-- relops_hardware_controller/api/authentication.py, and `TaskclusterUser` of api/models.py.
pub mod Laws
use relops_hardware_controll.Prelude.{
  ℕ, String, ◌<>◌, ◌==◌, Bool, true, Option, none, some, List, [], lower, lookup, if◌then◌else◌,
}
use relops_hardware_controll.Effects.{
  Env, authentication_failed, Exn, exn, HawkPayload, HawkAnswer, hawk, M, pure, raise, ◌>>=◌,
  call_hawk,
}

-- What the code reads of a Django request.
pub record Request : Type 0 where
  pub method : String
  -- `path_info`, which Django has decoded
  pub path_info : String
  -- `get_full_path()`, which is encoded and has the query
  pub full_path : String
  pub host : String
  pub port : ℕ
  -- the keys of `META`
  pub authorization : Option String
  pub forwarded_proto : Option String
  pub http_origin : Option String
  -- `GET`, in the order of the query, where a key may stand more than once
  pub params : List (String × String)

pub record TaskclusterUser : Type 0 where
  pub client_id : String
  pub scopes : List String
  pub is_authenticated : Bool

-- `d.get(key, default)`
abbrev pub get_default : {A : Type 0} → Option A → A → A
get_default none default = default
get_default (some a) default = a

-- `request.META.get('HTTP_X_FORWARDED_PROTO') == 'https'`
unfoldable pub is_https : Option String → Bool
is_https none = Bool.false
is_https (some proto) = proto == "https"

unfoldable pub payload_of : Request → HawkPayload
unfolding lower is_https
payload_of request = record {
  method = lower request.method;
  resource = request.full_path;
  host = request.host;
  port = if is_https request.forwarded_proto then 443 else request.port;
  authorization = get_default request.authorization "";
}

abbrev pub refuse : String → M (Option TaskclusterUser)
refuse message = raise (exn authentication_failed message)

-- The tests on `status`, and the user.
unfoldable pub user_of_answer : HawkAnswer → M (Option TaskclusterUser)
user_of_answer answer = elim answer.status [
  | none ↦ refuse "'status' not found invalid auth response"
  | some status ↦
      if status == "auth-failed"
      then refuse (get_default answer.message "Unknown auth failure.")
      else if status == "auth-success"
      then pure (
          some (record {
            client_id = get_default answer.client_id "";
            scopes = get_default answer.scopes [];
            is_authenticated = true;
          }))
      else refuse
          ("invalid auth response status: " <> status <> " " <> get_default answer.message "")
]

-- The user of the pair; the second part is always `None`.
unfoldable pub authenticate : Env → Request → M (Option TaskclusterUser)
unfolding payload_of user_of_answer
authenticate env request =
    if request.method == "OPTIONS"
    then pure none
    else (call_hawk env (hawk (payload_of request)) >>= user_of_answer)
