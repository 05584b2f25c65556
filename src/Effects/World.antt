-- ===== src/Effects/World.antt =====
-- Exceptions, calls to the outside and the outside's answers.
use relops_hardware_controll.Prelude.{ℕ, String, Bool, Option, List}
use relops_hardware_controll.Job.{JobData}
use relops_hardware_controll.Json.Value.{Value, Fields}

-- The exception classes that the source raises, catches by name, or prints by name.
pub data ExnClass : Type 0 where
  soft_time_limit key_error index_error attribute_error type_error not_implemented : ExnClass
  validation_error command_error called_process timeout_expired : ExnClass
  authentication_failed module_not_found exception : ExnClass
  other : String → ExnClass

-- `e.__class__.__name__`
unfoldable pub class_name : ExnClass → String
class_name soft_time_limit = "SoftTimeLimitExceeded"
class_name key_error = "KeyError"
class_name index_error = "IndexError"
class_name attribute_error = "AttributeError"
class_name type_error = "TypeError"
class_name not_implemented = "NotImplementedError"
class_name validation_error = "ValidationError"
class_name command_error = "CommandError"
class_name called_process = "CalledProcessError"
class_name timeout_expired = "TimeoutExpired"
class_name authentication_failed = "AuthenticationFailed"
class_name module_not_found = "ModuleNotFoundError"
class_name exception = "Exception"
class_name (other name) = name

-- The attribute `e.output`: missing, `None` or a text.
pub data Output : Type 0 where
  absent null : Output
  text : String → Output

pub record Exn : Type 0 where
  pub cls : ExnClass
  pub message : String
  pub output : Output

-- An exception without the attribute `output`.
abbrev pub exn : ExnClass → String → Exn
exn c s = record { cls = c; message = s; output = absent }

-- The payload of `notify.email`.
pub record Mail : Type 0 where
  pub subject : String
  pub address : String
  pub content : String
  pub template : String
  pub href : String
  pub link_text : String

-- The calls of hpilo's client.
pub data IloCall : Type 0 where
  connect : (hostname login password : String) (timeout : ℕ) → IloCall
  get_host_power_status reset_server : IloCall
  set_host_power : Bool → IloCall

-- The calls of a XenAPI session.
pub data XenCall : Type 0 where
  new_session : (uri : String) → XenCall
  login_with_password : (username password : String) → XenCall
  logout : XenCall
  get_by_uuid clean_shutdown hard_shutdown : String → XenCall
  start : (vm : String) (start_paused force : Bool) → XenCall

-- The payload of taskcluster's `authenticateHawk`, and the keys of its answer that are read.
pub record HawkPayload : Type 0 where
  pub method : String
  pub resource : String
  pub host : String
  pub port : ℕ
  pub authorization : String

pub record HawkAnswer : Type 0 where
  pub client_id : Option String
  pub status : Option String
  pub message : Option String
  pub scopes : Option (List String)

-- `requests.get`, `requests.put` and `requests.post`, with the arguments `params`, `json` and `data`
-- of the source's calls. Of a key that `Fields` has twice the last value counts.
pub data HttpCall : Type 0 where
  http_get : (url : String) (params json : Fields) → HttpCall
  http_put : (url : String) (json : Fields) → HttpCall
  http_post : (url body : String) → HttpCall

-- An action for `declareProvisioner`; the context is `worker-type`, the method is POST.
pub record TaskAction : Type 0 where
  pub name : String
  pub title : String
  pub url : String
  pub description : String

pub data Event : Type 0 where
  hawk : HawkPayload → Event
  -- `celery_call_command.delay(job_data)`
  delay : JobData → Event
  -- `subprocess.check_output` of an argument vector, and of a shell's command line
  process : (argv : List String) (timeout : ℕ) → Event
  shell : (command : String) (timeout : ℕ) → Event
  sleep : (seconds : ℕ) → Event
  dns : (name : String) → Event
  irc : (channel message : String) → Event
  email : Mail → Event
  set_level : (level : ℕ) → Event
  http : HttpCall → Event
  declare_provisioner : (provisioner_id : String) (actions : List TaskAction) → Event
  -- `get_redis_connection(alias)`, and `connection.info()`
  redis_connection : (alias : String) → Event
  redis_info : Event
  ilo : IloCall → Event
  xen : XenCall → Event

-- All calls so far, the latest first.
abbrev pub Trace : Type 0
Trace = List Event

-- What an outside call gives.
pub data Reply (A : Type 0) : Type 0 where
  returns : A → Reply A
  raises : Exn → Reply A

-- An answer of `requests`: what its methods `raise_for_status` and `json` give.
pub record HttpAnswer : Type 0 where
  pub raise_for_status : Reply (Unit {0})
  pub json : Reply Value

-- The outside. A reply may depend on the whole past; the call itself is the trace's head.
pub record Env : Type 0 where
  pub unit_reply : Trace → Reply (Unit {0})
  pub text_reply : Trace → Reply String
  pub hawk_reply : Trace → Reply HawkAnswer
  pub http_reply : Trace → Reply HttpAnswer
  -- the canonical name and the first address of a DNS answer
  pub dns_reply : Trace → Reply (String × String)
  -- `time.time()`, in microseconds
  pub now : Trace → ℕ
  -- django.core.validators
  pub validate_ipv46_address : String → Reply (Unit {0})
  -- the root logger's level before the first `setLevel`
  pub first_level : ℕ
  -- `datetime.utcnow()` as `isoformat()` and as `strftime("%H:%M:%S")`
  pub utc_iso : Trace → String
  pub utc_hms : Trace → String
  -- `'{:.3g}'.format(end - start)` of two such times, in seconds
  pub three_digits : (start end : ℕ) → String
