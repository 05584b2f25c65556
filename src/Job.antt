-- ===== src/Job.antt =====
-- The dictionary `job_data` that the API queues, and that travels as JSON text.
pub mod RoundTrip
use relops_hardware_controll.Prelude.{String, Option, none, some, List, [], ◌∷◌}
use relops_hardware_controll.Json.Value.{Value, Fields, object, str, get}
use relops_hardware_controll.Json.Reader.{loads}
unfoldable pub use relops_hardware_controll.Json.Printer.{dumps}

-- The serializer's fields, and `ip`, which the worker adds.
pub record JobData : Type 0 where
  pub http_origin : String
  pub client_id : String
  pub provisioner_id : String
  pub worker_type : String
  pub worker_group : String
  pub worker_id : String
  pub task_name : String
  pub ip : String

-- The items in insertion order: the serializer's fields as declared, then `ip`.
abbrev pub items : JobData → List (String × String)
items d =
    ("http_origin", d.http_origin)
    ∷ ("client_id", d.client_id)
    ∷ ("provisioner_id", d.provisioner_id)
    ∷ ("worker_type", d.worker_type)
    ∷ ("worker_group", d.worker_group)
    ∷ ("worker_id", d.worker_id)
    ∷ ("task_name", d.task_name)
    ∷ ("ip", d.ip)
    ∷ []

abbrev pub text_of : Option Value → Option String
text_of (some (str s)) = some s
text_of _ = none

infixl 5 ◌>>=◌
abbrev ◌>>=◌ : {A B : Type 0} → Option A → (A → Option B) → Option B
none >>= f = none
some a >>= f = f a

-- The job that a dictionary describes, if it has all the keys, with texts.
unfoldable pub job_of : Fields → Option JobData
unfolding get
job_of fields = do
  http_origin ← text_of (get "http_origin" fields)
  client_id ← text_of (get "client_id" fields)
  provisioner_id ← text_of (get "provisioner_id" fields)
  worker_type ← text_of (get "worker_type" fields)
  worker_group ← text_of (get "worker_group" fields)
  worker_id ← text_of (get "worker_id" fields)
  task_name ← text_of (get "task_name" fields)
  ip ← text_of (get "ip" fields)
  some (record {
    http_origin = http_origin;
    client_id = client_id;
    provisioner_id = provisioner_id;
    worker_type = worker_type;
    worker_group = worker_group;
    worker_id = worker_id;
    task_name = task_name;
    ip = ip;
  })

-- `parser.add_argument('job_data', type=json.loads)`
unfoldable pub parse_job : String → Option JobData
unfolding job_of loads
parse_job text = elim (loads text) [ some (object fields) ↦ job_of fields | _ ↦ none ]
