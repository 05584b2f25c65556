-- ===== src/Api/Routes.antt =====
-- relops_hardware_controller/urls.py and relops_hardware_controller/api/urls.py: the routes.
pub mod Laws
use relops_hardware_controll.Prelude.{
  ℕ, String, count, List, [], ◌∷◌, Bool, ◌&&◌, ◌||◌, ◌==◌, leb, eqb, Option, none, some,
  strip_prefix, span, if◌then◌else◌,
}

-- A named pattern: its expression, and the names of the expression's groups.
pub record Pattern : Type 0 where
  pub name : String
  pub expression : String
  pub groups : List String

abbrev pub job_list_pattern : Pattern
job_list_pattern = record {
  name = "JobList";
  expression = "^workers/(?P<worker_id>[-_0-9a-zA-Z]{1,128})/jobs$";
  groups = "worker_id" ∷ [];
}

-- The class `[-_0-9a-zA-Z]`.
unfoldable pub is_worker_char : ℕ → Bool
is_worker_char c =
    eqb c b'-'
    || eqb c b'_'
    || (leb b'0' c && leb c b'9')
    || (leb b'a' c && leb c b'z')
    || (leb b'A' c && leb c b'Z')

-- `/jobs$`, where `$` also matches before a final line feed.
unfoldable pub is_jobs : String → Bool
is_jobs rest = rest == "/jobs" || rest == "/jobs\n"

-- `^(?P<worker_id>[...]{1,128})/jobs$`: no character of the class is a slash, so the run of them is
-- the worker id.
unfoldable pub jobs_of : String → Option String
unfolding span is_worker_char is_jobs
jobs_of s =
    let (worker_id, rest) = span is_worker_char s in
    if leb 1 (count worker_id) && leb (count worker_id) 128 && is_jobs rest
    then some worker_id
    else none

unfoldable pub job_list : String → Option String
unfolding strip_prefix jobs_of
job_list path = elim (strip_prefix "workers/" path) [ some s ↦ jobs_of s | none ↦ none ]

-- The worker id of a path without its first slash, for which `queue_job` is called.
unfoldable pub route : String → Option String
unfolding strip_prefix job_list
route path = elim (strip_prefix "api/v1/" path) [ some s ↦ job_list s | none ↦ none ]
