-- ===== src/Api/Serializers.antt =====
-- relops_hardware_controller/api/serializers.py
use relops_hardware_controll.Prelude.{
  String, count, Bool, not, ◌&&◌, List, leb, eqb, contains, starts_with, all_chars, chomp, is_empty,
}
use relops_hardware_controll.Job.{JobData}

-- `^(mozilla.*)$`
unfoldable pub matches_client_id : String → Bool
unfolding all_chars chomp is_empty
matches_client_id s = starts_with s "mozilla" && all_chars (λ c. not (eqb c 10)) (chomp s)

-- `^(a|b|...)$` for the names of TASK_NAMES, which hold no special characters.
unfoldable pub matches_task_name : List String → String → Bool
unfolding chomp is_empty
matches_task_name task_names s = contains task_names (chomp s)

-- What the fields of `JobSerializer` ask of the validated data: the two expressions, and the bounds
-- on the length of a worker id.
unfoldable pub fields_hold : List String → JobData → Bool
unfolding matches_client_id matches_task_name
fields_hold task_names d =
    matches_client_id d.client_id
    && matches_task_name task_names d.task_name
    && leb 1 (count d.worker_id)
    && leb (count d.worker_id) 128
