-- ===== src/Job/RoundTrip.antt =====
-- The job's way from the worker to a command: JSON text, read by the command's parser.
use relops_hardware_controll.Prelude.{◌≡◌, some}
use relops_hardware_controll.Json.RoundTrip.{loads-dumps}
use relops_hardware_controll.Job.{JobData, items, dumps, job_of, parse_job}

-- Whatever texts the job holds, the command gets the job that the worker has.
pub parse_job-dumps : (job : JobData) → parse_job (dumps (items job)) ≡ some job
unfolding parse_job job_of
parse_job-dumps job = rw (loads-dumps (items job), parse_job)
