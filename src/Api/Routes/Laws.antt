-- ===== src/Api/Routes/Laws.antt =====
-- The paths of the job list, and the worker ids in them.
use relops_hardware_controll.Prelude.{
  ◌≡◌, refl, ap, ◌∙◌, ◌↔◌, ◌⊎◌, inl, inr, ◌≤◌, ℕ, String, ◌<>◌, count, Bool, true, ◌==◌, ◌&&◌, leb,
  some, all_chars, strip_prefix, span, Bool-cases, Option-cases, eq_iff, arith,
}
use relops_hardware_controll.Prelude.Scan.{
  strip_prefix-eq-some, strip_prefix-append, Stops, span-Spanned, span-append,
}
use relops_hardware_controll.Api.Routes.{is_worker_char, is_jobs, jobs_of, job_list, route}

-- What may stand behind the worker id.
abbrev pub IsJobs : String → Type 0
IsJobs rest = (rest ≡ "/jobs") ⊎ (rest ≡ "/jobs\n")

-- The path is the one that is documented for the worker id, with 1 to 128 characters of the class.
pub record IsRoute (path worker_id : String) : Type 0 where
  pub jobs : String
  pub whole : path ≡ "api/v1/" <> "workers/" <> worker_id <> jobs
  pub behind : IsJobs jobs
  pub spelled : all_chars is_worker_char worker_id ≡ true
  pub not_empty : 1 ≤ count worker_id
  pub short : count worker_id ≤ 128

is_jobs-IsJobs : (rest : String) → is_jobs rest ≡ true → IsJobs rest
unfolding is_jobs
is_jobs-IsJobs rest h = elim (Bool-cases (rest == "/jobs")) [
  | inl same ↦ inl ((eq_iff rest _).0 same)
  | inr other ↦ inr ((eq_iff rest _).0 (rw other at h))
]

IsJobs-Stops : (rest : String) → IsJobs rest → Stops is_worker_char rest × (is_jobs rest ≡ true)
unfolding Stops is_worker_char is_jobs
IsJobs-Stops rest (inl e) = rw e (refl, refl)
IsJobs-Stops rest (inr e) = rw e (refl, refl)

fits : (n : ℕ) (b : Bool) → (leb 1 n && leb n 128 && b) ≡ true → (1 ≤ n) × (n ≤ 128) × (b ≡ true)
fits n b h = ground arith

jobs_of-IsRoute :
    (s worker_id : String)
    → jobs_of s ≡ some worker_id
    → IsRoute ("api/v1/" <> "workers/" <> s) worker_id
unfolding jobs_of
jobs_of-IsRoute s worker_id h =
    let spanned = span-Spanned is_worker_char s in
    let n = count (span is_worker_char s).0 in
    let b = is_jobs (span is_worker_char s).1 in
    elim (Bool-cases (leb 1 n && leb n 128 && b)) [
      | inr bad ↦ ground arith
      | inl good ↦
          let (more, less, jobs) = fits n b good in
          let same : (span is_worker_char s).0 ≡ worker_id = ground arith in
          rw (← same) (record {
            jobs = (span is_worker_char s).1;
            whole = ap (λ r. "api/v1/" <> "workers/" <> r) spanned.whole;
            behind = is_jobs-IsJobs _ jobs;
            spelled = spanned.passed;
            not_empty = more;
            short = less;
          })
    ]

jobs_of-append :
    (worker_id jobs : String)
    → IsJobs jobs
    → all_chars is_worker_char worker_id ≡ true
    → 1 ≤ count worker_id
    → count worker_id ≤ 128
    → jobs_of (worker_id <> jobs) ≡ some worker_id
unfolding jobs_of
jobs_of-append worker_id jobs behind spelled more less =
    let (stops, ends) = IsJobs-Stops jobs behind in
    rw (span-append is_worker_char worker_id jobs spelled stops, ends) (ground arith)

route-IsRoute : (path worker_id : String) → route path ≡ some worker_id → IsRoute path worker_id
unfolding route job_list
route-IsRoute path worker_id h = elim (Option-cases (strip_prefix "api/v1/" path)) [
  | inl no_api ↦ let h' = rw (no_api, route) at h in ground arith
  | inr (s, api) ↦ elim (Option-cases (strip_prefix "workers/" s)) [
    | inl no_workers ↦ let h' = rw (api, route, no_workers, job_list) at h in ground arith
    | inr (r, workers) ↦
        rw (strip_prefix-eq-some "api/v1/" path s api, strip_prefix-eq-some "workers/" s r workers)
          (jobs_of-IsRoute r worker_id (rw (api, route, workers, job_list) at h))
  ]
]

IsRoute-route : (path worker_id : String) → IsRoute path worker_id → route path ≡ some worker_id
unfolding route job_list
IsRoute-route path worker_id r =
    let rest = worker_id <> r.jobs in
    ap route r.whole
    ∙ rw
        (
          strip_prefix-append "api/v1/" ("workers/" <> rest),
          route,
          strip_prefix-append "workers/" rest,
          job_list,
        )
        (jobs_of-append worker_id r.jobs r.behind r.spelled r.not_empty r.short)

-- A path is given to the job list of a worker exactly if it is `api/v1/workers/`, the worker's id,
-- which has 1 to 128 letters, digits, dashes and underscores, and `/jobs`, which one line feed may
-- follow.
pub route_iff : (path worker_id : String) → (route path ≡ some worker_id) ↔ IsRoute path worker_id
route_iff path worker_id = (route-IsRoute path worker_id, IsRoute-route path worker_id)
