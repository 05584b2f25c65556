-- ===== src/Dispatch/Worker.antt =====
-- What the calls of the worker run (celery.py).
use relops_hardware_controll.Prelude.{
  ◌≡◌, refl, sym, ap, ◌∙◌, String, split, contains, get_elem?, some, true, [], ◌∷◌, Option, All,
}
use relops_hardware_controll.Argparse.{text_at, number_at, json_at}
use relops_hardware_controll.Argparse.Laws.{IsWord, IsOptional}
use relops_hardware_controll.Settings.{Settings}
use relops_hardware_controll.Effects.{Env, Trace, returns, ok, dns, M}
use relops_hardware_controll.Job.{JobData, items, dumps, job_of}
use relops_hardware_controll.Commands.Runner.{Runner}
use relops_hardware_controll.Commands.Arguments.{ping_options}
use relops_hardware_controll.Commands.Ping
use relops_hardware_controll.Commands.Ipmi
use relops_hardware_controll.Reboot.Handle
use relops_hardware_controll.Effects.Clock.{IsSteady}
use relops_hardware_controll.Celery.Username.{username}
use relops_hardware_controll.Celery.Task.{command_modules, task_of, celery_call_command}
use relops_hardware_controll.Celery.Task.Start.{celery_call_command_total}
use relops_hardware_controll.Dispatch.{
  Host, find_command, with_text, the_job, run, run_parsed, run_command, call_found, call_command,
  nothing, commands,
}
use relops_hardware_controll.Dispatch.Reaches.{dumps-IsWord, parse_ping_plain, parse_reboot}
use relops_hardware_controll.Dispatch.Calls.{calls_ipmi}
use relops_hardware_controll.Dispatch.Laws.{commands-IsSound}
use relops_hardware_controll.Dispatch.Layers.{commands-layers}

module _ (host : Host) (env : Env) (settings : Settings) where
  abbrev all_commands : Runner
  all_commands = commands host env settings

  abbrev called_on : Runner → String → String → JobData → M (Option String)
  called_on runner name hostname job =
      call_command host env settings runner name (hostname ∷ dumps (items job) ∷ [])

  call_ping :
      (runner : Runner) (hostname : String) (job : JobData)
      → All IsOptional host.options
      → IsWord hostname
      → called_on runner "ping" hostname job
        ≡ with_text (Ping.handle env hostname Ping.default_options)
  unfolding call_command find_command call_found run_command run_parsed run ping_options text_at
      number_at
  call_ping runner hostname job optional h =
      rw (parse_ping_plain host.options optional hostname (dumps (items job)) h (dumps-IsWord job))
        refl

  call_reboot :
      (runner : Runner) (hostname : String) (job : JobData)
      → All IsOptional host.options
      → IsWord hostname
      → called_on runner "reboot" hostname job
        ≡ with_text (Handle.handle env runner settings hostname job)
  unfolding call_command find_command call_found run_command run_parsed run text_at json_at the_job
      job_of
  call_reboot runner hostname job optional h =
      rw (parse_reboot host.options optional hostname job h) refl

  -- The worker calls a command with the name of the host and the JSON text of the job. When the name
  -- does not begin with a dash and Django requires none of its own options, `ping` is run for the host
  -- with the defaults, `reboot` for the job that the worker has, with the same dispatch for the
  -- commands that it calls, and `ipmi` with the JSON text as the command's name.
  pub worker_calls :
      (hostname : String) (job : JobData)
      → All IsOptional host.options
      → IsWord hostname
      → (all_commands.call "ping" (hostname ∷ dumps (items job) ∷ [])
          ≡ with_text (Ping.handle env hostname Ping.default_options))
        × (all_commands.call "reboot" (hostname ∷ dumps (items job) ∷ [])
            ≡ with_text (Handle.handle env all_commands settings hostname job))
        × (all_commands.call "ipmi" (hostname ∷ dumps (items job) ∷ [])
            ≡ Ipmi.handle all_commands settings.worker_config hostname (dumps (items job)))
  worker_calls hostname job optional h =
      let step = sym (commands-layers host env settings (nothing host env settings).call).1 in
      let args = hostname ∷ dumps (items job) ∷ [] in
      (
        ap (λ (runner : Runner). runner.call "ping" args) step
            ∙ call_ping all_commands hostname job optional h,
        ap (λ (runner : Runner). runner.call "reboot" args) step
            ∙ call_reboot all_commands hostname job optional h,
        ap (λ (runner : Runner). runner.call "ipmi" args) step
            ∙ calls_ipmi host env settings all_commands optional hostname (dumps (items job)) h
                (dumps-IsWord job),
      )

  -- With a steady clock and the dispatched commands, a job whose host name is resolved and has four
  -- labels or more, whose task has a module and whose client id is accepted is done.
  dispatched_total :
      (job : JobData) (hostname ip label name : String) (t : Trace)
      → IsSteady env
      → env.dns_reply (dns job.worker_id ∷ t) ≡ returns (hostname, ip)
      → get_elem? (split b'.' hostname) 3 ≡ some label
      → contains command_modules (task_of job.task_name) ≡ true
      → username job.client_id ≡ some name
      → (u : Trace) × (celery_call_command env all_commands settings job t ≡ (ok tt, u))
  dispatched_total job hostname ip label name t steady =
      celery_call_command_total env all_commands settings job hostname ip label name t
        (commands-IsSound host env steady settings)
