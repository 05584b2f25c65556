-- ===== src/Celery/Task.antt =====
-- celery.py: `dns_lookup` and `celery_call_command`.
pub mod Laws
pub mod Start
use relops_hardware_controll.Prelude.{
  ℕ, String, ◌<>◌, Option, none, some, List, [], ◌∷◌, Bool, not, ◌==◌, starts_with, split, upper,
  take, contains, get_elem?, if◌then◌else◌,
}
use relops_hardware_controll.Effects.{
  Env, index_error, attribute_error, module_not_found, Exn, exn, Mail, dns, irc, Reply, returns,
  raises, M, pure, raise, ◌>>=◌, ◌>>◌, try◌except◌, when, call_unit, call_dns, get_level, put_level,
}
use relops_hardware_controll.Settings.{Settings}
use relops_hardware_controll.Job.{JobData, items, dumps}
use relops_hardware_controll.Commands.Runner.{Runner}
use relops_hardware_controll.Reboot.Handle.{reify}
use relops_hardware_controll.Celery.Username.{username}
use relops_hardware_controll.Celery.Notify.{
  Message, words, message_of, show_message, text_link_max, send_irc, send_mails,
}

-- The names in management/commands, which `load_command_class` can import.
abbrev pub command_modules : List String
command_modules =
    "file_bugzilla_bug" ∷ "ilo_reboot" ∷ "ipmi" ∷ "ipmitool" ∷ "ping" ∷ "reboot"
    ∷ "register_tc_actions" ∷ "snmp_reboot" ∷ "ssh_reboot" ∷ "xenapi_reboot" ∷ []

-- `'ipmi' if command.startswith('ipmi') else command`
unfoldable pub task_of : String → String
task_of command = if starts_with command "ipmi" then "ipmi" else command

-- `str(hostname).split('.')[3].upper()`
unfoldable pub datacenter_of : String → M String
unfolding split upper
datacenter_of hostname = elim (get_elem? (split b'.' hostname) 3) [
  | some label ↦ pure (upper label)
  | none ↦ raise (exn index_error "list index out of range")
]

unfoldable pub load_command_class : String → M (Unit {0})
load_command_class task = when (not (contains command_modules task)) (
    raise (
      exn module_not_found
        ("No module named 'relops_hardware_controller.api.management.commands." <> task <> "'")))

-- `str(ip)`
abbrev pub show_ip : Option String → String
show_ip none = "None"
show_ip (some ip) = ip

unfoldable pub subject_of : String → JobData → String → String
subject_of datacenter job command =
    datacenter <> " " <> job.worker_id <> "[" <> job.ip <> "] " <> command

-- `re.search(...).group(2)`
unfoldable pub username_of : JobData → M String
unfolding username
username_of job = elim (username job.client_id) [
  | some name ↦ pure name
  | none ↦ raise (exn attribute_error "'NoneType' object has no attribute 'group'")
]

unfoldable pub link_of : JobData → String
link_of job =
    job.http_origin <> "/provisioners/" <> job.provisioner_id <> "/worker-types/" <> job.worker_type
    <> "/workers/" <> job.worker_group <> "/" <> job.worker_id

unfoldable pub mail_of : Settings → String → Message → String → JobData → Mail
unfolding link_of take show_message
mail_of settings subject message start_time job = record {
  subject = subject;
  address = settings.notify_email;
  content = show_message message <> "\n\n" <> start_time <> ": " <> job.client_id;
  template = "fullscreen";
  href = link_of job;
  link_text = take text_link_max (link_of job);
}

-- logging.CRITICAL
abbrev pub critical : ℕ
critical = 50

module _ (env : Env) where
  unfoldable pub dns_lookup : String → M (String × Option String)
  dns_lookup worker_id =
      try (call_dns env (dns worker_id) >>= λ (name, ip). pure (name, some ip)) except λ _.
      pure (worker_id, none)

  module _ (runner : Runner) (settings : Settings) where
    -- The notice of a request, which a ping does not give.
    unfoldable pub announce : String → String → String → M (Unit {0})
    announce task subject name = when (not (task == "ping")) (
        try call_unit env
          (irc settings.notify_irc_channel (subject <> " requested by " <> name <> " ..."))
        except λ _. pure tt)

    abbrev pub message_of_reply : Reply (Option String) → Message
    message_of_reply (returns output) = words (runner.written output)
    message_of_reply (raises e) = message_of e

    -- From the call of the command to the restored log level.
    unfoldable pub run_and_report :
        String → String → String → String → String → JobData → M (Unit {0})
    unfolding message_of mail_of send_irc send_mails
    run_and_report task hostname subject name start_time job = do
      reply ← reify (runner.call task (hostname ∷ dumps (items job) ∷ []))
      let message = message_of_reply reply
      log_level ← get_level env
      put_level critical
      send_mails env (mail_of settings subject message start_time job) name
      send_irc env settings.notify_irc_channel subject message
      put_level log_level

    -- Up to the command's call; `job_data['ip']` is set on the way.
    unfoldable pub celery_call_command : JobData → M (Unit {0})
    celery_call_command job_data = do
      let command = job_data.task_name
      let task = task_of command
      found ← dns_lookup job_data.worker_id
      datacenter ← datacenter_of found.0
      let job = record job_data { ip = show_ip found.1 }
      load_command_class task
      start_time ← (λ t. pure (env.utc_iso t) t)
      let subject = subject_of datacenter job command
      name ← username_of job
      announce task subject name
      run_and_report task found.0 subject name start_time job
