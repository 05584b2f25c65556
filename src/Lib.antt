-- ===== src/Lib.antt =====
-- The release operations controller ("roller"): an HTTP API that queues jobs on machines, a worker
-- that runs them, and the commands that ping, reboot and power cycle a machine.
--
-- How a request goes: `queue_job` (relops_hardware_controller/api/views.py) authenticates it with
-- Taskcluster, checks scopes and data, and queues `celery_call_command`
-- (relops_hardware_controller/celery.py). The worker looks the machine up, announces the job, calls
-- the command of the task's name, and sends the result by mail and IRC. `reboot`
-- (relops_hardware_controller/api/management/commands/reboot.py) calls the other commands in the
-- order of REBOOT_METHODS until one is seen to cycle the machine's power.
--
-- The parts:
-- - Prelude: shared names, Boolean tests, lists, texts (`split`, `replace`, `lower`, ...), and Scan for
--   reading a text from the front.
-- - Effects: the world. A program of type `M A` maps the trace of all calls so far, the latest
--   first, to an outcome and the trace behind it. An outcome is a result, an exception or `pending`
--   (a loop used up its rounds, which stands for no behaviour of the source). `Env` gives
--   what the outside answers to a call, as a function of the whole trace: processes, DNS, Notify,
--   Taskcluster, Bugzilla, hpilo, XenAPI, and the clock.
-- - Settings: relops_hardware_controller/settings.py; the parsed WORKER_CONFIG file is an argument.
--   Classes has the configurations Dev, Prod and Test, Services the class Celery and the caches.
-- - Json: Python's `json`, as far as the source uses it: values, the writer `dumps` for dictionaries
--   of texts and the reader `loads`. A number is kept as its literal; an escape of a lone surrogate,
--   which no text of the model holds, is refused.
-- - Template: `string.Template.safe_substitute`.
-- - Job: the dictionary that travels from the API to the commands, its JSON text, and how a command
--   reads it.
-- - Validators: relops_hardware_controller/api/validators.py.
-- - Commands: relops_hardware_controller/api/management/commands, one module for each command, with
--   the defaults of its arguments. Commands.Runner is the interface of Django's `call_command`, by
--   which `reboot`, `ipmi` and the worker call other commands; Dispatch fills it, and Tests.Sample has
--   a small one. Arguments has what every command's `add_arguments` declares, and the options that
--   `handle` gets of the parsed values.
--   FileBugzillaBug has the host's names and the URLs in Setup, the tracker bug in Tracker, the bug
--   about the host in Report, and Python's operations on JSON values in Values. What Django,
--   `requests` and Python's `str` give is in the parameters `Django`, `Env` and `Python`. Below its
--   Laws, Tracked, Written and Reported describe the tracker, the text and the bug by the answers,
--   and Filled the texts that the templates of the settings give.
--   What is relied on of Django's `reverse` is named in RegisterTcActions.Laws.Reversed.
-- - Reboot: reboot.py in Wait (`can_ping`, `wait_for_state`, `reboot_succeeded`), Methods (the part
--   of the loop's body in front of the call) and Handle (the call, the check, the handlers of
--   exceptions, the loop and the result). Handle.Rounds describes a round of the loop without the
--   code, by what was called and what came of it.
-- - Celery: celery.py in Search (the domains of the resolver), Username (the expression on the client
--   id), Notify (mails and IRC) and Task (`dns_lookup`, `celery_call_command`).
-- - Api: relops_hardware_controller/api in Authentication, Permissions, Decorators, Serializers and
--   Views. Django REST framework is the record `Framework`; Api.Views.Laws names what the source
--   relies on of it. The inner view has the user of the outer one, as Django REST framework wraps
--   one request around the other.
--   Routes has the expressions of relops_hardware_controller/urls.py and
--   relops_hardware_controller/api/urls.py, Server the view that a request's path leads to.
-- - Apps: relops_hardware_controller/apps.py.
-- - Argparse: Python's `argparse`, as far as the commands use it: how a text is read as an option or
--   a word, abbreviations, `--`, converted values, required options and the texts that are left.
-- - Dispatch: `call_command(load_command_class(...), ...)` over all commands: it finds the command,
--   parses the arguments and runs `handle`. `commands` is three layers of the same function, since
--   `reboot` calls `ipmi` and that calls `ipmitool`. Calls is about the calls of reboot.py, Words and
--   Tool about that of ipmi.py, Worker about those of celery.py. What Django gives (its own options,
--   the texts of errors, what is written of a returned value) is the record `Host`.
-- - Tests: runs on concrete inputs, in a small world that is written out.
--
-- Bounds: the polling loop of `wait_for_state` has `timeout + 1` rounds, which are enough since a
-- pause takes a second or more; the loop that sends a message in chunks has one round more than the
-- message has characters, and each chunk takes one or more; the reader of JSON has two rounds for each
-- character of the text and two more, and spends at most two on a value or a member, which has a
-- character or more. Numbers are natural numbers: timeouts, ports and delays below zero are not
-- modelled. Times are in microseconds.
--
-- Not modelled: the vendored XenAPI.py, whose calls are events; argparse's options for help and
-- version, and numbers below zero, which `int` reads and the model refuses; a call of `reboot` with
-- JSON text that is not the worker's dictionary of texts; logging except for the level, as it changes
-- nothing else; the time limit of Celery at a point between two calls; the start-up by Django, and the
-- settings that only Django reads.
pub mod Prelude
pub mod Effects
pub mod Settings
pub mod Validators
pub mod Commands
pub mod Job
pub mod Json
pub mod Argparse
pub mod Dispatch
pub mod Template
pub mod Reboot
pub mod Celery
pub mod Api
pub mod Apps
pub mod Tests
