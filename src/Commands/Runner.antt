-- ===== src/Commands/Runner.antt =====
-- Django's `call_command(load_command_class('relops_hardware_controller.api', name), *args)`, as an
-- interface of the commands that call others.
use relops_hardware_controll.Prelude.{String, Option, List}
use relops_hardware_controll.Effects.{Trace, M}
use relops_hardware_controll.Effects.Laws.{Finishes}
use relops_hardware_controll.Effects.Growth.{Grows}

pub record Runner : Type 0 where
  -- Finds the class, parses the arguments, runs `handle` and gives what it returned.
  pub call : String → List String → M (Option String)
  -- What `BaseCommand.execute` writes to the command's `stdout` for a returned value.
  pub written : Option String → String

-- A called command ends, and does not undo calls that were made.
pub record IsSound (runner : Runner) : Type 0 where
  pub grows : (name : String) (args : List String) → Grows (runner.call name args)
  pub finishes :
      (name : String) (args : List String) (t : Trace) → Finishes (runner.call name args t).0
