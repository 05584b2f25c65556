-- ===== src/Commands/FileBugzillaBug/Laws/Success.antt =====
-- What a success of relops_hardware_controller/api/management/commands/file_bugzilla_bug.py means.
use relops_hardware_controll.Commands.FileBugzillaBug.Laws.Inversion.{call_http-eq-ok}
use relops_hardware_controll.Commands.FileBugzillaBug.Laws.Quiet.{label-IsQuiet}
use relops_hardware_controll.Commands.FileBugzillaBug.Laws.Tracked.{Tracked, find_tracker-Tracked}
use relops_hardware_controll.Commands.FileBugzillaBug.Laws.Written.{Written, reboot_payload-Written}
use relops_hardware_controll.Commands.FileBugzillaBug.Laws.Reported.{
  Listed, Made, find_or_file_bug-eq-ok,
}
use relops_hardware_controll.Prelude.{
  ◌≡◌, ◌⊎◌, sym, ap, subst, ◌∙◌, String, ◌<>◌, ◌∷◌, ◌++◌, length, ◌≤◌,
}
use relops_hardware_controll.Json.Value.{
  Value, object, array, no_items, item, Fields, no_fields, field,
}
use relops_hardware_controll.Settings.{Settings}
use relops_hardware_controll.Effects.{Env, Trace, ok, HttpCall, http_put, http, call_http}
use relops_hardware_controll.Effects.Laws.{continue-eq-ok, pure-eq-ok}
use relops_hardware_controll.Commands.FileBugzillaBug.{
  Python, Options, Host, url_of, basic_payload, show_value, update, label, find_or_file_bug,
  find_tracker, reboot_payload, host_of, blocking, confirm, message_of, handle,
}

module _ (python : Python) (env : Env) (settings : Settings) where
  host_of-eq-ok :
      (hostname : String) (host : Host) (t u : Trace)
      → host_of settings hostname t ≡ (ok host, u)
      → u ≡ t
  unfolding host_of
  host_of-eq-ok hostname host t u h =
      let (a, s, first, h₁) = continue-eq-ok (label hostname 0 t) _ h in
      let (b, s₁, second, h₂) = continue-eq-ok (label hostname 3 s) _ h₁ in
      let at : s ≡ t = sym (ap (λ r. r.1) first) ∙ (label-IsQuiet hostname 0 t).0 in
      let at₁ : s₁ ≡ s = sym (ap (λ r. r.1) second) ∙ (label-IsQuiet hostname 3 s).0 in
      let (_, at₂) = pure-eq-ok _ host s₁ u h₂ in at₂ ∙ at₁ ∙ at

  -- The update of a bug that says that it blocks the tracker.
  abbrev pub blocking_call : Value → Value × Fields → HttpCall
  blocking_call parent bug = http_put (url_of settings (show_value python bug.0)) (
      update (basic_payload settings) (
        update
          (field "blocks" (object (field "add" (array (item parent no_items)) no_fields)) no_fields)
          bug.1))

  confirm-eq-ok :
      (parent : Value) (bug : Value × Fields) (message : String) (t u : Trace)
      → confirm python env settings parent bug t ≡ (ok message, u)
      → (message ≡ settings.bugzilla_url <> "/show_bug.cgi?id=" <> show_value python bug.0)
        × (u ≡ http (blocking_call parent bug) ∷ t)
  unfolding confirm blocking
  confirm-eq-ok parent bug message t u h =
      let put = blocking_call parent bug in
      let (answer, s, called, h₁) = continue-eq-ok (call_http env put t) _ h in
      let (at, _) = call_http-eq-ok env put answer t s called in
      let (gave, at₁) = pure-eq-ok (message_of python env settings bug.0) message s u h₁ in
      (gave, at₁ ∙ at)

  -- What is done for the command's arguments. The tracker of the host is looked up, or made; the text
  -- of the bug is the template, filled in with it. The bug is the first of the search's answer, and
  -- gets a comment, or the one that an accepted report of the text has made, behind one failed call
  -- at most. Then the last call says that it blocks the tracker, and the message has its address.
  pub record Filed (hostname : String) (job_data : Value) (options : Options) (message : String)
      (t u : Trace) : Type 0 where
    pub host : Host
    pub named : host_of settings hostname t ≡ (ok host, t)
    pub parent : Value
    pub tracked_at : Trace
    pub tracked : Tracked python env settings host parent t tracked_at
    pub payload : String
    pub written : Written python env settings host parent job_data options payload
    pub bug : Value × Fields
    pub filed_at : Trace
    pub filed :
        Listed python env settings payload bug tracked_at filed_at
        ⊎ ((failed : Trace) × (length failed ≤ 1)
            × Made python env settings payload bug (failed ++ tracked_at) filed_at)
    pub shown : message ≡ settings.bugzilla_url <> "/show_bug.cgi?id=" <> show_value python bug.0
    pub blocks : u ≡ http (blocking_call parent bug) ∷ filed_at

  -- When the command returns a message, it is the address of a bug that the answer to the search lists
  -- first, or that a report with an accepted answer has made, by the text that the template gives for
  -- the host, the job and the tracker. The tracker is the bug that the lookup or the report of one
  -- gave. The last call, made right after the bug's answer, marks the bug as blocking that tracker,
  -- with the text's description as a comment only for a listed bug.
  pub handle-Filed :
      (hostname : String) (job_data : Value) (options : Options) (message : String) (t u : Trace)
      → handle python env settings hostname job_data options t ≡ (ok message, u)
      → Filed hostname job_data options message t u
  unfolding handle
  handle-Filed hostname job_data options message t u h =
      let (host, s, named, h₁) = continue-eq-ok (host_of settings hostname t) _ h in
      let (parent, s₁, tracked, h₂) =
        continue-eq-ok (find_tracker python env settings host s) _ h₁ in
      let (payload, s₂, written, h₃) =
        continue-eq-ok (reboot_payload python env settings host parent job_data options s₁) _ h₂ in
      let (bug, s₃, found, h₄) =
        continue-eq-ok (find_or_file_bug python env settings payload s₂) _ h₃ in
      let at : s ≡ t = host_of-eq-ok hostname host t s named in
      let (is_written, at₁) =
        reboot_payload-Written python env settings host parent job_data options payload s₁ s₂
          written in
      let (gave, last) = confirm-eq-ok parent bug message s₃ u h₄ in
      record {
        host = host;
        named = named ∙ ap (λ s. (ok host, s)) at;
        parent = parent;
        tracked_at = s₁;
        tracked =
            subst (λ s. Tracked python env settings host parent s s₁) at
              (find_tracker-Tracked python env settings host parent s s₁ tracked);
        payload = payload;
        written = is_written;
        bug = bug;
        filed_at = s₃;
        filed =
            find_or_file_bug-eq-ok python env settings payload bug s₁ s₃
              (ap (λ s. find_or_file_bug python env settings payload s) (sym at₁) ∙ found);
        shown = gave;
        blocks = last;
      }
