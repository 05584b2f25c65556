-- ===== src/Celery/Notify.antt =====
-- celery.py: the message of a finished command, and how it is sent.
pub mod Laws
use relops_hardware_controll.Prelude.{
  ℕ, zero, suc, String, ◌<>◌, count, take, drop, replace, is_empty, Bool, if◌then◌else◌,
}
use relops_hardware_controll.Effects.{
  Env, key_error, attribute_error, Exn, exn, Output, absent, null, text, Mail, pending, M, pure,
  raise, ◌>>=◌, ◌>>◌, try◌except◌, irc, email, call_unit,
}

-- The variable `message`: a text, an exception without the attribute `output`, or `None`.
pub data Message : Type 0 where
  words : String → Message
  error : Exn → Message
  nothing : Message

-- The handlers of a failed command.
unfoldable pub message_of : Exn → Message
message_of e = elim e.cls [
  | key_error ↦ words ("Key error: " <> e.message)
  | _ ↦ elim e.output [ text s ↦ words s | null ↦ nothing | absent ↦ error e ]
]

-- `'{}'.format(message)`
unfoldable pub show_message : Message → String
show_message (words s) = s
show_message (error e) = e.message
show_message nothing = "None"

abbrev pub irc_message_max : ℕ
irc_message_max = 510

abbrev pub text_link_max : ℕ
text_link_max = 40

module _ (env : Env) (channel : String) where
  -- `while message: ...`, for a number of rounds.
  unfoldable pub send_chunks : ℕ → String → M (Unit {0})
  unfolding is_empty take drop
  send_chunks zero message = λ t. (pending, t)
  send_chunks (suc rounds) message =
      let more =
        call_unit env (irc channel (take irc_message_max message))
        >> send_chunks rounds (drop irc_message_max message) in
      if is_empty message then pure tt else more

  -- The `try` block that sends the result. Only a text has the method `replace`.
  unfoldable pub irc_body : String → Message → M (Unit {0})
  unfolding send_chunks replace
  irc_body subject (words s) =
      let message = subject <> ": " <> replace 13 "\t" s in
      send_chunks (suc (count message)) message
  irc_body subject (error e) = raise (exn attribute_error "object has no attribute 'replace'")
  irc_body subject nothing =
      raise (exn attribute_error "'NoneType' object has no attribute 'replace'")

  unfoldable pub send_irc : String → Message → M (Unit {0})
  unfolding irc_body
  send_irc subject message = try irc_body subject message except λ _. pure tt

-- The two mails, to the fixed address and to the user.
unfoldable pub send_mails : Env → Mail → String → M (Unit {0})
send_mails env mail username =
    try call_unit env (email mail)
      >> call_unit env (email (record mail { address = username <> "@mozilla.com" }))
    except λ _. pure tt
