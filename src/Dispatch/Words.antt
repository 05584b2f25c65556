-- ===== src/Dispatch/Words.antt =====
-- The arguments of ipmitool.py that ipmi.py gives, as its parser reads them.
use relops_hardware_controll.Prelude.{
  ◌≡◌, refl, String, List, [], ◌∷◌, ◌++◌, append-nil, append_assoc, none, some, false, ◌==◌, All,
}
use relops_hardware_controll.Argparse.{
  Optional, Token, word, text_value, words, ok, Namespace, classify_all, steps, parse_args,
}
use relops_hardware_controll.Argparse.Tokens.{classify}
use relops_hardware_controll.Argparse.Laws.{IsWord, IsOptional, classify_all-word, unset-optional}
use relops_hardware_controll.Commands.Arguments.{ipmitool, parser_of, options}

-- The text is no option, nor the mark behind which there are no options.
abbrev pub IsPlain : List Optional → String → Type 0
IsPlain os s = ((s == "--") ≡ false) × (classify os s ≡ ok (word s))

abbrev words_all : List String → List Token
words_all [] = []
words_all (s ∷ ss) = word s ∷ words_all ss

classify_all-plain :
    (os : List Optional) (ss : List String)
    → All (IsPlain os) ss
    → classify_all os ss ≡ ok (words_all ss)
unfolding classify_all
classify_all-plain os [] h = refl
classify_all-plain os (s ∷ ss) ((n, c), h) = rw (classify_all-plain os ss h, n, c) refl

steps-words :
    (values : Namespace) (dest : String) (ws ss : List String)
    → steps
        (record {
          left = [];
          taking = some (dest, ws);
          just_taken = false;
          waiting = none;
          values = values;
          extras = [];
        })
        (words_all ss)
      ≡ ok (record {
        left = [];
        taking = some (dest, ws ++ ss);
        just_taken = false;
        waiting = none;
        values = values;
        extras = [];
      })
unfolding steps
steps-words values dest ws [] = rw (append-nil ws) refl
steps-words values dest ws (s ∷ ss) =
    rw (steps-words values dest (ws ++ (s ∷ [])) ss, append_assoc ws (s ∷ []) ss) refl

module _ (django : List Optional) (optional : All IsOptional django) where
  abbrev os : List Optional
  os = options ipmitool ++ django

  abbrev parsed : String → String → String → List String → Namespace
  parsed address user password ws =
      ("command", words ws)
      ∷ ("password", text_value password)
      ∷ ("username", text_value user)
      ∷ ("address", text_value address)
      ∷ []

  pub parse_tool :
      (address user password w : String) (ws : List String)
      → IsWord address
      → IsWord user
      → IsWord password
      → All (IsPlain os) (w ∷ ws)
      → parse_args
          (parser_of django ipmitool)
          ("-H" ∷ address ∷ "-U" ∷ user ∷ "-P" ∷ password ∷ w ∷ ws)
        ≡ ok (parsed address user password (w ∷ ws))
  unfolding parse_args
  parse_tool address user password w ws a u p h =
      rw
        (
          classify_all-word os address ("-U" ∷ user ∷ "-P" ∷ password ∷ w ∷ ws) a,
          classify_all-word os user ("-P" ∷ password ∷ w ∷ ws) u,
          classify_all-word os password (w ∷ ws) p,
          classify_all-plain os (w ∷ ws) h,
          steps-words
              (("password", text_value password)
                ∷ ("username", text_value user)
                ∷ ("address", text_value address)
                ∷ [])
              "command" (w ∷ []) ws,
          unset-optional django (parsed address user password (w ∷ ws)) optional,
        )
        refl
