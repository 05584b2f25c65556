-- ===== src/Tests/Json.antt =====
-- JSON texts, the job's way to a command, and templates.
use relops_hardware_controll.Prelude.{◌≡◌, refl, String, some, List, [], ◌∷◌}
use relops_hardware_controll.Json.Value.{object}
use relops_hardware_controll.Json.Printer.{dumps}
use relops_hardware_controll.Json.Reader.{loads}
use relops_hardware_controll.Json.RoundTrip.{fields_of, loads-dumps}
use relops_hardware_controll.Template.{safe_substitute}
use relops_hardware_controll.Template.Laws.{Piece, words, slot, dollar, source}

abbrev texts : List (String × String)
texts = ("a \"quoted\" key", "line\n\\ 😀") ∷ ("", "é") ∷ []

read_back : loads (dumps texts) ≡ some (object (fields_of texts))
read_back = loads-dumps texts

abbrev mapping : List (String × String)
mapping = ("hostname", "t-1") ∷ ("cc", "$$") ∷ []

abbrev pieces : List Piece
pieces = words "Reboot " ∷ slot "hostname" ∷ words " for " ∷ slot "cc" ∷ dollar ∷ slot "ip" ∷ []

filled : safe_substitute mapping (source pieces) ≡ "Reboot t-1 for $$$${ip}"
unfolding safe_substitute
filled = refl
