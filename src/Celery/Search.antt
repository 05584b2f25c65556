-- ===== src/Celery/Search.antt =====
-- relops_hardware_controller/celery.py: the domains that the DNS resolver searches for a worker id.
use relops_hardware_controll.Prelude.{String, ◌<>◌, List, [], ◌∷◌, ◌++◌, map}

abbrev pub datacenters : List String
datacenters = "mdc1" ∷ "mdc2" ∷ "scl3" ∷ []

abbrev pub domain : String → String → String
domain os datacenter = os <> "test.releng." <> datacenter <> ".mozilla.com"

-- The loops over the systems and the data centers, behind the name itself.
abbrev pub domains : List String → List String
domains [] = []
domains (os ∷ systems) = map (domain os) datacenters ++ domains systems

abbrev pub search_domains : List String
search_domains = "" ∷ domains ("" ∷ "win" ∷ [])
