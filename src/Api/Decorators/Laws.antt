-- ===== src/Api/Decorators/Laws.antt =====
-- decorators.py: the headers of a response.
use relops_hardware_controll.Prelude.{
  ◌≡◌, ◌≢◌, refl, ap, sym, subst, ◌∙◌, String, ◌==◌, eq_iff, List, [], ◌∷◌, join, lookup, some,
  false, arith,
}
use relops_hardware_controll.Effects.{Trace, ok, M}
use relops_hardware_controll.Effects.Laws.{continue-eq-ok}
use relops_hardware_controll.Api.Decorators.{Response, set_header, add_cors, set_cors_headers}

-- A header that was set is read back.
lookup-set_header :
    (name value : String) (headers : List (String × String))
    → lookup name (set_header name value headers) ≡ some value
unfolding set_header
lookup-set_header name value [] = ground (arith, eq_iff name name)
lookup-set_header name value ((n, v) ∷ headers) =
    ground
      (arith, eq_iff n name, eq_iff name n, eq_iff name name, lookup-set_header name value headers)

-- The other headers stay.
lookup-set_header_other :
    (name other value : String) (headers : List (String × String))
    → other ≢ name
    → lookup other (set_header name value headers) ≡ lookup other headers
unfolding set_header
lookup-set_header_other name other value [] h = ground (arith, eq_iff name other, eq_iff other name)
lookup-set_header_other name other value ((n, v) ∷ headers) h = ground (
  arith,
  eq_iff n name,
  eq_iff n other,
  eq_iff other n,
  eq_iff name other,
  eq_iff other name,
  lookup-set_header_other name other value headers h,
)

-- What a browser reads in the answer to a request from another origin.
pub record HasCors (origin : String) (methods : List String) (response : Response) : Type 0 where
  pub allowed_origin : lookup "Access-Control-Allow-Origin" response.headers ≡ some origin
  pub allowed_headers :
      lookup "Access-Control-Allow-Headers" response.headers ≡ some "Authorization,Content-Type"
  pub allowed_methods :
      lookup "Access-Control-Allow-Methods" response.headers ≡ some (join "," methods)

differs : (s r : String) → (s == r) ≡ false → s ≢ r
differs s r h same = let equal = (eq_iff s r).1 same in ground arith

module _ (origin : String) (methods : List String) where
  pub add_cors-HasCors :
      (response : Response) → HasCors origin methods (add_cors origin methods response)
  unfolding add_cors
  add_cors-HasCors response =
      let o : String = "Access-Control-Allow-Origin" in
      let h : String = "Access-Control-Allow-Headers" in
      let m : String = "Access-Control-Allow-Methods" in
      let d₁ = set_header o origin response.headers in
      let d₂ = set_header h "Authorization,Content-Type" d₁ in
      record {
        allowed_origin =
            lookup-set_header_other m o (join "," methods) d₂ (differs o m refl)
            ∙ lookup-set_header_other h o "Authorization,Content-Type" d₁ (differs o h refl)
            ∙ lookup-set_header o origin response.headers;
        allowed_headers =
            lookup-set_header_other m h (join "," methods) d₂ (differs h m refl)
            ∙ lookup-set_header h "Authorization,Content-Type" d₁;
        allowed_methods = lookup-set_header m (join "," methods) d₂;
      }

  -- The decorated function answers with the function's status and body, and with the headers.
  pub set_cors_headers-HasCors :
      (func : M Response) (t u : Trace) (response : Response)
      → set_cors_headers origin methods func t ≡ (ok response, u)
      → HasCors origin methods response
        × ((inner : Response) × (func t ≡ (ok inner, u))
            × (response.status ≡ inner.status)
            × (response.body ≡ inner.body))
  unfolding set_cors_headers add_cors
  set_cors_headers-HasCors func t u response h =
      let (inner, s, ran, decorated) = continue-eq-ok (func t) _ h in
      let answer : add_cors origin methods inner ≡ response = ground arith in
      let here : s ≡ u = ground arith in
      (
        subst (HasCors origin methods) answer (add_cors-HasCors inner),
        (
          inner,
          rw here at ran,
          ap (λ (r : Response). r.status) (sym answer),
          ap (λ (r : Response). r.body) (sym answer),
        ),
      )
