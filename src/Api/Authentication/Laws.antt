-- ===== src/Api/Authentication/Laws.antt =====
-- authentication.py: who is let in.
use relops_hardware_controll.Prelude.{
  ◌≡◌, ◌≢◌, refl, eq_iff, Option, some, [], ◌∷◌, Option-cases, true, inl, inr, arith,
}
use relops_hardware_controll.Effects.{
  Env, Trace, ok, hawk, HawkAnswer, returns, continue, call_hawk,
}
use relops_hardware_controll.Effects.Laws.{continue-eq-ok}
use relops_hardware_controll.Api.Authentication.{
  Request, TaskclusterUser, get_default, payload_of, user_of_answer, authenticate,
}

-- Taskcluster answered the request's payload with `auth-success`, and the user is the answer's.
pub record Accepted (env : Env) (request : Request) (user : TaskclusterUser) (t u : Trace)
    : Type 0 where
  pub answer : HawkAnswer
  pub answered : env.hawk_reply (hawk (payload_of request) ∷ t) ≡ returns answer
  pub success : answer.status ≡ some "auth-success"
  pub client : user.client_id ≡ get_default answer.client_id ""
  pub scopes : user.scopes ≡ get_default answer.scopes []
  pub authenticated : user.is_authenticated ≡ true
  pub called : u ≡ hawk (payload_of request) ∷ t

module _ (env : Env) (request : Request) (t u : Trace) (user : Option TaskclusterUser) where
  abbrev user_with : HawkAnswer → TaskclusterUser
  user_with answer = record {
    client_id = get_default answer.client_id "";
    scopes = get_default answer.scopes [];
    is_authenticated = true;
  }

  user_of_answer-eq-ok :
      (answer : HawkAnswer) (s : Trace)
      → user_of_answer answer s ≡ (ok user, u)
      → (answer.status ≡ some "auth-success") × (user ≡ some (user_with answer)) × (u ≡ s)
  unfolding user_of_answer
  user_of_answer-eq-ok answer s h = elim (Option-cases answer.status) [
    | inl absent ↦ ground arith
    | inr (status, given) ↦
        ground (arith, eq_iff status "auth-failed", eq_iff status "auth-success")
  ]

  -- If a request other than OPTIONS is let through, Taskcluster answered `auth-success` to a
  -- payload that describes it, and the user has the client id and the scopes of the answer.
  pub authenticate-Accepted :
      request.method ≢ "OPTIONS"
      → authenticate env request t ≡ (ok user, u)
      → (v : TaskclusterUser) × (user ≡ some v) × Accepted env request v t u
  unfolding authenticate
  authenticate-Accepted other h =
      let called : continue (call_hawk env (hawk (payload_of request)) t) user_of_answer
          ≡ (ok user, u) =
        ground (arith, eq_iff request.method "OPTIONS") in
      let (answer, s, replied, judged) =
        continue-eq-ok (call_hawk env (hawk (payload_of request)) t) user_of_answer called in
      let (success, made, last) = user_of_answer-eq-ok answer s judged in
      (
        user_with answer,
        made,
        record {
          answer = answer;
          answered = ground arith;
          success = success;
          client = refl;
          scopes = refl;
          authenticated = refl;
          called = ground arith;
        },
      )
