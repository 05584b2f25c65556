-- ===== src/Celery/Notify/Laws.antt =====
-- celery.py: the loop that sends the result in pieces.
use text.Mathlib.TextLemmas.{length-nil, length-cons, nil-append, cons-append}
use relops_hardware_controll.Prelude.{
  ◌≡◌, refl, ap, sym, ◌∙◌, ℕ, zero, suc, ◌-◌, ◌≤◌, ◌<◌, String, ◌<>◌, List, [], ◌∷◌, count, take,
  drop, is_empty, All, true, false, Bool-cases, inl, inr, arith,
}
use relops_hardware_controll.Effects.{Env, Trace, returns, ok, irc, call_unit, continue}
use relops_hardware_controll.Effects.Laws.{
  Finishes, continue-Finishes, continue-eq-ok, call_unit-Finishes,
}
use relops_hardware_controll.Celery.Notify.{irc_message_max, send_chunks}

-- A text is its first characters and the rest.
take-append-drop : (n : ℕ) (s : String) → take n s <> drop n s ≡ s
unfolding take drop
take-append-drop zero s = nil-append s
take-append-drop (suc n) String.[] = refl
take-append-drop (suc n) (String.◌∷◌ c s) =
    rw cons-append (ap (λ r. String.◌∷◌ c r) (take-append-drop n s))

count-take : (n : ℕ) (s : String) → count (take n s) ≤ n
unfolding take
count-take zero s = omega (arith, length-nil)
count-take (suc n) String.[] = omega (arith, length-nil)
count-take (suc n) (String.◌∷◌ c s) = omega (arith, length-cons c (take n s), count-take n s)

count-drop : (n : ℕ) (s : String) → count (drop n s) ≡ count s - n
unfolding drop
count-drop zero s = omega arith
count-drop (suc n) String.[] = omega (arith, length-nil)
count-drop (suc n) (String.◌∷◌ c s) = omega (arith, length-cons c s, count-drop n s)

count_pos : (s : String) → is_empty s ≡ false → 0 < count s
unfolding is_empty
count_pos String.[] h = ground arith
count_pos (String.◌∷◌ c s) h = omega (arith, length-cons c s)

is_empty_nil : (s : String) → is_empty s ≡ true → s ≡ ""
unfolding is_empty
is_empty_nil String.[] h = refl
is_empty_nil (String.◌∷◌ c s) h = ground arith

count-take_pos : (n : ℕ) (s : String) → is_empty s ≡ false → 0 < n → 0 < count (take n s)
unfolding take is_empty
count-take_pos zero s full h = absurd (omega arith)
count-take_pos (suc n) String.[] full h = ground arith
count-take_pos (suc n) (String.◌∷◌ c s) full h = omega (arith, length-cons c (take n s))

-- The texts one behind the other.
abbrev pub concat : List String → String
concat [] = ""
concat (s ∷ l) = s <> concat l

-- The trace behind the messages, sent in this order.
abbrev pub sent : String → List String → Trace → Trace
sent channel [] t = t
sent channel (s ∷ l) t = sent channel l (irc channel s ∷ t)

abbrev pub FitsIrc : String → Type 0
FitsIrc s = (0 < count s) × (count s ≤ irc_message_max)

-- The pieces of a message that was sent.
pub record Pieces (channel message : String) (t u : Trace) : Type 0 where
  pub pieces : List String
  pub whole : concat pieces ≡ message
  pub fit : All FitsIrc pieces
  pub trace : u ≡ sent channel pieces t

Pieces-cons :
    (channel message : String) (t u : Trace)
    → is_empty message ≡ false
    → Pieces channel
        (drop irc_message_max message)
        (irc channel (take irc_message_max message) ∷ t)
        u
    → Pieces channel message t u
unfolding take drop is_empty
Pieces-cons channel message t u full p = record {
  pieces = take irc_message_max message ∷ p.pieces;
  whole =
      ap (λ r. take irc_message_max message <> r) p.whole
      ∙ take-append-drop irc_message_max message;
  fit = (
    (count-take_pos irc_message_max message full (omega arith), count-take irc_message_max message),
    p.fit,
  );
  trace = p.trace;
}

module _ (env : Env) (channel : String) where
  -- A message that was sent without an exception arrives whole, in pieces of 1 to 510 characters.
  pub send_chunks-Pieces :
      (rounds : ℕ) (message : String) (t u : Trace)
      → send_chunks env channel rounds message t ≡ (ok tt, u)
      → Pieces channel message t u
  unfolding send_chunks
  send_chunks-Pieces zero message t u h = ground arith
  send_chunks-Pieces (suc rounds) message t u h = elim (Bool-cases (is_empty message)) [
    | inl none_left ↦ record {
      pieces = [];
      whole = sym (is_empty_nil message none_left);
      fit = tt;
      trace = ground arith;
    }
    | inr full ↦
        let sending : continue (call_unit env (irc channel (take irc_message_max message)) t)
              (λ _. send_chunks env channel rounds (drop irc_message_max message))
            ≡ (ok tt, u) =
          rw full at h in
        let (_, s, called, rest) =
          continue-eq-ok (call_unit env (irc channel (take irc_message_max message)) t) _ sending in
        let here : s ≡ irc channel (take irc_message_max message) ∷ t = ground arith in
        Pieces-cons channel message t u full
          (send_chunks-Pieces rounds (drop irc_message_max message) _ u (rw here at rest))
  ]

  -- A message of fewer characters than rounds is sent, or an exception ends the loop.
  pub send_chunks-Finishes :
      (rounds : ℕ) (message : String) (t : Trace)
      → count message < rounds
      → Finishes (send_chunks env channel rounds message t).0
  unfolding send_chunks
  send_chunks-Finishes zero message t h = absurd (omega arith)
  send_chunks-Finishes (suc rounds) message t h = elim (Bool-cases (is_empty message)) [
    | inl none_left ↦ rw none_left tt
    | inr full ↦ rw full (
        continue-Finishes (call_unit env (irc channel (take irc_message_max message)) t) _
          (call_unit-Finishes env _ t)
          λ _.
            send_chunks-Finishes rounds (drop irc_message_max message) _
              (omega (arith, count-drop irc_message_max message, count_pos message full)))
  ]

  -- If no call fails, and there are more rounds than the message has characters, the loop gives its
  -- result.
  pub send_chunks_total :
      (rounds : ℕ) (message : String) (t : Trace)
      → ((u : Trace) → env.unit_reply u ≡ returns tt)
      → count message < rounds
      → (u : Trace) × (send_chunks env channel rounds message t ≡ (ok tt, u))
  unfolding send_chunks
  send_chunks_total zero message t up h = absurd (omega arith)
  send_chunks_total (suc rounds) message t up h = elim (Bool-cases (is_empty message)) [
    | inl none_left ↦ (t, rw none_left)
    | inr full ↦
        let call = irc channel (take irc_message_max message) in
        let (u, rest) =
          send_chunks_total rounds (drop irc_message_max message) (call ∷ t) up
            (omega (arith, count-drop irc_message_max message, count_pos message full)) in
        (u, rw (full, up (call ∷ t)) rest)
  ]
