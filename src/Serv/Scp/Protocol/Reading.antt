-- ===== src/Serv/Scp/Protocol/Reading.antt =====
-- The loops that read from a channel end, on a channel whose input ends.
use sshserv.Prelude.{
  ℕ, zero, suc, ◌<◌, ◌≤◌, ◌≡◌, refl, inl, inr, ◌||◌, Option, none, some, [], ◌++◌, Result, ok, err,
  arith, Bool-cases, Option-cases,
}
use sshserv.Prelude.Text.{Text, bytes, has_prefix}
use sshserv.Serv.Env.{Env}
use sshserv.Serv.Scp.Session.{Channel, Stop, failed, panicked, exhausted, Session, Run, continue}
use sshserv.Serv.Scp.Protocol.{
  is_byte, new_line, ok_msg, whole_line, warn_msg, err_msg, with_channel, send_error_message,
  refuse, send, send_confirmation_message, read_line, read_protocol_message,
  read_confirmation_message, get_next_upload_protocol_message,
}

-- A channel with a number of reads left: a read that gives no error takes one, and nothing else
-- adds to it.
pub record Drains (ch : Channel) : Type 0 where
  pub left : ch.State → ℕ
  pub by_read :
      (n : ℕ) (s : ch.State)
      → ((ch.read n s).0.1 ≡ none → left (ch.read n s).1 < left s) × (left (ch.read n s).1 ≤ left s)
  pub by_write : (t : Text) (s : ch.State) → left (ch.write t s).1 ≤ left s
  pub by_close : (s : ch.State) → left (ch.close s) ≤ left s

-- What has been read of a line: less than before is left, unless the channel gave an error.
abbrev HasRead : ℕ → Text × Option Text → ℕ → Type 0
HasRead before r k = (k ≤ before) × (r.1 ≡ none → k < before)

module _ {env : Env} {ch : Channel} (drains : Drains ch) where
  open drains use {left}

  -- The reads left of a session.
  abbrev pub input : Session env ch → ℕ
  input s = left s.channel

  -- A run that has not run out of fuel; where it goes on, a predicate holds of its answer and of the
  -- reads left.
  abbrev pub Ends : {A : Type 0} → (A → ℕ → Type 0) → Result Stop A × Session env ch → Type 0
  Ends P (ok a, s) = P a (input s)
  Ends P (err (failed e), s) = Unit
  Ends P (err panicked, s) = Unit
  Ends P (err exhausted, s) = ⊥

  abbrev pub EndsBelow : {A : Type 0} → ℕ → Result Stop A × Session env ch → Type 0
  EndsBelow n r = Ends (λ a k. k < n) r

  -- Each step of a chain ends.
  pub continue-Ends :
      {A B : Type 0} (P : A → ℕ → Type 0) (Q : B → ℕ → Type 0) (r : Result Stop A × Session env ch)
      (next : A → Run (Session env ch) B)
      → Ends P r
      → ((a : A) (s : Session env ch) → P a (input s) → Ends Q (next a s))
      → Ends Q (continue next r)
  continue-Ends P Q (ok a, s) next h g = g a s h
  continue-Ends P Q (err (failed e), s) next h g = tt
  continue-Ends P Q (err panicked, s) next h g = tt
  continue-Ends P Q (err exhausted, s) next h g = h

  pub send-EndsBelow :
      (t : Text) (n : ℕ) (s : Session env ch) → input s < n → EndsBelow n (send t s)
  unfolding send
  send-EndsBelow t n s h = elim (Option-cases (ch.write t s.channel).0) [
    | inl e ↦ rw (send, e) (omega (arith, h, drains.by_write t s.channel))
    | inr (x, e) ↦ rw (send, e) tt
  ]

  pub weaken-Ends :
      {A : Type 0} (P Q : A → ℕ → Type 0) (r : Result Stop A × Session env ch)
      → ((a : A) (k : ℕ) → P a k → Q a k)
      → Ends P r
      → Ends Q r
  weaken-Ends P Q (ok a, s) h k = h a (input s) k
  weaken-Ends P Q (err (failed e), s) h k = tt
  weaken-Ends P Q (err panicked, s) h k = tt
  weaken-Ends P Q (err exhausted, s) h k = k

  read_line-Ends :
      (fuel : ℕ) (t : Text) (s : Session env ch)
      → input s < fuel
      → Ends (HasRead (input s)) (read_line fuel t s)
  unfolding read_line
  read_line-Ends zero t s h = absurd (omega (arith, h))
  read_line-Ends (suc fuel) t s h =
      let s' = with_channel (ch.read 1 s.channel).1 s in
      let (lt, le) = drains.by_read 1 s.channel in
      elim (Option-cases (ch.read 1 s.channel).0.1) [
        | inr (x, e) ↦ rw (e) (le, λ c. cc)
        | inl e ↦ elim (Bool-cases (is_byte new_line (ch.read 1 s.channel).0.0)) [
          | inl y ↦ rw (e, y) (le, λ c. lt e)
          | inr n ↦
              let fewer = lt e in
              rw (e, n)
                (weaken-Ends (HasRead (input s')) (HasRead (input s)) _
                  (λ r k h. (omega (arith, h.0, fewer), (λ c. omega (arith, h.0, fewer))))
                  (read_line-Ends fuel (t ++ (ch.read 1 s.channel).0.0) s'
                    (omega (arith, h, fewer))))
        ]
      ]

  -- The end of a line, for its error.
  line-EndsBelow :
      (n : ℕ) (r : Text × Option Text) (s : Session env ch)
      → HasRead n r (input s)
      → EndsBelow n (whole_line r s)
  line-EndsBelow n (t, some e) s h = tt
  line-EndsBelow n (t, none) s (le, lt) = lt refl

  -- A read of a protocol message ends, if the fuel exceeds the reads left, and takes one at least.
  pub read_protocol_message-EndsBelow :
      (fuel : ℕ) (s : Session env ch)
      → input s < fuel
      → EndsBelow (input s) (read_protocol_message fuel s)
  unfolding read_protocol_message
  read_protocol_message-EndsBelow fuel s h =
      continue-Ends (HasRead (input s)) (λ t k. k < input s) (read_line fuel [] s) _
        (read_line-Ends fuel [] s h) (λ r s'. line-EndsBelow (input s) r s')

  -- A read of a confirmation ends, if the fuel exceeds the reads left, and takes one at least.
  pub read_confirmation_message-EndsBelow :
      (fuel : ℕ) (s : Session env ch)
      → input s < fuel
      → EndsBelow (input s) (read_confirmation_message fuel s)
  unfolding read_confirmation_message
  read_confirmation_message-EndsBelow fuel s h =
      let s' = with_channel (ch.read 1 s.channel).1 s in
      let (lt, le) = drains.by_read 1 s.channel in
      elim (Option-cases (ch.read 1 s.channel).0.1) [
        | inr (x, e) ↦ rw (e) tt
        | inl e ↦
            elim (Bool-cases (
              is_byte warn_msg (ch.read 1 s.channel).0.0
              || is_byte err_msg (ch.read 1 s.channel).0.0)) [
                | inr n ↦ rw (e, n) (lt e)
                | inl y ↦
                    rw (e, y)
                      (continue-Ends (HasRead (input s')) (λ t k. k < input s)
                        (read_line fuel [] s') _ (read_line-Ends fuel [] s' (omega (arith, h, le)))
                        (λ r s'' k. tt))
              ]
      ]

  -- The next message that is no T is found, if both kinds of fuel exceed the reads left, and it takes
  -- one at least.
  pub get_next_upload_protocol_message-EndsBelow :
      (line fuel : ℕ) (s : Session env ch)
      → input s < line
      → input s < fuel
      → EndsBelow (input s) (get_next_upload_protocol_message line fuel s)
  unfolding get_next_upload_protocol_message
  get_next_upload_protocol_message-EndsBelow line zero s l h = absurd (omega (arith, h))
  get_next_upload_protocol_message-EndsBelow line (suc fuel) s l h =
      let below = λ (t : Text) (k : ℕ). k < input s in
      continue-Ends below below (read_protocol_message line s) _
        (read_protocol_message-EndsBelow line s l)
        (λ command s' lt. elim (Bool-cases (has_prefix command (bytes "T"))) [
          | inr n ↦ rw (n) lt
          | inl y ↦ rw (y) (
              continue-Ends (λ u k. k < input s) below (send_confirmation_message s') _
                (send-EndsBelow ok_msg (input s) s' lt)
                (λ u s'' lt'.
                  weaken-Ends (λ t k. k < input s'') below _ (λ t k h. omega (arith, h, lt'))
                    (get_next_upload_protocol_message-EndsBelow line fuel s''
                      (omega (arith, l, lt')) (omega (arith, h, lt')))))
        ])

  pub refuse-Ends :
      {A : Type 0} (P : A → ℕ → Type 0) (t : Text) (s : Session env ch)
      → Ends P (refuse {A = A} t s)
  unfolding send_error_message
  refuse-Ends P t s = tt

  -- A step of a chain that stays below a bound.
  pub chain :
      {A B : Type 0} (n : ℕ) (r : Result Stop A × Session env ch)
      (next : A → Run (Session env ch) B)
      → EndsBelow n r
      → ((a : A) (s : Session env ch) → input s < n → EndsBelow n (next a s))
      → EndsBelow n (continue next r)
  chain n r next h g = continue-Ends (λ a k. k < n) (λ b k. k < n) r next h g
