-- ===== src/Ubxcfg/Configure/Runs.antt =====
-- Runs of commands on the serial line: what has been written when a run ends.
use ts2phc_go.Common.{
  ℕ, suc, ◌<◌, ◌≡◌, refl, inl, inr, true, Bool-cases, Option-cases, none, List, [], ◌∷◌, length,
  take, arith,
}
use ts2phc_go.Common.Int.{ℤ}
use ts2phc_go.Ubxcfg.Ack.{Outcome, acked, naked, timed_out, read_error, stuck, await_ack}
use ts2phc_go.Ubxcfg.Configure.{
  Write, Line, Ran, and_then, Command, written_to, answer_to, ack_error, send_and_await_ack,
  send_all,
}

pub and_then-none : (r : Ran) (k : List Write → Ran) → r.error ≡ none → and_then r k ≡ k r.sent
and_then-none r k e = rw e refl

pub and_then-some : (r : Ran) (k : List Write → Ran) → ¬ (r.error ≡ none) → and_then r k ≡ r
and_then-some r k h = elim (Option-cases r.error) [ inl e ↦ absurd (h e) | inr (x, e) ↦ rw e refl ]

pub and_then_assoc :
    (r : Ran) (k l : List Write → Ran)
    → and_then r (λ s. and_then (k s) l) ≡ and_then (and_then r k) l
and_then_assoc r k l = elim (Option-cases r.error) [ inl e ↦ rw e refl | inr (x, e) ↦ rw e refl ]

module _ (line : Line) (baud : ℤ) where
  -- The writes of the commands, behind those before.
  abbrev pub after : List Write → List Command → List Write
  after sent [] = sent
  after sent (c ∷ cs) = after (written_to line baud sent c.msg) cs

  -- The line took the command, and its acknowledgement came before the deadline.
  pub record IsConfirmed (sent : List Write) (c : Command) : Type 0 where
    pub taken : (answer_to line baud sent c.msg).written ≡ true
    pub confirmed : await_ack c.class c.id [] (answer_to line baud sent c.msg).reads ≡ acked

  abbrev pub AreConfirmed : List Write → List Command → Type 0
  AreConfirmed sent [] = Unit
  AreConfirmed sent (c ∷ cs) =
      IsConfirmed sent c × AreConfirmed (written_to line baud sent c.msg) cs

  -- A run of commands in order: each is confirmed before the next is written, and the run ends
  -- behind the last, without an error, or behind the first that is not confirmed, with one.
  pub data Follows (sent : List Write) (cs : List Command) (r : Ran) : Type 0 where
    finished : r.error ≡ none → AreConfirmed sent cs → r.sent ≡ after sent cs → Follows sent cs r
    broke :
        (n : ℕ)
        → n < length cs
        → ¬ (r.error ≡ none)
        → AreConfirmed sent (take n cs)
        → r.sent ≡ after sent (take (suc n) cs)
        → Follows sent cs r

  ack_error_none : (o : Outcome) → ack_error o ≡ none → o ≡ acked
  ack_error_none acked h = refl
  ack_error_none naked h = absurd (ground (arith, h))
  ack_error_none timed_out h = absurd (ground (arith, h))
  ack_error_none read_error h = absurd (ground (arith, h))
  ack_error_none stuck h = absurd (ground (arith, h))

  send_and_await_ack-error :
      (sent : List Write) (c : Command)
      → (send_and_await_ack line baud sent c).error ≡ none
      → IsConfirmed sent c
  unfolding send_and_await_ack
  send_and_await_ack-error sent c h = elim (Bool-cases (answer_to line baud sent c.msg).written) [
    | inl w ↦ record {
      taken = w;
      confirmed =
          ack_error_none (await_ack c.class c.id [] (answer_to line baud sent c.msg).reads)
            (rw w at h);
    }
    | inr w ↦ absurd (ground (arith, h, w))
  ]

  pub send_and_await_ack-none :
      (sent : List Write) (c : Command)
      → IsConfirmed sent c
      → (send_and_await_ack line baud sent c).error ≡ none
  unfolding send_and_await_ack
  send_and_await_ack-none sent c h = rw (h.taken, h.confirmed) refl

  pub send_and_await_ack-Follows :
      (sent : List Write) (c : Command)
      → Follows sent (c ∷ []) (send_and_await_ack line baud sent c)
  send_and_await_ack-Follows sent c =
      elim (Option-cases (send_and_await_ack line baud sent c).error) [
        | inl e ↦
            finished e (send_and_await_ack-error sent c e, tt) (unfold send_and_await_ack in refl)
        | inr (x, e) ↦
            broke 0 (omega arith) (λ n. ground (arith, e, n)) tt (unfold send_and_await_ack in refl)
      ]

  -- One command in front of a run.
  pub Follows-cons :
      (sent : List Write) (c : Command) (cs : List Command) (k : List Write → Ran)
      → Follows (written_to line baud sent c.msg) cs (k (written_to line baud sent c.msg))
      → Follows sent (c ∷ cs) (and_then (send_and_await_ack line baud sent c) k)
  Follows-cons sent c cs k f = elim (send_and_await_ack-Follows sent c) [
    | finished e a s ↦
        rw (and_then-none (send_and_await_ack line baud sent c) k e, s)
          (elim f [
            | finished e' a' s' ↦ finished e' (a.0, a') s'
            | broke n l e' a' s' ↦ broke (suc n) (omega arith) e' (a.0, a') s'
          ])
    | broke n l e a s ↦
        rw (and_then-some (send_and_await_ack line baud sent c) k e)
          (broke 0 (omega arith) e tt (unfold send_and_await_ack in refl))
  ]

  pub send_all-Follows :
      (sent : List Write) (cs : List Command) → Follows sent cs (send_all line baud sent cs)
  unfolding send_all
  send_all-Follows sent [] = finished refl tt refl
  send_all-Follows sent (c ∷ cs) =
      Follows-cons sent c cs (λ s. send_all line baud s cs)
        (send_all-Follows (written_to line baud sent c.msg) cs)
