-- ===== src/Ubxcfg/Configure/Plan.antt =====
-- The order in which an M8N is configured: what has been written when the configuration ends.
use ts2phc_go.Common.{
  ℕ, ◌≤◌, ◌≡◌, refl, ◌⊎◌, inl, inr, ltb, Bool-cases, none, List, [], ◌∷◌, length, arith,
}
use ts2phc_go.Common.Int.{ℤ}
use ts2phc_go.Ubx.Frame.{Frame}
use ts2phc_go.Ubxcfg.Configure.{
  Write, Line, Fetched, found, frame_timeout, fetch_error, lost, Ran, and_then, Command, written_to,
  answer_to, send_and_await_ack, send_all, m8n_nmea_toggles,
}
use ts2phc_go.Ubxcfg.Configure.Receivers.{
  gnss_command, tp5_poll, tp5_command, tp5_answer, patch_tp5, nav5_command, save_command,
  apply_m8n_ant_cable_delay, configure_m8n,
}
use ts2phc_go.Ubxcfg.Configure.Runs.{
  after, AreConfirmed, Follows, finished, broke, and_then-none, and_then-some, and_then_assoc,
  send_and_await_ack-Follows, Follows-cons, send_all-Follows,
}

module _ (line : Line) (baud : ℤ) where
  -- What is written in front of the poll of the time pulse, and what behind it.
  abbrev pub profile : List Command
  profile = gnss_command ∷ m8n_nmea_toggles

  abbrev pub rest_of : ℕ → ℤ → List ℕ → List Command
  rest_of dyn_model delay payload =
      tp5_command delay payload ∷ nav5_command dyn_model ∷ save_command ∷ []

  -- The ways in which a configuration ends.
  pub data Applied (sent : List Write) (dyn_model : ℕ) (delay : ℤ) (r : Ran) : Type 0 where
    early : ¬ (r.error ≡ none) → Follows line baud sent profile r → Applied sent dyn_model delay r
    unanswered :
        ¬ (r.error ≡ none)
        → AreConfirmed line baud sent profile
        → r.sent ≡ written_to line baud (after line baud sent profile) tp5_poll
        → Applied sent dyn_model delay r
    patched :
        (f : Frame)
        → AreConfirmed line baud sent profile
        → tp5_answer line baud (after line baud sent profile) ≡ found f
        → 32 ≤ length f.payload
        → Follows line baud
            (written_to line baud (after line baud sent profile) tp5_poll)
            (rest_of dyn_model delay f.payload)
            r
        → Applied sent dyn_model delay r

  abbrev pub last_two : ℕ → List Write → Ran
  last_two dyn_model s =
      and_then (send_and_await_ack line baud s (nav5_command dyn_model))
        (λ s₄. send_and_await_ack line baud s₄ save_command)

  last_two-Follows :
      (dyn_model : ℕ) (s : List Write)
      → Follows line baud s (nav5_command dyn_model ∷ save_command ∷ []) (last_two dyn_model s)
  last_two-Follows dyn_model s =
      Follows-cons line baud s (nav5_command dyn_model) (save_command ∷ [])
        (λ s₄. send_and_await_ack line baud s₄ save_command)
        (send_and_await_ack-Follows line baud (written_to line baud s (nav5_command dyn_model).msg)
          save_command)

  abbrev pub behind_profile : ℕ → ℤ → List Write → Ran
  behind_profile dyn_model delay s =
      and_then (apply_m8n_ant_cable_delay line baud s delay) (last_two dyn_model)

  abbrev Ends : List Write → ℤ → Ran → Type 0
  Ends s delay r =
      (¬ (r.error ≡ none) × (r.sent ≡ written_to line baud s tp5_poll))
      ⊎ ((f : Frame) × (tp5_answer line baud s ≡ found f)
          × (32 ≤ length f.payload)
          × (r
              ≡ send_and_await_ack line baud (written_to line baud s tp5_poll)
                  (tp5_command delay f.payload)))

  patch_tp5-Ends :
      (s : List Write) (delay : ℤ) (a : Fetched)
      → tp5_answer line baud s ≡ a
      → Ends s delay (patch_tp5 line baud (written_to line baud s tp5_poll) delay a)
  patch_tp5-Ends s delay (found f) e = elim (Bool-cases (ltb (length f.payload) 32)) [
    | inl short ↦ rw short (inl (λ n. ground (arith, n), refl))
    | inr long ↦ rw long (inr (f, e, ground (arith, long), refl))
  ]
  patch_tp5-Ends s delay frame_timeout e = inl (λ n. ground (arith, n), refl)
  patch_tp5-Ends s delay fetch_error e = inl (λ n. ground (arith, n), refl)
  patch_tp5-Ends s delay lost e = inl (λ n. ground (arith, n), refl)

  -- The poll of the time pulse: no answer to use, or the command with the patched payload.
  apply_m8n_ant_cable_delay-Ends :
      (s : List Write) (delay : ℤ) → Ends s delay (apply_m8n_ant_cable_delay line baud s delay)
  unfolding apply_m8n_ant_cable_delay
  apply_m8n_ant_cable_delay-Ends s delay =
      elim (Bool-cases (answer_to line baud s tp5_poll).written) [
        | inl w ↦ rw w (patch_tp5-Ends s delay (tp5_answer line baud s) refl)
        | inr w ↦ rw w (inl (λ n. ground (arith, n), refl))
      ]

  -- The part of the configuration behind the profile.
  behind_profile-Applied :
      (sent : List Write) (dyn_model : ℕ) (delay : ℤ)
      → AreConfirmed line baud sent profile
      → Applied sent dyn_model delay (behind_profile dyn_model delay (after line baud sent profile))
  behind_profile-Applied sent dyn_model delay h =
      let s = after line baud sent profile in
      elim (apply_m8n_ant_cable_delay-Ends s delay) [
        | inl (e, k) ↦
            let stop =
              and_then-some (apply_m8n_ant_cable_delay line baud s delay) (last_two dyn_model) e in
            rw stop (unanswered e h k)
        | inr (f, a, l, k) ↦ patched f h a l (
            rw k (
              Follows-cons line baud (written_to line baud s tp5_poll) (tp5_command delay f.payload)
                (nav5_command dyn_model ∷ save_command ∷ []) (last_two dyn_model)
                (last_two-Follows dyn_model (
                  written_to line baud (written_to line baud s tp5_poll)
                    (tp5_command delay f.payload).msg))))
      ]

  -- However the line behaves, an M8N is configured in one order, each step only once the one
  -- before is acknowledged: the constellations, the seven message rates, the time pulse as the
  -- receiver reported it but for the delay, the dynamic model, the save. Without an error all of
  -- it was written and acknowledged; with one, nothing was written behind the step that failed.
  pub configure_m8n-Applied :
      (sent : List Write) (dyn_model : ℕ) (delay : ℤ)
      → Applied sent dyn_model delay (configure_m8n line baud sent dyn_model delay)
  configure_m8n-Applied sent dyn_model delay =
      let whole : configure_m8n line baud sent dyn_model delay
          ≡ and_then (send_all line baud sent profile) (behind_profile dyn_model delay) =
        unfold configure_m8n send_all in
        and_then_assoc (send_and_await_ack line baud sent gnss_command)
          (λ s. send_all line baud s m8n_nmea_toggles) (behind_profile dyn_model delay) in
      rw whole (elim (send_all-Follows line baud sent profile) [
        | finished e a k ↦
            let go =
              and_then-none (send_all line baud sent profile) (behind_profile dyn_model delay) e in
            rw (go, k) (behind_profile-Applied sent dyn_model delay a)
        | broke n l e a k ↦
            let stop =
              and_then-some (send_all line baud sent profile) (behind_profile dyn_model delay) e in
            rw stop (early e (broke n l e a k))
      ])
