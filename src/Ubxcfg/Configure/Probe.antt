-- ===== src/Ubxcfg/Configure/Probe.antt =====
-- The rate at which an M8N is found, and the rate at which it is configured.
use ts2phc_go.Common.{
  ℕ, ◌≡◌, refl, inl, inr, Bool, true, false, ◌||◌, Bool-cases, Option-cases, none, some, List, [],
  ◌∷◌, if◌then◌else◌, arith,
}
use ts2phc_go.Common.Int.{ℤ, pos, eqb_ℤ}
use ts2phc_go.Ubxcfg.Ack.{prepend_unique, without}
use ts2phc_go.Ubxcfg.Configure.{Write, Line, written_to, answer_to}
use ts2phc_go.Ubxcfg.Configure.Receivers.{
  m8n_cfg_prt115200, m8n_probe_bauds, mon_ver_poll, version_answer, answered, probe_baud,
  configure_at_115200, configure_from, configure_m8n, configure_m8n_device,
}

abbrev pub member : ℤ → List ℤ → Bool
member b [] = false
member b (v ∷ vs) = eqb_ℤ v b || member b vs

eqb_refl : (b : ℤ) → eqb_ℤ b b ≡ true
eqb_refl b = ground arith

member-without :
    (b first : ℤ) (vs : List ℤ) → member b (without first vs) ≡ true → member b vs ≡ true
unfolding without
member-without b first [] h = h
member-without b first (v ∷ vs) h = ground (arith, h, member-without b first vs)

member-prepend_unique :
    (b first : ℤ) (vs : List ℤ)
    → member b (prepend_unique first vs) ≡ true
    → member b (first ∷ vs) ≡ true
unfolding prepend_unique
member-prepend_unique b first vs h = ground (arith, h, member-without b first vs)

module _ (line : Line) where
  -- At this rate the port opened, and the poll brought a frame.
  pub record IsHeard (sent : List Write) (baud : ℤ) : Type 0 where
    pub opened : line.opens sent baud ≡ true
    pub heard : answered (version_answer line sent baud) ≡ true

  -- The three ways past a rate.
  probe_closed :
      (sent : List Write) (b : ℤ) (bs : List ℤ)
      → line.opens sent b ≡ false
      → probe_baud line sent (b ∷ bs) ≡ probe_baud line sent bs
  unfolding probe_baud
  probe_closed sent b bs e = rw (e, probe_baud) refl

  probe_silent :
      (sent : List Write) (b : ℤ) (bs : List ℤ)
      → line.opens sent b ≡ true
      → answered (version_answer line sent b) ≡ false
      → probe_baud line sent (b ∷ bs) ≡ probe_baud line (written_to line b sent mon_ver_poll) bs
  unfolding probe_baud
  probe_silent sent b bs e k = rw (e, k, probe_baud) refl

  probe_heard :
      (sent : List Write) (b : ℤ) (bs : List ℤ)
      → IsHeard sent b
      → probe_baud line sent (b ∷ bs) ≡ (written_to line b sent mon_ver_poll, some b)
  unfolding probe_baud
  probe_heard sent b bs h = rw (h.opened, h.heard, probe_baud) refl

  probe_baud-found :
      (sent : List Write) (bauds : List ℤ) (baud : ℤ)
      → (probe_baud line sent bauds).1 ≡ some baud
      → (s : List Write) × (member baud bauds ≡ true)
        × IsHeard s baud
        × ((probe_baud line sent bauds).0 ≡ written_to line baud s mon_ver_poll)
  probe_baud-found sent [] baud h = absurd (unfold probe_baud in ground (arith, h))
  probe_baud-found sent (b ∷ bs) baud h = elim (Bool-cases (line.opens sent b)) [
    | inr closed ↦
        let (s, m, k, e) =
          probe_baud-found sent bs baud (rw (probe_closed sent b bs closed) at h) in
        (s, ground (arith, m), k, rw (probe_closed sent b bs closed) e)
    | inl opened ↦ elim (Bool-cases (answered (version_answer line sent b))) [
      | inr quiet ↦
          let next = probe_silent sent b bs opened quiet in
          let (s, m, k, e) =
            probe_baud-found (written_to line b sent mon_ver_poll) bs baud (rw next at h) in
          (s, ground (arith, m), k, rw next e)
      | inl heard ↦
          let here = probe_heard sent b bs (record { opened = opened; heard = heard }) in
          let same : b ≡ baud = ground (arith, here, h) in
          (
            sent,
            rw (← same) (ground (arith, eqb_refl b)),
            rw (← same) (record { opened = opened; heard = heard }),
            rw (← same, here) refl,
          )
    ]
  ]

  -- What has been written when the M8N is configured: the poll at the rate where it was heard and,
  -- at another rate than 115200, the port message that sets that rate.
  abbrev pub upgraded : List Write → ℤ → List Write
  upgraded s baud =
      let polled = written_to line baud s mon_ver_poll in
      if eqb_ℤ baud (pos 115200) then polled else written_to line baud polled m8n_cfg_prt115200

  configure_at-none :
      (w : List Write) (dyn_model : ℕ) (delay : ℤ)
      → (configure_at_115200 line w dyn_model delay).error ≡ none
      → configure_at_115200 line w dyn_model delay
        ≡ configure_m8n line (pos 115200) w dyn_model delay
  configure_at-none w dyn_model delay h = elim (Bool-cases (line.opens w (pos 115200))) [
    | inl opened ↦ rw opened refl
    | inr closed ↦ absurd (ground (arith, rw closed at h))
  ]

  configure_from-none :
      (w : List Write) (dyn_model : ℕ) (delay : ℤ)
      → ¬ ((configure_from line w none dyn_model delay).error ≡ none)
  configure_from-none w dyn_model delay h = ground (arith, h)

  configure_from-some :
      (w : List Write) (b : ℤ) (dyn_model : ℕ) (delay : ℤ)
      → (configure_from line w (some b) dyn_model delay).error ≡ none
      → configure_from line w (some b) dyn_model delay
        ≡ configure_m8n line
            (pos 115200)
            (if eqb_ℤ b (pos 115200) then w else written_to line b w m8n_cfg_prt115200)
            dyn_model
            delay
  configure_from-some w b dyn_model delay h = elim (Bool-cases (eqb_ℤ b (pos 115200))) [
    | inl same ↦ rw same (configure_at-none w dyn_model delay (rw same at h))
    | inr other ↦ elim (Bool-cases (line.opens w b)) [
      | inr closed ↦ absurd (ground (arith, rw (other, closed) at h))
      | inl opened ↦ elim (Bool-cases (answer_to line b w m8n_cfg_prt115200).written) [
        | inr lost' ↦ absurd (ground (arith, rw (other, opened, lost') at h))
        | inl sent' ↦
            rw (other, opened, sent')
              (configure_at-none (written_to line b w m8n_cfg_prt115200) dyn_model delay
                (rw (other, opened, sent') at h))
      ]
    ]
  ]

  -- When the configuration of an M8N ends without an error, the receiver was heard at a rate of
  -- the list, it was told to go to 115200 baud if that was another rate, and the whole
  -- configuration then ran at 115200 baud.
  configure_m8n_device-at :
      (sent : List Write) (baud : ℤ) (dyn_model : ℕ) (delay : ℤ)
      → (configure_m8n_device line sent baud dyn_model delay).error ≡ none
      → (s : List Write) × (b : ℤ) × (member b (baud ∷ m8n_probe_bauds) ≡ true)
        × IsHeard s b
        × (configure_m8n_device line sent baud dyn_model delay
            ≡ configure_m8n line (pos 115200) (upgraded s b) dyn_model delay)
  configure_m8n_device-at sent baud dyn_model delay h =
      let bauds = prepend_unique baud m8n_probe_bauds in
      let whole : configure_m8n_device line sent baud dyn_model delay
          ≡ configure_from line (probe_baud line sent bauds).0 (probe_baud line sent bauds).1
              dyn_model delay =
        unfold configure_m8n_device in refl in
      elim (Option-cases (probe_baud line sent bauds).1) [
        | inl e ↦ absurd (
            configure_from-none (probe_baud line sent bauds).0 dyn_model delay (rw (whole, e) at h))
        | inr (b, e) ↦
            let (s, m, k, w) = probe_baud-found sent bauds b e in
            let chosen : configure_m8n_device line sent baud dyn_model delay
                ≡ configure_from line (written_to line b s mon_ver_poll) (some b) dyn_model delay =
              rw (whole, e, w) refl in
            (
              s,
              b,
              member-prepend_unique b baud m8n_probe_bauds m,
              k,
              rw chosen (
                  configure_from-some (written_to line b s mon_ver_poll) b dyn_model delay
                    (rw chosen at h)),
            )
      ]
