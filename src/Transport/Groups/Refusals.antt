-- ===== src/Transport/Groups/Refusals.antt =====
-- transport/message.go: when `Approve` reports success.
use botkit.Prelude.{
  ℕ, ◌≡◌, refl, ◌↔◌, ◌⊎◌, inl, inr, none, List, [], ◌∷◌, arith, ◌==◌, nat_eq, Bool-cases, All, Text,
  text_eq, nat_beq_iff,
}
use botkit.Errors.{Result, ok, Result-cases}
use botkit.Jid.{Jid, JidApi}
use botkit.Transport.Members.{Participant}
use botkit.Transport.Groups.{refused, as_error, participant_errors, approved, wrapped, approve}

-- WhatsApp attached no error code to a participant.
abbrev pub WentThrough : Participant → Type 0
WentThrough p = p.error ≡ 0

module _ (api : JidApi) (itoa : ℕ → Text) where
  refused_iff :
      (results : List Participant) → (refused api itoa results ≡ []) ↔ All WentThrough results
  unfolding refused
  refused_iff [] = (λ h. tt, λ h. refl)
  refused_iff (p ∷ results) =
      let (there, back) = refused_iff results in
      (
        λ h. elim (Bool-cases (p.error == 0)) [
          | inl fine ↦ ((nat_beq_iff p.error 0).0 fine, there (rw fine at h))
          | inr bad ↦ absurd (cc (rw bad at h))
        ],
        λ (fine, rest). rw (fine) (back rest),
      )

  wrapped-none : (ms : List Text) → (wrapped api (as_error api ms) ≡ none) ↔ (ms ≡ [])
  unfolding wrapped as_error
  wrapped-none [] = (λ h. refl, λ h. refl)
  wrapped-none (m ∷ ms) = (λ h. cc, λ h. cc)

  -- `Approve` returns no error exactly if there was nobody to admit, or WhatsApp answered the update
  -- and attached no error code to any participant of its answer.
  pub approve_iff :
      (update : List Jid → Result (List Participant)) (drawn : ℕ) (requesters : List Jid)
      → ((approve api itoa update drawn requesters).0 ≡ none) ↔ (
          (requesters ≡ [])
          ⊎ ((results : List Participant) × (update requesters ≡ ok results)
              × All WentThrough results))
  unfolding approve approved participant_errors
  approve_iff update drawn [] = (λ h. inl refl, λ h. refl)
  approve_iff update drawn (j ∷ requesters) = elim (Result-cases (update (j ∷ requesters))) [
    | inl (results, e) ↦ rw e (
      λ h.
          inr (
            results,
            refl,
            (refused_iff results).0 ((wrapped-none (refused api itoa results)).0 h),
          ),
      λ h. elim h [
        | inl nobody ↦ cc
        | inr (results', same, fine) ↦
            let same_results : results ≡ results' = cc in
            (wrapped-none (refused api itoa results)).1
              ((refused_iff results).1 (rw same_results fine))
      ],
    )
    | inr (x, e) ↦ rw e (
      λ h. cc,
      λ h. elim h [ inl nobody ↦ cc | inr (results', same, fine) ↦ absurd (ground arith) ],
    )
  ]
