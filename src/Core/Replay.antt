-- ===== src/Core/Replay.antt =====
-- src/rci/core/replay.py: the sequence number as a count of events.
use ratcheting_consequence_i.Base.{
  ◌≡◌, refl, sym, ap, ◌∙◌, suc, ◌+◌, true, false, List, [], ◌∷◌, length, ok, >>=-eq-ok,
  ok_injective, arith, nat_eq, option_eq,
}
use ratcheting_consequence_i.Canonical.{Hashing}
use ratcheting_consequence_i.Core.State.{InquiryState, is_active, valid_state, valid_started}
use ratcheting_consequence_i.Core.Messages.{DomainEvent}
use ratcheting_consequence_i.Core.Evolve.{evolve, replay}
use ratcheting_consequence_i.Core.Steps.{
  Step, began, plan_recorded, obligation_added, requested, request_changed,
}
use ratcheting_consequence_i.Core.Steps.Inversion.{evolve-Lawful}
use ratcheting_consequence_i.Core.Invariants.{WellFormed, evolve-WellFormed}

idle_sequence :
    (h : Hashing) (st : InquiryState)
    → valid_state h st ≡ true
    → is_active st.status ≡ false
    → st.sequence ≡ 0
unfolding valid_state valid_started
idle_sequence h st valid idle = ground arith

Step-sequence :
    (h : Hashing) {st next : InquiryState}
    → valid_state h st ≡ true
    → Step st next
    → next.sequence ≡ suc st.sequence
Step-sequence h {st} valid (began next idle one running empty) =
    one ∙ sym (ap suc (idle_sequence h st valid idle))
Step-sequence h valid (plan_recorded p running) = refl
Step-sequence h valid (obligation_added o running) = refl
Step-sequence h valid (requested r running fresh none_yet good bare) = refl
Step-sequence h valid (request_changed r new running member step good) = refl

module _ (h : Hashing) where
  -- A replay that returns has counted every event: the sequence number of the state it ends in is that of
  -- the state it began in, whose validators pass, plus the number of events.
  pub replay-sequence :
      (events : List DomainEvent) (st : InquiryState) {next : InquiryState}
      → WellFormed h st
      → replay h events st ≡ ok next
      → next.sequence ≡ st.sequence + length events
  unfolding replay
  replay-sequence [] st good e =
      ap (λ (s : InquiryState). s.sequence) (sym (ok_injective e)) ∙ omega arith
  replay-sequence (event ∷ events) st {next} good e =
      let (middle, first, rest) = >>=-eq-ok (evolve h st event) (replay h events) e in
      let one = Step-sequence h good.lifecycle (evolve-Lawful h st event first).0 in
      let more = replay-sequence events middle (evolve-WellFormed h st event good first) rest in
      omega (arith, one, more)
