-- ===== src/Claims/Consequences.antt =====
-- src/rci/core/transitions.py: the bundle of conflicts and obligations that admitting a claim brings.
use ratcheting_consequence_i.Base.{
  String, Bool, true, false, not, ◌&&◌, Option, none, some, List, [], ◌∷◌, ◌++◌, map, ◌==◌, any,
  contains, if◌then◌else◌, string_eq, Result, ok, ◌>>=◌,
}
use ratcheting_consequence_i.Base.Order.{string_ord}
use ratcheting_consequence_i.Base.Sort.{sorted}
use ratcheting_consequence_i.Canonical.{Hashing}
use ratcheting_consequence_i.Claims.{Obligation, obligation_fingerprint, scope_fingerprint}
use ratcheting_consequence_i.Claims.Records.{Claim, Conflict}
use ratcheting_consequence_i.Claims.Logic.{
  structural_conflict, conflict_obligation, mandatory_attack_obligation,
}
use ratcheting_consequence_i.Warrant.Lemmas.{LemmaVersion}
pub mod Bundle

-- What the derivation reads of the aggregate. The active lemmas are those of the current theory.
pub record Admitted : Type 0 where
  pub claims : List Claim
  pub conflicts : List Conflict
  pub obligations : List Obligation
  pub lemma_versions : List LemmaVersion
  pub active_lemma_ids : List String

abbrev pub conflict_ids : List Conflict → List String
conflict_ids = map (λ (c : Conflict). c.id)

module _ (h : Hashing) (short : String → String) where
  -- `_claim_attack_is_exactly_discharged`
  unfoldable pub attack_discharged : Admitted → Claim → Bool
  unfolding any contains
  attack_discharged st c = elim c.proposition_id [
    | none ↦ false
    | some p ↦
        any
          (λ (v : LemmaVersion).
            contains st.active_lemma_ids v.id
            && (v.relation_id == p)
            && (scope_fingerprint h v.scope == scope_fingerprint h c.scope))
          st.lemma_versions
  ]

  -- The first loop, over the existing claims, with the identities known so far.
  unfoldable pub new_conflicts : Claim → List String → List Claim → Result (List Conflict)
  unfolding structural_conflict contains
  new_conflicts claim known [] = ok []
  new_conflicts claim known (c ∷ cs) =
      let skipped = new_conflicts claim known cs in
      structural_conflict h short c claim >>= λ found. elim found [
        | none ↦ skipped
        | some k ↦
            let rest = new_conflicts claim (k.id ∷ known) cs in
            if contains known k.id then skipped else rest >>= λ others. ok (k ∷ others)
      ]

  -- The second loop, over the candidates, with the fingerprints known so far.
  unfoldable pub new_obligations : List String → List Obligation → List Obligation
  unfolding contains
  new_obligations known [] = []
  new_obligations known (o ∷ os) =
      let skipped = new_obligations known os in
      let rest = new_obligations (obligation_fingerprint h o ∷ known) os in
      if contains known (obligation_fingerprint h o) then skipped else o ∷ rest

  -- The attack, unless there is none or it is discharged.
  unfoldable pub attack_candidates : Admitted → Claim → List Obligation
  unfolding attack_discharged mandatory_attack_obligation
  attack_candidates st claim = elim (mandatory_attack_obligation h short claim) [
    | none ↦ []
    | some o ↦ if attack_discharged st claim then [] else o ∷ []
  ]

  unfoldable pub derive_claim_consequences :
      Admitted → Claim → Result (List Conflict × List Obligation)
  unfolding new_conflicts new_obligations attack_candidates conflict_obligation sorted
  derive_claim_consequences st claim =
      new_conflicts claim (conflict_ids st.conflicts) st.claims >>= λ found.
      let conflicts = sorted (λ (c : Conflict). c.id) found in
      let candidates = attack_candidates st claim ++ map (conflict_obligation h short) conflicts in
      ok (
        conflicts,
        sorted (λ (o : Obligation). o.id)
            (new_obligations (map (obligation_fingerprint h) st.obligations) candidates),
      )
