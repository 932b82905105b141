-- ===== src/Claims/Tests.antt =====
-- A necessity claim that opposes an existing claim of the same proposition and scope.
use ratcheting_consequence_i.Base.Texts.{is_sha256_digest}
use ratcheting_consequence_i.Base.{
  raise, value_error, distinct, String, ◌≡◌, ◌≢◌, refl, ap, sym, ◌∙◌, true, false, none, some, List,
  [], ◌∷◌, In, inl, inr, ok, string_eq, String-discrete, ==_iff, any, contains, option_eq,
}
use ratcheting_consequence_i.Base.Order.{string_ord}
use ratcheting_consequence_i.Base.Sort.{sorted}
use ratcheting_consequence_i.Canonical.Freeze.{is_finite, here, in_array, first_item, later_item}
use ratcheting_consequence_i.Canonical.{
  Hashing, null, Json, array, real, item, no_items, content_fingerprint,
}
use ratcheting_consequence_i.Claims.{Scope, scope_fingerprint, Obligation}
use ratcheting_consequence_i.Claims.Records.{
  IsFinitePayload, Claim, Conflict, Polarity, positive, negative, necessity, json, provisional,
  unassessed, l1_structured, structural_key, ClaimRole-discrete, StructuralKey-discrete,
  structural_key_eq, valid_conflict,
}
use ratcheting_consequence_i.Claims.Logic.{
  structural_conflict, opposed, make_conflict, ordered_pair, conflict_id, conflict_obligation,
  mandatory_attack_obligation, attack_of,
}
use ratcheting_consequence_i.Claims.Consequences.{
  Admitted, attack_discharged, new_conflicts, derive_claim_consequences,
}
use ratcheting_consequence_i.Claims.Consequences.Bundle.{
  IsBundle, derive_claim_consequences-IsBundle,
}
use ratcheting_consequence_i.Claims.Answers.{
  bind_l0_answer-Refuses, AnswerBinding, stable_id, argument_names, bind_l0_answer,
  bind_l0_answer-Inert,
}

abbrev digest : String
digest = "0000000000000000000000000000000000000000000000000000000000000000"

is_digest : is_sha256_digest digest ≡ true
unfolding is_sha256_digest
is_digest = refl

abbrev hashing : Hashing
hashing = record {
  canonical_json = λ _. "{}";
  sha256 = λ _. digest;
  sha256-Digest = λ _. is_digest;
}

abbrev short : String → String
short s = s

abbrev scope : Scope
scope = record {
  id = "scope";
  binding_revision = "b1";
  assumption_ids = [];
  applicability_guard_id = none;
  finite_universe_hash = none;
  closed_world = false;
}

abbrev needs : String → Polarity → Claim
needs id polarity = record {
  id = id;
  role = necessity;
  bound_args = [];
  payload = json null;
  scope = scope;
  provenance = record { kind = "answer"; source_id = "q1"; source_revision = none };
  status = provisional;
  assessment = unassessed;
  representation_level = l1_structured;
  parent_ids = [];
  proposition_id = some "p";
  polarity = polarity;
}

abbrev denied : Claim
denied = needs "x" negative

abbrev claim : Claim
claim = needs "y" positive

abbrev st : Admitted
st = record {
  claims = denied ∷ [];
  conflicts = [];
  obligations = [];
  lemma_versions = [];
  active_lemma_ids = [];
}

-- The definitions that the runs unfold.
program : Unit {0}
unfolding any contains string_eq String-discrete string_ord option_eq sorted scope_fingerprint
    content_fingerprint ClaimRole-discrete StructuralKey-discrete structural_key structural_key_eq
    opposed ordered_pair conflict_id make_conflict valid_conflict structural_conflict
    conflict_obligation attack_of mandatory_attack_obligation attack_discharged new_conflicts
    derive_claim_consequences stable_id distinct
program = tt

opposed_run : opposed hashing short denied claim ≡ true
unfolding program
opposed_run = refl

different : ¬ (◌≡◌ {A = String} "x" "y")
unfolding program
different p = let same = (==_iff {A = String} "x" "y").1 p in cc (same)

apart : (c : Claim) → In c st.claims → c.id ≢ claim.id
apart c (inl p) same = different (sym (ap (λ (k : Claim). k.id) p) ∙ same)
apart c (inr n) same = absurd n

derive_claim_consequences-IsBundle_example :
    (conflicts : List Conflict) × (obligations : List Obligation) × (derive_claim_consequences
        hashing short st claim
      ≡ ok (conflicts, obligations))
    × IsBundle hashing short st claim conflicts obligations
derive_claim_consequences-IsBundle_example =
    derive_claim_consequences-IsBundle hashing short st claim apart

abbrev answer : AnswerBinding
answer = record {
  question_contract_id = "q1";
  role = necessity;
  answer = json (array (item (real 4607182418800017408) no_items));
  bound_args =
      record { name = "subject"; value = null } ∷ record { name = "object"; value = null } ∷ [];
  scope = scope;
  provenance = record { kind = "answer"; source_id = "q1"; source_revision = none };
  claim_id = some "y";
}

answer_named : stable_id hashing short answer ≢ ""
unfolding program
answer_named p = let same = (==_iff {A = String} "y" "").1 p in cc (same)

answer_once : distinct (argument_names answer) ≡ true
unfolding program
answer_once = refl

-- The one number of the answer is 1.0.
answer_finite : IsFinitePayload answer.answer
unfolding is_finite
answer_finite b (in_array (first_item here)) = refl
answer_finite b (in_array (later_item none_left)) = elim none_left [ ]

abbrev infinite : Json
infinite = array (item (real 9218868437227405312) no_items)

infinity : is_finite 9218868437227405312 ≡ false
unfolding is_finite
infinity = refl

bind_l0_answer-Refuses_example :
    bind_l0_answer hashing short (record answer { answer = json infinite }) ≡ raise value_error
bind_l0_answer-Refuses_example =
    bind_l0_answer-Refuses hashing short (record answer { answer = json infinite }) infinite
      9218868437227405312 refl (in_array (first_item here)) infinity

bind_l0_answer-Inert_example :
    (c : Claim) × (bind_l0_answer hashing short answer ≡ ok c)
    × (c.payload ≡ answer.answer)
    × ((x : Claim) → opposed hashing short x c ≡ false)
    × (obligations : List Obligation) × (derive_claim_consequences hashing short st c
        ≡ ok ([], obligations))
bind_l0_answer-Inert_example =
    bind_l0_answer-Inert hashing short answer st answer_named answer_once answer_finite
