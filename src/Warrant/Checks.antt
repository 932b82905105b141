-- ===== src/Warrant/Checks.antt =====
-- src/rci/warrant/checks.py: the fail-closed resolution of a check reference to a recorded pair of
-- evidence and checker verdict. Each answer carries the reason that the code gives.
use ratcheting_consequence_i.Base.{
  String, ◌≡◌, Bool, true, false, not, none, some, List, [], ◌∷◌, ◌==◌, contains, string_eq,
  if◌then◌else◌, is_none, arith, Option-cases, In, ◌⊎◌, inl, inr,
}
use ratcheting_consequence_i.Base.Keyed.{lookup, put, lookup-put}
use ratcheting_consequence_i.Core.Records.{ArtifactRef, artifact_eq}
use ratcheting_consequence_i.Warrant.Models.{
  Evidence, CheckerVerdictRecord, CheckReference, PropositionKind, valid, proposition_kind_eq,
  checker_verdict_eq,
}

abbrev pub Answer : Type 0
Answer = Bool × String

-- `{record.id: record for record in records}`, over what the dictionary already holds.
unfoldable pub index_by :
    {A : Type 0} → (A → String) → List (String × A) → List A → List (String × A)
index_by id d [] = d
index_by id d (x ∷ xs) = index_by id (put (id x) x d) xs

-- What is found under a key was there before, or is an indexed record of that identity.
pub lookup-index_by :
    {A : Type 0} (id : A → String) (d : List (String × A)) (xs : List A) (k : String) (x : A)
    → lookup k (index_by id d xs) ≡ some x
    → (lookup k d ≡ some x) ⊎ (In x xs × (id x ≡ k))
unfolding index_by
lookup-index_by id d [] k x h = inl h
lookup-index_by id d (y ∷ ys) k x h = elim (lookup-index_by id (put (id y) y d) ys k x h) [
  | inl before ↦ ground (arith, lookup-put (id y) k y d)
  | inr (m, e) ↦ inr (inr m, e)
]

pub indexed :
    {A : Type 0} (id : A → String) (xs : List A) (k : String) (x : A)
    → lookup k (index_by id [] xs) ≡ some x
    → In x xs × (id x ≡ k)
unfolding lookup
indexed id xs k x h = elim (lookup-index_by id [] xs k x h) [ inl before ↦ cc | inr found ↦ found ]

abbrev pub evidence_index : List Evidence → List (String × Evidence)
evidence_index = index_by (λ (e : Evidence). e.id) []

abbrev pub checker_verdict_index : List CheckerVerdictRecord → List (String × CheckerVerdictRecord)
checker_verdict_index = index_by (λ (v : CheckerVerdictRecord). v.id) []

-- What a check must be about, and by whom.
pub record Question : Type 0 where
  pub proposition_id : String
  pub proposition_kind : PropositionKind
  pub scope_fingerprint : String
  pub authorized_checker_ids : List String

unfoldable pub validate_checked_evidence : Evidence → CheckerVerdictRecord → Question → Answer
validate_checked_evidence e v q =
    if not (v.evidence_id == e.id)
    then (false, "checker verdict references different evidence")
    else if not (v.evidence_artifact == e.artifact)
    then (false, "checker verdict does not pin the exact evidence artifact")
    else if not (e.proposition_id == q.proposition_id)
    then (false, "evidence proposition does not match exactly")
    else if not (v.proposition_id == q.proposition_id)
    then (false, "checker verdict proposition does not match exactly")
    else if not (e.proposition_kind == q.proposition_kind)
    then (false, "evidence proposition kind does not match exactly")
    else if not (v.proposition_kind == q.proposition_kind)
    then (false, "checker verdict proposition kind does not match exactly")
    else if not (e.scope_fingerprint == q.scope_fingerprint)
    then (false, "evidence scope does not match exactly")
    else if not (v.scope_fingerprint == q.scope_fingerprint)
    then (false, "checker verdict scope does not match exactly")
    else if not (contains q.authorized_checker_ids v.checker_id)
    then (false, "checker identity is not authorized by the inquiry binding")
    else if not (v.verdict == valid)
    then (false, "independent checker did not validate the evidence")
    else if is_none v.certificate_artifact
    then (false, "valid checker verdict lacks an exact certificate artifact")
    else (true, "independently checked exact evidence")

unfoldable pub resolve_check_reference :
    CheckReference
    → List (String × Evidence)
    → List (String × CheckerVerdictRecord)
    → Question
    → Answer
resolve_check_reference r evidence_by_id verdict_by_id q =
    elim (lookup r.evidence_id evidence_by_id) [
      | none ↦ (false, "check reference does not resolve to owned evidence")
      | some e ↦ elim (lookup r.checker_verdict_id verdict_by_id) [
        | none ↦ (false, "check reference does not resolve to an owned checker verdict")
        | some v ↦
            if not (v.evidence_id == r.evidence_id)
            then (false, "check reference evidence and checker verdict do not align")
            else validate_checked_evidence e v q
      ]
    ]

-- What stands behind a check that resolves: owned evidence and an owned verdict about exactly the
-- proposition, by an authorized checker, which found the evidence valid and left a certificate.
pub record IsExactCheck (e : Evidence) (v : CheckerVerdictRecord) (q : Question) : Type 0 where
  pub same_evidence : v.evidence_id ≡ e.id
  pub same_artifact : v.evidence_artifact ≡ e.artifact
  pub evidence_proposition : e.proposition_id ≡ q.proposition_id
  pub verdict_proposition : v.proposition_id ≡ q.proposition_id
  pub evidence_kind : e.proposition_kind ≡ q.proposition_kind
  pub verdict_kind : v.proposition_kind ≡ q.proposition_kind
  pub evidence_scope : e.scope_fingerprint ≡ q.scope_fingerprint
  pub verdict_scope : v.scope_fingerprint ≡ q.scope_fingerprint
  pub authorized : contains q.authorized_checker_ids v.checker_id ≡ true
  pub found_valid : v.verdict ≡ valid
  pub certificate : (a : ArtifactRef) × (v.certificate_artifact ≡ some a)

module _ (e : Evidence) (v : CheckerVerdictRecord) (q : Question) where
  pub validate_sound : (validate_checked_evidence e v q).0 ≡ true → IsExactCheck e v q
  unfolding validate_checked_evidence
  validate_sound h = record {
    same_evidence = ground arith;
    same_artifact = ground arith;
    evidence_proposition = ground arith;
    verdict_proposition = ground arith;
    evidence_kind = ground arith;
    verdict_kind = ground arith;
    evidence_scope = ground arith;
    verdict_scope = ground arith;
    authorized = ground arith;
    found_valid = ground arith;
    certificate = elim (Option-cases v.certificate_artifact) [
      | inl missing ↦ ground arith
      | inr found ↦ found
    ];
  }

  pub validate_complete : IsExactCheck e v q → (validate_checked_evidence e v q).0 ≡ true
  unfolding validate_checked_evidence
  validate_complete c = let (a, k) = c.certificate in ground (arith, c.same_evidence)

-- The records that a resolved check reference points to.
pub record IsResolvedTo (r : CheckReference) (es : List Evidence) (vs : List CheckerVerdictRecord)
    (q : Question) (e : Evidence) (v : CheckerVerdictRecord) : Type 0 where
  pub owned_evidence : In e es
  pub owned_verdict : In v vs
  pub named_evidence : e.id ≡ r.evidence_id
  pub named_verdict : v.id ≡ r.checker_verdict_id
  pub exact : IsExactCheck e v q

abbrev pub check_answer :
    CheckReference → List Evidence → List CheckerVerdictRecord → Question → Answer
check_answer r es vs q = resolve_check_reference r (evidence_index es) (checker_verdict_index vs) q

-- Over the indexes of any evidence and verdict records, a check reference resolves only to two of
-- these records, which carry the identities it names and are an exact check of the question: one
-- proposition, kind, scope and artifact, an authorized checker, a valid verdict, a certificate.
pub resolve_check_reference-Exact :
    (r : CheckReference) (es : List Evidence) (vs : List CheckerVerdictRecord) (q : Question)
    → (check_answer r es vs q).0 ≡ true
    → (e : Evidence) × (v : CheckerVerdictRecord) × IsResolvedTo r es vs q e v
unfolding resolve_check_reference
resolve_check_reference-Exact r es vs q h =
    elim (Option-cases (lookup r.evidence_id (evidence_index es))) [
      | inl missing ↦ ground arith
      | inr (e, found) ↦
          elim (Option-cases (lookup r.checker_verdict_id (checker_verdict_index vs))) [
            | inl missing ↦ ground arith
            | inr (v, decided) ↦
                let exact : (validate_checked_evidence e v q).0 ≡ true = ground arith in
                let (among_es, e_named) =
                  indexed (λ (x : Evidence). x.id) es r.evidence_id e found in
                let (among_vs, v_named) =
                  indexed (λ (x : CheckerVerdictRecord). x.id) vs r.checker_verdict_id v decided in
                (
                  e,
                  v,
                  record {
                    owned_evidence = among_es;
                    owned_verdict = among_vs;
                    named_evidence = e_named;
                    named_verdict = v_named;
                    exact = validate_sound e v q exact;
                  },
                )
          ]
    ]
