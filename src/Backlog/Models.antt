-- ===== src/Backlog/Models.antt =====
-- src/rci/backlog/models.py: the immutable records of the backlog, and the policy of
-- src/rci/backlog/reconcile.py. `str.strip`, the JSON text of a list of strings, SHA-256 and the
-- slices of texts are not code of the repository: they are the fields of `Texts`.
use ratcheting_consequence_i.Base.{
  ℤ, String, Bool, true, not, ◌&&◌, Option, none, some, List, [], ◌∷◌, Eq, ◌==◌, all, any, contains,
  minus, is_empty, string_eq,
}

pub record Texts : Type 0 where
  pub strip : String → String
  pub json_array : List String → String
  pub sha256_hex : String → String
  pub first_chars : String → String
  pub short_chars : String → String
  pub last_chars : String → String

pub data EvidenceStatus : Type 0 where
  checked_open checked_blocked checked_closable stale unknown contradicted : EvidenceStatus

unfoldable pub EvidenceStatus-discrete : Discrete EvidenceStatus
EvidenceStatus-discrete = hlevel

instance unfoldable pub evidence_status_eq : Eq EvidenceStatus
unfolding EvidenceStatus-discrete
evidence_status_eq = record { dec = EvidenceStatus-discrete }

-- `CHECKED_EVIDENCE_STATUSES`
abbrev pub checked_evidence_statuses : List EvidenceStatus
checked_evidence_statuses = checked_open ∷ checked_blocked ∷ checked_closable ∷ []

pub data BacklogEffectKind : Type 0 where
  create dedupe rank block close : BacklogEffectKind

unfoldable pub BacklogEffectKind-discrete : Discrete BacklogEffectKind
BacklogEffectKind-discrete = hlevel

instance unfoldable pub effect_kind_eq : Eq BacklogEffectKind
unfolding BacklogEffectKind-discrete
effect_kind_eq = record { dec = BacklogEffectKind-discrete }

-- The value of the enumeration, as it is formatted into an identity.
abbrev pub effect_kind_value : BacklogEffectKind → String
effect_kind_value create = "create"
effect_kind_value dedupe = "dedupe"
effect_kind_value rank = "rank"
effect_kind_value block = "block"
effect_kind_value close = "close"

-- `G1_APPLICABLE_EFFECT_KINDS`
abbrev pub applicable_effect_kinds : List BacklogEffectKind
applicable_effect_kinds = create ∷ dedupe ∷ rank ∷ block ∷ []

pub record BacklogFinding : Type 0 where
  pub id : String
  pub title : String
  pub protected_consequence : String
  pub source : String
  pub evidence_status : EvidenceStatus
  pub evidence_digest : Option String
  pub workspace_digest : String
  pub priority : ℤ
  pub recurrence_of : Option String

-- `not self.evidence_digest`
abbrev pub lacks_digest : Option String → Bool
lacks_digest none = true
lacks_digest (some d) = d == ""

unfoldable pub valid_finding : BacklogFinding → Bool
unfolding all contains
valid_finding f =
    all (λ text. not (text == ""))
      (f.id ∷ f.title ∷ f.protected_consequence ∷ f.source ∷ f.workspace_digest ∷ [])
    && not (contains checked_evidence_statuses f.evidence_status && lacks_digest f.evidence_digest)

pub record BacklogItem : Type 0 where
  pub id : String
  pub fingerprint : String
  pub title : String
  pub protected_consequence : String
  pub source : String
  pub rank : ℤ
  pub blocked : Bool
  pub closed : Bool
  pub recurrence_of : Option String

pub record BacklogEffect : Type 0 where
  pub id : String
  pub kind : BacklogEffectKind
  pub finding_id : String
  pub target_item_id : String
  pub fingerprint : String
  pub title : String
  pub protected_consequence : String
  pub source : String
  pub recurrence_of : Option String
  pub rank : Option ℤ
  pub evidence_digest : String
  pub workspace_digest : String
  pub reason : String

pub record BacklogPolicy : Type 0 where
  pub allowed_apply_effects : List BacklogEffectKind
  pub proposal_only_effects : List BacklogEffectKind

-- `BacklogPolicy.validate_policy`
unfoldable pub valid_policy : BacklogPolicy → Bool
unfolding any contains minus
valid_policy p =
    not (any (contains p.proposal_only_effects) p.allowed_apply_effects)
    && is_empty (minus p.allowed_apply_effects applicable_effect_kinds)
    && contains p.proposal_only_effects close

module _ (t : Texts) where
  unfoldable pub backlog_fingerprint : String → String → String → String
  backlog_fingerprint title consequence source =
      t.sha256_hex (t.json_array (t.strip title ∷ t.strip consequence ∷ t.strip source ∷ []))

  -- `BacklogFinding.fingerprint`
  unfoldable pub fingerprint_of : BacklogFinding → String
  unfolding backlog_fingerprint
  fingerprint_of f = backlog_fingerprint f.title f.protected_consequence f.source
