-- ===== src/Project/Models.antt =====
-- src/rci/project/models.py: successor candidates, their costs, and the capability frontier, with the form
-- of their identifiers and texts.
use ratcheting_consequence_i.Base.{
  none, some, true, all, ℕ, String, Bool, not, ◌&&◌, Option, List, map, Eq, ◌==◌, any, contains,
  subset, distinct, is_some, is_none, is_empty, string_eq, list_eq,
}
use ratcheting_consequence_i.Base.Texts.{is_identifier, is_nonempty_text}
use ratcheting_consequence_i.Base.Order.{string_ord}
use ratcheting_consequence_i.Base.Sort.{sorted}

pub data SuccessorKind : Type 0 where
  theory question_repertoire probe_repertoire representation method_repertoire : SuccessorKind
  implementation goal_decomposition : SuccessorKind

pub data ProjectGainKind : Type 0 where
  repaired_failure new_separator executable_relation complexity_reduction : ProjectGainKind
  development_recovery scope_extension new_method independent_checkability : ProjectGainKind

abbrev pub gain_value : ProjectGainKind → String
gain_value repaired_failure = "repaired_failure"
gain_value new_separator = "new_separator"
gain_value executable_relation = "executable_relation"
gain_value complexity_reduction = "complexity_reduction"
gain_value development_recovery = "development_recovery"
gain_value scope_extension = "scope_extension"
gain_value new_method = "new_method"
gain_value independent_checkability = "independent_checkability"

unfoldable pub ProjectGainKind-discrete : Discrete ProjectGainKind
ProjectGainKind-discrete = hlevel

instance unfoldable pub gain_eq : Eq ProjectGainKind
unfolding ProjectGainKind-discrete
gain_eq = record { dec = ProjectGainKind-discrete }

pub record ProjectCost : Type 0 where
  pub axis : String
  pub value : Option ℕ

pub record CapabilitySuccessorCandidate : Type 0 where
  pub id : String
  pub anchor_id : String
  pub limitation_id : String
  pub kind : SuccessorKind
  pub current_state : String
  pub desired_state : String
  pub preserved_capability_ids : List String
  pub explicitly_disposed_capability_ids : List String
  pub gain_kinds : List ProjectGainKind
  pub discriminator_id : Option String
  pub evidence_mechanism_ids : List String
  pub estimated_costs : List ProjectCost
  pub reversible : Bool

-- `_canonical`
unfoldable pub canonical : List String → Bool
unfolding distinct sorted
canonical values = distinct values && (sorted (λ (s : String). s) values == values)

abbrev pub optional_identifier : Option String → Bool
optional_identifier none = true
optional_identifier (some id) = is_identifier id

-- The forms of the fields that are texts.
unfoldable pub has_successor_texts : CapabilitySuccessorCandidate → Bool
unfolding all
has_successor_texts c =
    is_identifier c.id
    && is_identifier c.anchor_id
    && is_identifier c.limitation_id
    && is_nonempty_text c.current_state
    && is_nonempty_text c.desired_state
    && all is_identifier c.preserved_capability_ids
    && all is_identifier c.explicitly_disposed_capability_ids
    && optional_identifier c.discriminator_id
    && all is_identifier c.evidence_mechanism_ids
    && all (λ (k : ProjectCost). is_identifier k.axis) c.estimated_costs

unfoldable pub valid_successor : CapabilitySuccessorCandidate → Bool
unfolding canonical any has_successor_texts
valid_successor c =
    has_successor_texts c
    && not (is_empty c.preserved_capability_ids)
    && canonical c.preserved_capability_ids
    && canonical c.explicitly_disposed_capability_ids
    && not (is_empty c.gain_kinds)
    && canonical (map gain_value c.gain_kinds)
    && not (is_empty c.evidence_mechanism_ids)
    && canonical c.evidence_mechanism_ids
    && not (is_empty c.estimated_costs)
    && canonical (map (λ (k : ProjectCost). k.axis) c.estimated_costs)
    && not (any (contains c.explicitly_disposed_capability_ids) c.preserved_capability_ids)

pub data FrontierStatus : Type 0 where
  ready unknown : FrontierStatus

pub record CapabilityFrontier : Type 0 where
  pub id : String
  pub anchor_id : String
  pub limitation_id : String
  pub candidate_ids : List String
  pub nondominated_candidate_ids : List String
  pub incomparable_pairs : List (String × String)
  pub selected_discriminator_candidate_id : Option String
  pub status : FrontierStatus

-- Whether the status and the selection go together.
abbrev pub status_fits : FrontierStatus → Option String → Bool
status_fits ready selected = is_some selected
status_fits unknown selected = is_none selected

unfoldable pub has_frontier_identifiers : CapabilityFrontier → Bool
unfolding all
has_frontier_identifiers f =
    is_identifier f.id
    && is_identifier f.anchor_id
    && is_identifier f.limitation_id
    && all is_identifier f.candidate_ids
    && all is_identifier f.nondominated_candidate_ids
    && all (λ (p : String × String). is_identifier p.0 && is_identifier p.1) f.incomparable_pairs
    && optional_identifier f.selected_discriminator_candidate_id

unfoldable pub valid_frontier : CapabilityFrontier → Bool
unfolding canonical subset has_frontier_identifiers
valid_frontier f =
    has_frontier_identifiers f
    && not (is_empty f.candidate_ids)
    && canonical f.candidate_ids
    && not (is_empty f.nondominated_candidate_ids)
    && canonical f.nondominated_candidate_ids
    && subset f.nondominated_candidate_ids f.candidate_ids
    && status_fits f.status f.selected_discriminator_candidate_id
