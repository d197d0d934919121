-- ===== src/Findings/Store.antt =====
-- FindingStore (findings/store.py): the two tables, and the operations on them. Each draft comes with
-- the identifier that `uuid4` would draw for it, used only where the finding is new.
use wirescope.Prelude.{
  ℕ, ◌+◌, String, Bool, true, false, ◌&&◌, Option, none, some, List, [], ◌∷◌, ◌++◌, map, str_eq,
  take, keep, count, is_some, if◌then◌else◌,
}
use wirescope.Result.{
  Result, ok, err, guard, integrity_error, finding_not_found, invalid_finding_state, ◌>>=◌, ◌>>◌,
}
use wirescope.Json.{Dict}
use wirescope.Table
use wirescope.Findings.Models.{
  FindingDraft, FindingModel, FindingStatus, FindingRecord, FindingStateEventModel,
  FindingStateEventRecord,
}
use wirescope.Findings.Bounds.{bound_data}

pub record FindingDb : Type 0 where
  pub findings : List FindingModel
  pub events : List FindingStateEventModel
  pub next_event_id : ℕ

abbrev pub finding_key : FindingModel → String
finding_key f = f.id

abbrev pub find_finding : String → FindingDb → Option FindingModel
find_finding k db = Table.find finding_key k db.findings

abbrev pub put_finding : FindingModel → FindingDb → FindingDb
put_finding f db = record db { findings = Table.replace finding_key f db.findings }

-- `_ALLOWED_TRANSITIONS`
unfoldable pub allowed_transitions : FindingStatus → FindingStatus → Bool
allowed_transitions FindingStatus.opened FindingStatus.suppressed = true
allowed_transitions FindingStatus.opened FindingStatus.accepted_risk = true
allowed_transitions FindingStatus.suppressed FindingStatus.opened = true
allowed_transitions FindingStatus.suppressed FindingStatus.accepted_risk = true
allowed_transitions FindingStatus.accepted_risk FindingStatus.opened = true
allowed_transitions FindingStatus.accepted_risk FindingStatus.suppressed = true
allowed_transitions _ _ = false

-- `_event_record`
unfoldable pub event_record : FindingStateEventModel → FindingStateEventRecord
event_record e = record {
  id = e.id;
  finding_id = e.finding_id;
  audit_id = e.audit_id;
  created_at = e.created_at;
  actor = e.actor;
  from_status = e.from_status;
  to_status = e.to_status;
  reason = e.reason;
  details = e.details;
}

-- `_record`
unfoldable pub record_of : FindingModel → List FindingStateEventRecord → FindingRecord
record_of f events = record {
  id = f.id;
  audit_id = f.audit_id;
  asset_id = f.asset_id;
  service_id = f.service_id;
  rule_id = f.rule_id;
  rule_version = f.rule_version;
  schema_version = f.schema_version;
  family = f.family;
  title = f.title;
  severity = f.severity;
  confidence = f.confidence;
  status = f.status;
  description = f.description;
  rationale = f.rationale;
  recommendation = f.recommendation;
  data_ = f.data_;
  observation_ids = f.observation_ids;
  evidence_artifact_ids = f.evidence_artifact_ids;
  dedupe_key = f.dedupe_key;
  first_seen = f.first_seen;
  last_seen = f.last_seen;
  created_at = f.created_at;
  updated_at = f.updated_at;
  state_events = events;
}

abbrev pub max_observation_links : ℕ
max_observation_links = 64

-- The row of a finding that is new.
unfoldable pub new_finding : (Dict → ℕ) → ℕ → String → String → FindingDraft → FindingModel
unfolding bound_data
new_finding size now audit_id id draft = record {
  id = id;
  audit_id = audit_id;
  asset_id = draft.asset_id;
  service_id = draft.service_id;
  rule_id = draft.rule_id;
  rule_version = draft.rule_version;
  schema_version = 1;
  family = draft.family;
  title = draft.title;
  severity = draft.severity;
  confidence = draft.confidence;
  status = FindingStatus.opened;
  description = draft.description;
  rationale = draft.rationale;
  recommendation = draft.recommendation;
  data_ = bound_data size draft.data_;
  observation_ids = take max_observation_links draft.observation_ids;
  evidence_artifact_ids = take max_observation_links draft.evidence_artifact_ids;
  dedupe_key = draft.dedupe_key;
  first_seen = now;
  last_seen = now;
  created_at = now;
  updated_at = now;
}

-- The row of a finding that was seen before: its identity, status and first sight stay.
unfoldable pub seen_again : (Dict → ℕ) → ℕ → FindingDraft → FindingModel → FindingModel
unfolding bound_data
seen_again size now draft f = record f {
  asset_id = draft.asset_id;
  service_id = draft.service_id;
  rule_version = draft.rule_version;
  schema_version = 1;
  family = draft.family;
  title = draft.title;
  severity = draft.severity;
  confidence = draft.confidence;
  description = draft.description;
  rationale = draft.rationale;
  recommendation = draft.recommendation;
  data_ = bound_data size draft.data_;
  observation_ids = take max_observation_links draft.observation_ids;
  evidence_artifact_ids = take max_observation_links draft.evidence_artifact_ids;
  last_seen = now;
  updated_at = now;
}

-- The identity of a finding: its audit, rule and dedupe key.
unfoldable pub identifies : String → FindingDraft → FindingModel → Bool
identifies audit_id draft f =
    str_eq f.audit_id audit_id
    && str_eq f.rule_id draft.rule_id
    && str_eq f.dedupe_key draft.dedupe_key

unfoldable pub find_existing : String → FindingDraft → List FindingModel → Option FindingModel
unfolding identifies
find_existing audit_id draft [] = none
find_existing audit_id draft (f ∷ fs) =
    if identifies audit_id draft f then some f else find_existing audit_id draft fs

-- `session.add(existing)` and the flush
unfoldable pub insert_finding : FindingModel → FindingDb → Result FindingDb
insert_finding f db =
    if is_some (find_finding f.id db)
    then err (integrity_error "findings.id")
    else ok (record db { findings = db.findings ++ f ∷ [] })

-- One turn of the loop of `upsert_evaluation`.
unfoldable pub upsert :
    (Dict → ℕ) → ℕ → String → String → FindingDraft → FindingDb → Result (FindingModel × FindingDb)
unfolding find_existing new_finding seen_again insert_finding
upsert size now audit_id id draft db = elim (find_existing audit_id draft db.findings) [
  | none ↦ do let f = new_finding size now audit_id id draft; db' ← insert_finding f db; ok (f, db')
  | some f ↦ let f' = seen_again size now draft f in ok (f', put_finding f' db)
]

unfoldable pub upsert_evaluation :
    (Dict → ℕ)
    → ℕ
    → String
    → List (String × FindingDraft)
    → FindingDb
    → Result (List FindingRecord × FindingDb)
unfolding upsert record_of
upsert_evaluation size now audit_id [] db = ok ([], db)
upsert_evaluation size now audit_id ((id, draft) ∷ drafts) db = do
  (f, db₁) ← upsert size now audit_id id draft db
  (records, db₂) ← upsert_evaluation size now audit_id drafts db₁
  ok (record_of f [] ∷ records, db₂)

-- The row, if it is one of the audit's.
unfoldable pub require_finding : String → String → FindingDb → Result FindingModel
require_finding audit_id finding_id db = elim (find_finding finding_id db) [
  | none ↦ err (finding_not_found finding_id)
  | some f ↦ if str_eq f.audit_id audit_id then ok f else err (finding_not_found finding_id)
]

abbrev events_of : String → FindingDb → List FindingStateEventRecord
events_of finding_id db = map event_record (keep (λ e. str_eq e.finding_id finding_id) db.events)

-- `get_finding`; events are kept in the order of their identifiers.
unfoldable pub get_finding : String → String → Bool → FindingDb → Result FindingRecord
unfolding require_finding record_of event_record
get_finding audit_id finding_id include_events db = do
  f ← require_finding audit_id finding_id db
  ok (record_of f (if include_events then events_of finding_id db else []))

unfoldable pub change_status :
    ℕ
    → String
    → String
    → FindingStatus
    → String
    → String
    → Dict
    → FindingDb
    → Result (FindingRecord × FindingDb)
unfolding get_finding allowed_transitions
change_status now audit_id finding_id to_status actor reason details db = do
  f ← require_finding audit_id finding_id db
  guard (allowed_transitions f.status to_status) (invalid_finding_state finding_id)
  let event : FindingStateEventModel = record {
    id = db.next_event_id;
    finding_id = f.id;
    audit_id = audit_id;
    created_at = now;
    actor = actor;
    from_status = f.status;
    to_status = to_status;
    reason = reason;
    details = details;
  }
  let db' = record (put_finding (record f { status = to_status; updated_at = now }) db) {
    events = db.events ++ event ∷ [];
    next_event_id = db.next_event_id + 1;
  }
  found ← get_finding audit_id finding_id true db'
  ok (found, db')

-- `count`
unfoldable pub count_findings : String → FindingDb → ℕ
count_findings audit_id db = count (λ f. str_eq f.audit_id audit_id) db.findings
