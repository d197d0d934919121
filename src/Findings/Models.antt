-- ===== src/Findings/Models.antt =====
-- findings/models.py: the values of a finding, and the two tables of persistence/models.py that hold
-- findings and their state events. Timestamps are natural numbers of one UTC clock.
use wirescope.Prelude.{ℕ, String, Option, List}
use wirescope.Json.{Dict}

pub data Severity : Type 0 where
  critical high medium low info : Severity

pub data ConfidenceLevel : Type 0 where
  confirmed high medium low hint unknown : ConfidenceLevel

-- `SEVERITY_RANK`
unfoldable pub severity_rank : Severity → ℕ
severity_rank Severity.critical = 0
severity_rank Severity.high = 1
severity_rank Severity.medium = 2
severity_rank Severity.low = 3
severity_rank Severity.info = 4

-- `CONFIDENCE_RANK`
unfoldable pub confidence_rank : ConfidenceLevel → ℕ
confidence_rank ConfidenceLevel.confirmed = 0
confidence_rank ConfidenceLevel.high = 1
confidence_rank ConfidenceLevel.medium = 2
confidence_rank ConfidenceLevel.low = 3
confidence_rank ConfidenceLevel.hint = 4
confidence_rank ConfidenceLevel.unknown = 5

-- `opened` is OPEN.
pub data FindingStatus : Type 0 where
  opened suppressed accepted_risk : FindingStatus

pub record FindingDraft : Type 0 where
  pub rule_id : String
  pub rule_version : String
  pub family : String
  pub title : String
  pub severity : Severity
  pub confidence : ConfidenceLevel
  pub asset_id : Option String
  pub service_id : Option String
  pub description : String
  pub rationale : String
  pub recommendation : String
  pub data_ : Dict
  pub observation_ids : List String
  pub evidence_artifact_ids : List String
  pub dedupe_key : String

pub record FindingModel : Type 0 where
  pub id : String
  pub audit_id : String
  pub asset_id : Option String
  pub service_id : Option String
  pub rule_id : String
  pub rule_version : String
  pub schema_version : ℕ
  pub family : String
  pub title : String
  pub severity : Severity
  pub confidence : ConfidenceLevel
  pub status : FindingStatus
  pub description : String
  pub rationale : String
  pub recommendation : String
  pub data_ : Dict
  pub observation_ids : List String
  pub evidence_artifact_ids : List String
  pub dedupe_key : String
  pub first_seen : ℕ
  pub last_seen : ℕ
  pub created_at : ℕ
  pub updated_at : ℕ

pub record FindingStateEventModel : Type 0 where
  pub id : ℕ
  pub finding_id : String
  pub audit_id : String
  pub created_at : ℕ
  pub actor : String
  pub from_status : FindingStatus
  pub to_status : FindingStatus
  pub reason : String
  pub details : Dict

pub record FindingStateEventRecord : Type 0 where
  pub id : ℕ
  pub finding_id : String
  pub audit_id : String
  pub created_at : ℕ
  pub actor : String
  pub from_status : FindingStatus
  pub to_status : FindingStatus
  pub reason : String
  pub details : Dict

pub record FindingRecord : Type 0 where
  pub id : String
  pub audit_id : String
  pub asset_id : Option String
  pub service_id : Option String
  pub rule_id : String
  pub rule_version : String
  pub schema_version : ℕ
  pub family : String
  pub title : String
  pub severity : Severity
  pub confidence : ConfidenceLevel
  pub status : FindingStatus
  pub description : String
  pub rationale : String
  pub recommendation : String
  pub data_ : Dict
  pub observation_ids : List String
  pub evidence_artifact_ids : List String
  pub dedupe_key : String
  pub first_seen : ℕ
  pub last_seen : ℕ
  pub created_at : ℕ
  pub updated_at : ℕ
  pub state_events : List FindingStateEventRecord
