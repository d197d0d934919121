-- ===== src/Jobs/Models.antt =====
-- jobs/models.py: the enumerations and value types of the job system. Timestamps are natural
-- numbers of one UTC clock, which is what `_as_utc` makes of them.
use wirescope.Prelude.{ℕ, String, Bool, true, false}
use wirescope.Json.{Dict}

pub data AuditStatus : Type 0 where
  created running completed failed cancelled interrupted : AuditStatus

pub data JobStatus : Type 0 where
  queued running completed failed cancelled interrupted : JobStatus

unfoldable pub terminal : JobStatus → Bool
terminal JobStatus.completed = true
terminal JobStatus.failed = true
terminal JobStatus.cancelled = true
terminal JobStatus.interrupted = true
terminal _ = false

pub data ErrorCategory : Type 0 where
  validation tool_missing permission timeout cancelled internal storage parse : ErrorCategory

pub record JobError : Type 0 where
  pub code : String
  pub category : ErrorCategory
  pub message : String
  pub component : String
  pub retryable : Bool
  pub details : Dict

pub record JobProgress : Type 0 where
  pub percentage : ℕ
  pub stage : String
  pub message : String

-- `status.value`, the text that the database column holds.
unfoldable pub status_value : JobStatus → String
status_value JobStatus.queued = "queued"
status_value JobStatus.running = "running"
status_value JobStatus.completed = "completed"
status_value JobStatus.failed = "failed"
status_value JobStatus.cancelled = "cancelled"
status_value JobStatus.interrupted = "interrupted"

unfoldable pub category_value : ErrorCategory → String
category_value ErrorCategory.validation = "validation"
category_value ErrorCategory.tool_missing = "tool_missing"
category_value ErrorCategory.permission = "permission"
category_value ErrorCategory.timeout = "timeout"
category_value ErrorCategory.cancelled = "cancelled"
category_value ErrorCategory.internal = "internal"
category_value ErrorCategory.storage = "storage"
category_value ErrorCategory.parse = "parse"
