-- ===== src/Findings/Tests.antt =====
-- The theorems on findings applied to small inputs.
use wirescope.Prelude.{
  String, ◌≡◌, ◌≢◌, ◌↔◌, refl, true, some, List, [], ◌∷◌, inl, inr, ◌≤◌, length,
}
use wirescope.Result.{ok}
use wirescope.Json.{text}
use wirescope.Table
use wirescope.Findings.Models.{
  Severity, ConfidenceLevel, FindingStatus, FindingDraft, FindingModel, FindingStateEventModel,
}
use wirescope.Findings.Engine.{deduplicate_drafts}
use wirescope.Findings.Merging.{
  Covered, IsDistinct, deduplicate_drafts-Covered, deduplicate_drafts-IsDistinct,
}
use wirescope.Findings.Bounds.{bound_data, length-bound_data-le}
use wirescope.Findings.Store.{
  FindingDb, allowed_transitions, change_status, upsert_evaluation, new_finding, record_of,
  require_finding, event_record, upsert, find_existing, insert_finding, seen_again, identifies,
}
use wirescope.Findings.Statuses.{IsLogged, replay, allowed_transitions_iff, change_status-IsLogged}
use wirescope.Findings.Upserts.{Upserted, upsert_evaluation-Upserted}

abbrev draft_of : Severity → List String → FindingDraft
draft_of severity observations = record {
  rule_id = "tls.legacy_protocol";
  rule_version = "1";
  family = "tls";
  title = "Legacy TLS";
  severity = severity;
  confidence = ConfidenceLevel.high;
  asset_id = some "asset-1";
  service_id = some "service-1";
  description = "d";
  rationale = "r";
  recommendation = "c";
  data_ = [];
  observation_ids = observations;
  evidence_artifact_ids = [];
  dedupe_key = "service-1";
}

abbrev low_draft : FindingDraft
low_draft = draft_of Severity.low ("o2" ∷ "o1" ∷ [])

abbrev high_draft : FindingDraft
high_draft = draft_of Severity.high ("o1" ∷ [])

deduplicate_drafts-Covered_example :
    Covered (deduplicate_drafts (low_draft ∷ high_draft ∷ [])) high_draft
deduplicate_drafts-Covered_example =
    deduplicate_drafts-Covered (low_draft ∷ high_draft ∷ []) high_draft (inr (inl refl))

deduplicate_drafts-IsDistinct_example :
    IsDistinct (deduplicate_drafts (low_draft ∷ high_draft ∷ []))
deduplicate_drafts-IsDistinct_example = deduplicate_drafts-IsDistinct (low_draft ∷ high_draft ∷ [])

length-bound_data-le_example : length (bound_data (λ d. length d) (("port", text "443") ∷ [])) ≤ 64
length-bound_data-le_example = length-bound_data-le (λ d. length d) (("port", text "443") ∷ [])

allowed_transitions_iff_example :
    (allowed_transitions FindingStatus.opened FindingStatus.suppressed ≡ true)
    ↔ (FindingStatus.opened ≢ FindingStatus.suppressed)
allowed_transitions_iff_example =
    allowed_transitions_iff FindingStatus.opened FindingStatus.suppressed

abbrev empty : FindingDb
empty = record { findings = []; events = []; next_event_id = 1 }

empty-IsLogged : IsLogged empty
unfolding replay Table.find
empty-IsLogged = (tt, λ k. refl)

abbrev row : FindingModel
row = new_finding (λ d. 2) 5 "audit-1" "f-1" low_draft

abbrev stored : FindingDb
stored = record { findings = row ∷ []; events = []; next_event_id = 1 }

evaluated :
    upsert_evaluation (λ d. 2) 5 "audit-1" (("f-1", low_draft) ∷ []) empty
    ≡ ok (record_of row [] ∷ [], stored)
unfolding upsert_evaluation upsert find_existing insert_finding Table.find
evaluated = refl

stored-IsLogged : IsLogged stored
stored-IsLogged =
    let (kept, logged) =
      upsert_evaluation-Upserted (λ d. 2) 5 "audit-1" (("f-1", low_draft) ∷ []) empty
        (record_of row [] ∷ []) stored empty-IsLogged evaluated in
    logged

abbrev suppressed_row : FindingModel
suppressed_row = record row { status = FindingStatus.suppressed; updated_at = 6 }

abbrev trail : FindingStateEventModel
trail = record {
  id = 1;
  finding_id = "f-1";
  audit_id = "audit-1";
  created_at = 6;
  actor = "auditor";
  from_status = FindingStatus.opened;
  to_status = FindingStatus.suppressed;
  reason = "known";
  details = [];
}

abbrev suppressed_db : FindingDb
suppressed_db = record { findings = suppressed_row ∷ []; events = trail ∷ []; next_event_id = 2 }

suppressed :
    change_status 6 "audit-1" "f-1" FindingStatus.suppressed "auditor" "known" [] stored
    ≡ ok (record_of suppressed_row (event_record trail ∷ []), suppressed_db)
unfolding change_status require_finding Table.find Table.replace new_finding
suppressed = refl

change_status-IsLogged_example : IsLogged suppressed_db
change_status-IsLogged_example =
    change_status-IsLogged 6 "audit-1" "f-1" FindingStatus.suppressed "auditor" "known" [] stored
      (record_of suppressed_row (event_record trail ∷ [])) suppressed_db stored-IsLogged suppressed

suppressed-IsLogged : IsLogged suppressed_db
suppressed-IsLogged =
    change_status-IsLogged 6 "audit-1" "f-1" FindingStatus.suppressed "auditor" "known" [] stored
      (record_of suppressed_row (event_record trail ∷ [])) suppressed_db stored-IsLogged suppressed

abbrev seen_row : FindingModel
seen_row = seen_again (λ d. 2) 7 high_draft suppressed_row

abbrev seen_db : FindingDb
seen_db = record { findings = seen_row ∷ []; events = trail ∷ []; next_event_id = 2 }

seen :
    upsert_evaluation (λ d. 2) 7 "audit-1" (("f-2", high_draft) ∷ []) suppressed_db
    ≡ ok (record_of seen_row [] ∷ [], seen_db)
unfolding upsert_evaluation upsert find_existing identifies seen_again new_finding insert_finding
    Table.find Table.replace
seen = refl

upsert_evaluation-Upserted_example : Upserted suppressed_db seen_db
upsert_evaluation-Upserted_example =
    upsert_evaluation-Upserted (λ d. 2) 7 "audit-1" (("f-2", high_draft) ∷ []) suppressed_db
      (record_of seen_row [] ∷ []) seen_db suppressed-IsLogged seen
