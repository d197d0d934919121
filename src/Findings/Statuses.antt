-- ===== src/Findings/Statuses.antt =====
-- The status of a finding and the trail of its state events (findings/store.py).
use wirescope.Prelude.{
  ℕ, ◌+◌, ap, subst, String, ◌≡◌, ◌≢◌, ◌↔◌, refl, sym, ◌∙◌, true, Option, none, some, inl, inr,
  List, [], ◌∷◌, ◌++◌, arith, str_eq, eq_iff, if◌then◌else◌, Option-cases, text-cases,
}
use wirescope.Result.{ok, >>=-eq-ok, guard, guard-eq-ok, fst_eq, snd_eq}
use wirescope.Json.{Dict}
use wirescope.Table
use wirescope.Table.Keys.{Distinct, Distinct-replace}
use wirescope.Findings.Models.{FindingModel, FindingStatus, FindingRecord, FindingStateEventModel}
use wirescope.Findings.Store.{
  FindingDb, finding_key, find_finding, put_finding, allowed_transitions, require_finding,
  get_finding, change_status,
}

-- The status of a finding may change from one to another exactly if the two differ.
pub allowed_transitions_iff : (s t : FindingStatus) → (allowed_transitions s t ≡ true) ↔ (s ≢ t)
unfolding allowed_transitions
allowed_transitions_iff s t = (λ h e. ground arith, λ n. ground arith)

-- The last status that events give a finding.
unfoldable pub replay : FindingStatus → String → List FindingStateEventModel → FindingStatus
replay s k [] = s
replay s k (e ∷ es) = replay (if str_eq e.finding_id k then e.to_status else s) k es

replay-append :
    (s : FindingStatus) (k : String) (es : List FindingStateEventModel) (e : FindingStateEventModel)
    → replay s k (es ++ e ∷ []) ≡ (if str_eq e.finding_id k then e.to_status else replay s k es)
unfolding replay
replay-append s k [] e = refl
replay-append s k (d ∷ es) e =
    replay-append (if str_eq d.finding_id k then d.to_status else s) k es e

abbrev pub status_in : Option FindingModel → FindingStatus
status_in none = FindingStatus.opened
status_in (some f) = f.status

-- Rows have different identifiers, and the trail of each identifier ends with the status of its row;
-- where there is no row, there is no change of status.
abbrev pub IsLogged : FindingDb → Type 0
IsLogged db =
    Distinct finding_key db.findings
    × ((k : String) → replay FindingStatus.opened k db.events ≡ status_in (find_finding k db))

require_finding-inv :
    (audit_id k : String) (db : FindingDb) (f : FindingModel)
    → require_finding audit_id k db ≡ ok f
    → (find_finding k db ≡ some f) × (f.audit_id ≡ audit_id)
unfolding require_finding
require_finding-inv audit_id k db f h = elim (Option-cases (find_finding k db)) [
  | inl e ↦ ground arith
  | inr (g, e) ↦ ground (arith, e, eq_iff g.audit_id audit_id)
]

-- What a change of status that succeeded did.
record Changing (now : ℕ) (audit_id k : String) (to_status : FindingStatus) (actor reason : String)
    (details : Dict) (db : FindingDb) (r : FindingRecord) (db' : FindingDb) : Type 0 where
  finding : FindingModel
  found : find_finding k db ≡ some finding
  allowed : allowed_transitions finding.status to_status ≡ true
  event : FindingStateEventModel
  event_for : event.finding_id ≡ finding.id
  event_to : event.to_status ≡ to_status
  after : db' ≡ record (put_finding (record finding { status = to_status; updated_at = now }) db) {
    events = db.events ++ event ∷ [];
    next_event_id = db.next_event_id + 1;
  }
  shown : get_finding audit_id k true db' ≡ ok r

change_status-Changing :
    (now : ℕ) (audit_id k : String) (to_status : FindingStatus) (actor reason : String)
    (details : Dict) (db : FindingDb) (r : FindingRecord) (db' : FindingDb)
    → change_status now audit_id k to_status actor reason details db ≡ ok (r, db')
    → Changing now audit_id k to_status actor reason details db r db'
unfolding change_status
change_status-Changing now audit_id k to_status actor reason details db r db' c =
    let (f, hf, c₁) = >>=-eq-ok (require_finding audit_id k db) _ c in
    let (d, g, c₂) = >>=-eq-ok (guard (allowed_transitions f.status to_status) _) _ c₁ in
    let event : FindingStateEventModel = record {
      id = db.next_event_id;
      finding_id = f.id;
      audit_id = audit_id;
      created_at = now;
      actor = actor;
      from_status = f.status;
      to_status = to_status;
      reason = reason;
      details = details;
    } in
    let changed : FindingDb =
      record (put_finding (record f { status = to_status; updated_at = now }) db) {
        events = db.events ++ event ∷ [];
        next_event_id = db.next_event_id + 1;
      } in
    let (shown, hs, e) = >>=-eq-ok (get_finding audit_id k true changed) _ c₂ in
    record {
      finding = f;
      found = (require_finding-inv audit_id k db f hf).0;
      allowed = guard-eq-ok (allowed_transitions f.status to_status) _ d g;
      event = event;
      event_for = refl;
      event_to = refl;
      after = sym (snd_eq e);
      shown = subst (λ x. get_finding audit_id k true x ≡ ok r) (snd_eq e) (hs ∙ ap ok (fst_eq e));
    }

-- Where finding identifiers are distinct and each status is what replaying the state events from
-- OPEN gives, the same holds after a change_status that returns.
pub change_status-IsLogged :
    (now : ℕ) (audit_id k : String) (to_status : FindingStatus) (actor reason : String)
    (details : Dict) (db : FindingDb) (r : FindingRecord) (db' : FindingDb)
    → IsLogged db
    → change_status now audit_id k to_status actor reason details db ≡ ok (r, db')
    → IsLogged db'
change_status-IsLogged now audit_id k to_status actor reason details db r db' (d, logged) c =
    let t = change_status-Changing now audit_id k to_status actor reason details db r db' c in
    let g : FindingModel = record t.finding { status = to_status; updated_at = now } in
    let key = Table.key-find finding_key k db.findings t.finding t.found in
    subst IsLogged (sym t.after) (
      Distinct-replace finding_key g db.findings d,
      λ j.
          replay-append FindingStatus.opened j db.events t.event
          ∙ elim (text-cases t.finding.id j) [
            | inl e ↦ ground (
              arith,
              t.event_for,
              t.event_to,
              eq_iff t.event.finding_id j,
              Table.find-replace_self finding_key g t.finding j db.findings
                  (subst (λ i. find_finding i db ≡ some t.finding) (sym key ∙ e) t.found) e,
            )
            | inr n ↦ ground (
              arith,
              t.event_for,
              eq_iff t.event.finding_id j,
              logged j,
              Table.find-replace_ne finding_key g j db.findings n,
            )
          ],
    )
