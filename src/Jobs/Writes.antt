-- ===== src/Jobs/Writes.antt =====
-- What a transaction of the job system may write to the job and audit tables, as a step relation on the
-- database, and what survives any such writes.
pub mod Transactions
pub mod Creation
use wirescope.Prelude.{
  String, ◌≡◌, refl, sym, ◌∙◌, ap, ◌⊎◌, inl, inr, true, none, some, List, [], ◌∷◌, ◌++◌, arith, All,
  All-append, All-map, is_some, subst, text-cases, Bool-cases, Option-cases, str_eq,
}
use wirescope.Jobs.Models.{AuditStatus, JobStatus, terminal}
use wirescope.Jobs.State.{job_transitions, audit_transitions}
use wirescope.Jobs.Coherence.Create.{IsOwned}
use wirescope.Persistence.{AuditModel, JobModel, Db, find_audit, find_job, audit_key, job_key}
use wirescope.Table
use wirescope.Table.Keys.{Distinct, Distinct-append, Distinct-replace}

-- A status stays, or moves along the table.
abbrev pub Moves : JobStatus → JobStatus → Type 0
Moves s t = (s ≡ t) ⊎ (job_transitions s t ≡ true)

-- One write. A row that is written is in the table already, under the same key.
pub data Write (db db' : Db) : Type 0 where
  job_write :
      (new old : JobModel)
      → find_job new.id db ≡ some old
      → new.audit_id ≡ old.audit_id
      → Moves old.status new.status
      → db'.jobs ≡ Table.replace job_key new db.jobs
      → db'.audits ≡ db.audits
      → Write db db'
  job_added :
      (new : JobModel)
      → find_job new.id db ≡ none
      → is_some (find_audit new.audit_id db) ≡ true
      → new.status ≡ JobStatus.queued
      → db'.jobs ≡ db.jobs ++ new ∷ []
      → db'.audits ≡ db.audits
      → Write db db'
  audit_write :
      (new old : AuditModel)
      → find_audit new.id db ≡ some old
      → (old.status ≡ new.status) ⊎ (audit_transitions old.status new.status ≡ true)
      → db'.jobs ≡ db.jobs
      → db'.audits ≡ Table.replace audit_key new db.audits
      → Write db db'
  audit_added :
      (new : AuditModel)
      → find_audit new.id db ≡ none
      → new.status ≡ AuditStatus.created
      → db'.jobs ≡ db.jobs
      → db'.audits ≡ db.audits ++ new ∷ []
      → Write db db'
  elsewhere : db'.jobs ≡ db.jobs → db'.audits ≡ db.audits → Write db db'

pub data Writes (db : Db) : Db → Type 0 where
  nothing : Writes db db
  then : {d e : Db} → Writes db d → Write d e → Writes db e

pub Writes-trans : {db d e : Db} → Writes db d → Writes d e → Writes db e
Writes-trans w nothing = w
Writes-trans w (then v s) = then (Writes-trans w v) s

-- A path through the transition table.
pub data PathOf (s : JobStatus) : JobStatus → Type 0 where
  stays : PathOf s s
  moves : {t u : JobStatus} → PathOf s t → job_transitions t u ≡ true → PathOf s u

-- Nothing leaves a terminal status.
pub PathOf-terminal : (s t : JobStatus) → terminal s ≡ true → PathOf s t → t ≡ s
unfolding terminal job_transitions
PathOf-terminal s t h stays = refl
PathOf-terminal s t h (moves {t = u} p a) = ground (arith, PathOf-terminal s u h p)

-- Job identifiers are distinct, and the audit of every job exists.
abbrev pub IsStored : Db → Type 0
IsStored db = Distinct job_key db.jobs × IsOwned db

-- An audit that is there stays there.
audits_grow :
    (db db' : Db) (k : String)
    → Write db db'
    → is_some (find_audit k db) ≡ true
    → is_some (find_audit k db') ≡ true
audits_grow db db' k (job_write new old f o m jobs audits) h =
    ap (λ rows. is_some (Table.find audit_key k rows)) audits ∙ h
audits_grow db db' k (job_added new f o s jobs audits) h =
    ap (λ rows. is_some (Table.find audit_key k rows)) audits ∙ h
audits_grow db db' k (elsewhere jobs audits) h =
    ap (λ rows. is_some (Table.find audit_key k rows)) audits ∙ h
audits_grow db db' k (audit_write new old f m jobs audits) h =
    ap (λ rows. is_some (Table.find audit_key k rows)) audits
    ∙ ground (arith, h, Table.find-replace audit_key new k db.audits)
audits_grow db db' k (audit_added new f s jobs audits) h =
    ap (λ rows. is_some (Table.find audit_key k rows)) audits
    ∙ elim (Option-cases (find_audit k db)) [
      | inl e ↦ ground arith
      | inr (a, e) ↦ rw (Table.find-append_old audit_key k db.audits new a e) refl
    ]

All-find :
    (P : JobModel → Type 0) (k : String) (js : List JobModel) (j : JobModel)
    → Table.find job_key k js ≡ some j
    → All P js
    → P j
unfolding Table.find
All-find P k [] j f a = cc
All-find P k (x ∷ xs) j f a = ground (arith, All-find P k xs j)

All-replace :
    (P : JobModel → Type 0) (new : JobModel) (js : List JobModel)
    → P new
    → All P js
    → All P (Table.replace job_key new js)
unfolding Table.replace
All-replace P new [] p a = tt
All-replace P new (x ∷ xs) p a = elim (Bool-cases (str_eq x.id new.id)) [
  | inl e ↦ rw e (p, a.1)
  | inr e ↦ rw e (a.0, All-replace P new xs p a.1)
]

Write-IsStored : (db db' : Db) → Write db db' → IsStored db → IsStored db'
Write-IsStored db db' w (distinct, owned) =
    let owned' : All (λ j. is_some (find_audit j.audit_id db') ≡ true) db.jobs =
      All-map _ _ db.jobs (λ j. audits_grow db db' j.audit_id w) owned in
    written w owned'
  where
    written :
        (w : Write db db')
        → All (λ j. is_some (find_audit j.audit_id db') ≡ true) db.jobs
        → IsStored db'
    written (job_write new old f o m jobs audits) own = rw jobs (
      Distinct-replace job_key new db.jobs distinct,
      All-replace _ new db.jobs
          (ap (λ k. is_some (find_audit k db')) o ∙ All-find _ new.id db.jobs old f own) own,
    )
    written (job_added new f o s jobs audits) own = rw jobs (
      Distinct-append job_key db.jobs new f distinct,
      All-append _ db.jobs (new ∷ []) own
          (ap (λ rows. is_some (Table.find audit_key new.audit_id rows)) audits ∙ o, tt),
    )
    written (audit_write new old f m jobs audits) own = rw jobs (distinct, own)
    written (audit_added new f s jobs audits) own = rw jobs (distinct, own)
    written (elsewhere jobs audits) own = rw jobs (distinct, own)

pub Writes-IsStored : (db : Db) {d : Db} → Writes db d → IsStored db → IsStored d
Writes-IsStored db nothing h = h
Writes-IsStored db (then {d} {e} v w) h = Write-IsStored d e w (Writes-IsStored db v h)

-- The same job later: in the same audit, its status reached along the table.
pub record Later (k : String) (j : JobModel) (db : Db) : Type 0 where
  pub job : JobModel
  pub found : find_job k db ≡ some job
  pub audit_id : job.audit_id ≡ j.audit_id
  pub path : PathOf j.status job.status

extend : {s t u : JobStatus} → PathOf s t → Moves t u → PathOf s u
extend {s} p (inl e) = subst (PathOf s) e p
extend p (inr a) = moves p a

kept : (k : String) (j : JobModel) (db db' : Db) → db'.jobs ≡ db.jobs → Later k j db → Later k j db'
kept k j db db' jobs l = record {
  job = l.job;
  found = ap (Table.find job_key k) jobs ∙ l.found;
  audit_id = l.audit_id;
  path = l.path;
}

Write-Later :
    (k : String) (j : JobModel) (db db' : Db) → Write db db' → Later k j db → Later k j db'
Write-Later k j db db' (job_write new old f o m jobs audits) l = elim (text-cases new.id k) [
  | inl e ↦
      let same : some old ≡ some l.job = sym f ∙ ap (λ i. find_job i db) e ∙ l.found in
      let is : old ≡ l.job = cc same in
      record {
        job = new;
        found =
            ap (Table.find job_key k) jobs
            ∙ Table.find-replace_self job_key new l.job k db.jobs l.found e;
        audit_id = o ∙ ap (λ x. x.audit_id) is ∙ l.audit_id;
        path = extend l.path (subst (λ x. Moves x.status new.status) is m);
      }
  | inr n ↦ record {
    job = l.job;
    found =
        ap (Table.find job_key k) jobs ∙ Table.find-replace_ne job_key new k db.jobs n ∙ l.found;
    audit_id = l.audit_id;
    path = l.path;
  }
]
Write-Later k j db db' (job_added new f o s jobs audits) l = record {
  job = l.job;
  found =
      ap (Table.find job_key k) jobs ∙ Table.find-append_old job_key k db.jobs new l.job l.found;
  audit_id = l.audit_id;
  path = l.path;
}
Write-Later k j db db' (audit_write new old f m jobs audits) l = kept k j db db' jobs l
Write-Later k j db db' (audit_added new f s jobs audits) l = kept k j db db' jobs l
Write-Later k j db db' (elsewhere jobs audits) l = kept k j db db' jobs l

-- No write loses a job, moves it to another audit, or takes its status off the table of transitions.
pub Writes-Later :
    (k : String) (j : JobModel) (db : Db) {d : Db} → Writes db d → Later k j db → Later k j d
Writes-Later k j db nothing l = l
Writes-Later k j db (then {d} {e} v w) l = Write-Later k j d e w (Writes-Later k j db v l)
