-- ===== src/Findings/Upserts.antt =====
-- What upsert_evaluation (findings/store.py) keeps: the trail of state events and every status.
use wirescope.Prelude.{
  ℕ, ap, subst, String, ◌≡◌, refl, sym, ◌∙◌, none, some, inl, inr, List, [], ◌∷◌, ◌++◌, arith, All,
  Option-cases, text-cases,
}
use wirescope.Result.{ok, >>=-eq-ok, snd_eq}
use wirescope.Json.{Dict}
use wirescope.Table
use wirescope.Table.Keys.{Distinct-find, Distinct-append, Distinct-replace}
use wirescope.Findings.Models.{FindingDraft, FindingModel, FindingStatus, FindingRecord}
use wirescope.Findings.Store.{
  FindingDb, finding_key, find_finding, put_finding, find_existing, new_finding, seen_again,
  insert_finding, upsert, upsert_evaluation,
}
use wirescope.Findings.Statuses.{status_in, IsLogged}

find_existing-All :
    (P : FindingModel → Type 0) (audit_id : String) (draft : FindingDraft) (fs : List FindingModel)
    (f : FindingModel)
    → All P fs
    → find_existing audit_id draft fs ≡ some f
    → P f
unfolding find_existing
find_existing-All P audit_id draft [] f a h = cc
find_existing-All P audit_id draft (g ∷ fs) f a h =
    ground (arith, find_existing-All P audit_id draft fs f a.1)

insert_finding-inv :
    (f : FindingModel) (db db' : FindingDb)
    → insert_finding f db ≡ ok db'
    → (find_finding f.id db ≡ none) × (db' ≡ record db { findings = db.findings ++ f ∷ [] })
unfolding insert_finding
insert_finding-inv f db db' h = ground arith

insert_finding-IsLogged :
    (f : FindingModel) (db db' : FindingDb)
    → f.status ≡ FindingStatus.opened
    → insert_finding f db ≡ ok db'
    → IsLogged db
    → IsLogged db'
insert_finding-IsLogged f db db' new i (d, logged) =
    let (absent, e) = insert_finding-inv f db db' i in
    subst IsLogged (sym e) (
      Distinct-append finding_key db.findings f absent d,
      λ k. logged k ∙ elim (Option-cases (find_finding k db)) [
        | inl no_row ↦ ground (arith, no_row, new, Table.find-append finding_key k db.findings f)
        | inr (g, there) ↦
            ground (arith, there, Table.find-append_old finding_key k db.findings f g)
      ],
    )

-- A row that keeps its identifier and its status.
put_finding-IsLogged :
    (f g : FindingModel) (db : FindingDb)
    → find_finding f.id db ≡ some f
    → g.id ≡ f.id
    → g.status ≡ f.status
    → IsLogged db
    → IsLogged (put_finding g db)
put_finding-IsLogged f g db there id status (d, logged) = (
  Distinct-replace finding_key g db.findings d,
  λ k. logged k ∙ elim (text-cases g.id k) [
    | inl e ↦
        let was : find_finding k db ≡ some f =
          subst (λ i. find_finding i db ≡ some f) (sym id ∙ e) there in
        ap status_in was
        ∙ sym status
        ∙ ap status_in (sym (Table.find-replace_self finding_key g f k db.findings was e))
    | inr n ↦ ap status_in (sym (Table.find-replace_ne finding_key g k db.findings n))
  ],
)

-- What an upsert keeps of the findings: the events, and each row's status; what is new is open.
abbrev pub Kept : FindingDb → FindingDb → Type 0
Kept db db' =
    (db'.events ≡ db.events)
    × ((k : String) (f : FindingModel)
        → find_finding k db ≡ some f
        → (g : FindingModel) × (find_finding k db' ≡ some g) × (g.status ≡ f.status))
    × ((k : String) (g : FindingModel)
        → find_finding k db ≡ none
        → find_finding k db' ≡ some g
        → g.status ≡ FindingStatus.opened)

Kept-refl : (db : FindingDb) → Kept db db
Kept-refl db = (refl, λ k f e. (f, e, refl), λ k g e e'. ground arith)

Kept-trans : (a b c : FindingDb) → Kept a b → Kept b c → Kept a c
Kept-trans a b c (e₁, old₁, new₁) (e₂, old₂, new₂) = (
  e₂ ∙ e₁,
  λ k f h. let (g, hg, sg) = old₁ k f h in let (i, hi, si) = old₂ k g hg in (i, hi, si ∙ sg),
  λ k i h hi. elim (Option-cases (find_finding k b)) [
    | inl e ↦ new₂ k i e hi
    | inr (g, e) ↦
        let (j, hj, sj) = old₂ k g e in
        let same : some j ≡ some i = sym hj ∙ hi in let opened = new₁ k g h e in ground arith
  ],
)

insert_finding-Kept :
    (f : FindingModel) (db db' : FindingDb)
    → f.status ≡ FindingStatus.opened
    → insert_finding f db ≡ ok db'
    → Kept db db'
insert_finding-Kept f db db' new i =
    let (absent, e) = insert_finding-inv f db db' i in
    subst (Kept db) (sym e) (
      refl,
      λ k g h. (g, Table.find-append_old finding_key k db.findings f g h, refl),
      λ k g h hg. elim (Table.find-append-inv finding_key k db.findings f g hg) [
        | inl old ↦ ground arith
        | inr (no_row, key, is) ↦ ap (λ x. x.status) is ∙ new
      ],
    )

-- A row that keeps its identifier and its status.
put_finding-Kept :
    (f g : FindingModel) (db : FindingDb)
    → find_finding f.id db ≡ some f
    → g.id ≡ f.id
    → g.status ≡ f.status
    → Kept db (put_finding g db)
put_finding-Kept f g db there id status = (
  refl,
  λ k h hk. elim (text-cases g.id k) [
    | inl e ↦
        let was : some f ≡ some h =
          sym (subst (λ i. find_finding i db ≡ some f) (sym id ∙ e) there) ∙ hk in
        (g, Table.find-replace_self finding_key g h k db.findings hk e, ground arith)
    | inr n ↦ (h, Table.find-replace_ne finding_key g k db.findings n ∙ hk, refl)
  ],
  λ k h absent hk. elim (Table.find-replace-inv finding_key g h k db.findings hk) [
    | inl (key, is, (c, was)) ↦ ground arith
    | inr (n, was) ↦ ground arith
  ],
)

-- Events and statuses kept, and each status still what its events say.
abbrev pub Upserted : FindingDb → FindingDb → Type 0
Upserted db db' = Kept db db' × IsLogged db'

upsert-Upserted :
    (size : Dict → ℕ) (now : ℕ) (audit_id id : String) (draft : FindingDraft) (db : FindingDb)
    (f : FindingModel) (db' : FindingDb)
    → IsLogged db
    → upsert size now audit_id id draft db ≡ ok (f, db')
    → Upserted db db'
unfolding upsert new_finding seen_again
upsert-Upserted size now audit_id id draft db f db' h u =
    elim (Option-cases (find_existing audit_id draft db.findings)) [
      | inl e ↦
          let (added, i, r) =
            >>=-eq-ok (insert_finding (new_finding size now audit_id id draft) db) _
              (rw (e, upsert) at u) in
          subst (Upserted db) (snd_eq r)
            (insert_finding-Kept _ db added refl i, insert_finding-IsLogged _ db added refl i h)
      | inr (g, e) ↦
          let there =
            find_existing-All (λ x. find_finding x.id db ≡ some x) audit_id draft db.findings g
              (Distinct-find finding_key db.findings h.0) e in
          subst (Upserted db) (snd_eq (rw (e, upsert) at u)) (
            put_finding-Kept g (seen_again size now draft g) db there refl refl,
            put_finding-IsLogged g (seen_again size now draft g) db there refl refl h,
          )
    ]

-- Where finding identifiers are distinct and each status is what replaying the state events from
-- OPEN gives, an upsert_evaluation that returns leaves the state events as they are and every
-- finding that was there with its status, also one seen again, and each finding that is new is open;
-- the statuses are still what replaying the events gives, and the identifiers distinct.
pub upsert_evaluation-Upserted :
    (size : Dict → ℕ) (now : ℕ) (audit_id : String) (drafts : List (String × FindingDraft))
    (db : FindingDb) (rs : List FindingRecord) (db' : FindingDb)
    → IsLogged db
    → upsert_evaluation size now audit_id drafts db ≡ ok (rs, db')
    → Upserted db db'
unfolding upsert_evaluation
upsert_evaluation-Upserted size now audit_id [] db rs db' h u =
    subst (Upserted db) (snd_eq u) (Kept-refl db, h)
upsert_evaluation-Upserted size now audit_id ((id, draft) ∷ drafts) db rs db' h u =
    let ((f, db₁), u₁, rest) = >>=-eq-ok (upsert size now audit_id id draft db) _ u in
    let ((rs', db₂), u₂, r) = >>=-eq-ok (upsert_evaluation size now audit_id drafts db₁) _ rest in
    let (kept, logged) = upsert-Upserted size now audit_id id draft db f db₁ h u₁ in
    let (later, logged') =
      upsert_evaluation-Upserted size now audit_id drafts db₁ rs' db₂ logged u₂ in
    subst (Upserted db) (snd_eq r) (Kept-trans db db₁ db₂ kept later, logged')
