-- ===== src/Findings/Merging.antt =====
-- What deduplication (findings/engine.py) keeps of the drafts it is given.
use wirescope.Prelude.{
  ◌≤◌, String, ◌≡◌, refl, ◌∙◌, ◌⊎◌, inl, inr, true, false, List, [], ◌∷◌, ◌++◌, arith, str_eq,
  eq_iff, if◌then◌else◌, All, All-map, Bool-cases,
}
use wirescope.Prelude.Sort.{insert_by, sort_by, All-insert_by, All-sort_by}
use wirescope.Findings.Models.{FindingDraft, severity_rank, confidence_rank}
use wirescope.Findings.Engine.{
  has, merge_ids, merge, same_key, add_draft, merge_all, comes_before, deduplicate_drafts,
}

-- Some entry has the property.
abbrev pub Some : (FindingDraft → Type 0) → List FindingDraft → Type 0
Some P [] = ⊥
Some P (x ∷ xs) = P x ⊎ Some P xs

-- Every identifier of the second list is in the first.
abbrev pub Holds : List String → List String → Type 0
Holds ids ks = (k : String) → has k ks ≡ true → has k ids ≡ true

has-append : (k j : String) (ids : List String) → has k ids ≡ true → has k (ids ++ j ∷ []) ≡ true
has-append k j [] h = cc
has-append k j (i ∷ ids) h = ground (arith, has-append k j ids)

has-append_last : (k : String) (ids : List String) → has k (ids ++ k ∷ []) ≡ true
has-append_last k [] = ground (arith, eq_iff k k)
has-append_last k (i ∷ ids) = ground (arith, has-append_last k ids)

has-merge_ids :
    (k : String) (ids right : List String) → has k ids ≡ true → has k (merge_ids ids right) ≡ true
unfolding merge_ids
has-merge_ids k ids [] h = h
has-merge_ids k ids (j ∷ right) h = elim (Bool-cases (has j ids)) [
  | inl e ↦ rw e (has-merge_ids k ids right h)
  | inr e ↦ rw e (has-merge_ids k (ids ++ j ∷ []) right (has-append k j ids h))
]

Holds-merge_ids : (ids right : List String) → Holds (merge_ids ids right) right
unfolding merge_ids
Holds-merge_ids ids [] k h = cc
Holds-merge_ids ids (j ∷ right) k h = elim (Bool-cases (str_eq j k)) [
  | inl e ↦ elim (Bool-cases (has j ids)) [
    | inl there ↦ rw there (has-merge_ids k ids right (ground (arith, eq_iff j k, there)))
    | inr absent ↦
        rw absent (
          has-merge_ids k (ids ++ j ∷ []) right (ground (arith, eq_iff j k, has-append_last k ids)))
  ]
  | inr e ↦ Holds-merge_ids (if has j ids then ids else ids ++ j ∷ []) right k (ground arith)
]

-- A merged draft stands for another: the same rule and key, at least as severe and as confident, and
-- with all of its observations and evidence.
pub record Covers (m d : FindingDraft) : Type 0 where
  pub key : same_key m d ≡ true
  pub severity : severity_rank m.severity ≤ severity_rank d.severity
  pub confidence : confidence_rank m.confidence ≤ confidence_rank d.confidence
  pub observations : Holds m.observation_ids d.observation_ids
  pub evidence : Holds m.evidence_artifact_ids d.evidence_artifact_ids

merge-ranks :
    (e d : FindingDraft)
    → (severity_rank (merge e d).severity ≤ severity_rank e.severity)
      × (severity_rank (merge e d).severity ≤ severity_rank d.severity)
      × (confidence_rank (merge e d).confidence ≤ confidence_rank e.confidence)
      × (confidence_rank (merge e d).confidence ≤ confidence_rank d.confidence)
unfolding merge
merge-ranks e d = ground arith

-- A merged draft covers both.
merge-Covers_right : (e d : FindingDraft) → same_key e d ≡ true → Covers (merge e d) d
unfolding merge same_key
merge-Covers_right e d h =
    let (s₁, s₂, c₁, c₂) = merge-ranks e d in
    record {
      key = h;
      severity = s₂;
      confidence = c₂;
      observations = Holds-merge_ids e.observation_ids d.observation_ids;
      evidence = Holds-merge_ids e.evidence_artifact_ids d.evidence_artifact_ids;
    }

merge-Covers_left : (e d c : FindingDraft) → Covers e c → Covers (merge e d) c
unfolding merge same_key
merge-Covers_left e d c h =
    let (s₁, s₂, c₁, c₂) = merge-ranks e d in
    record {
      key = h.key;
      severity = ground (arith, h.severity);
      confidence = ground (arith, h.confidence);
      observations =
          λ k i. has-merge_ids k e.observation_ids d.observation_ids (h.observations k i);
      evidence =
          λ k i. has-merge_ids k e.evidence_artifact_ids d.evidence_artifact_ids (h.evidence k i);
    }

Covers-self : (d : FindingDraft) → Covers d d
unfolding same_key
Covers-self d = record {
  key = ground (arith, eq_iff d.rule_id d.rule_id, eq_iff d.dedupe_key d.dedupe_key);
  severity = omega arith;
  confidence = omega arith;
  observations = λ k h. h;
  evidence = λ k h. h;
}

abbrev pub Covered : List FindingDraft → FindingDraft → Type 0
Covered ms d = Some (λ m. Covers m d) ms

add_draft-Covered : (d : FindingDraft) (ms : List FindingDraft) → Covered (add_draft d ms) d
unfolding add_draft
add_draft-Covered d [] = inl (Covers-self d)
add_draft-Covered d (m ∷ ms) = elim (Bool-cases (same_key m d)) [
  | inl e ↦ rw e (inl (merge-Covers_right m d e))
  | inr e ↦ rw e (inr (add_draft-Covered d ms))
]

add_draft-keeps :
    (d c : FindingDraft) (ms : List FindingDraft) → Covered ms c → Covered (add_draft d ms) c
unfolding add_draft
add_draft-keeps d c [] h = absurd h
add_draft-keeps d c (m ∷ ms) h = elim (Bool-cases (same_key m d)) [
  | inl e ↦ rw e (elim h [ inl i ↦ inl (merge-Covers_left m d c i) | inr i ↦ inr i ])
  | inr e ↦ rw e (elim h [ inl i ↦ inl i | inr i ↦ inr (add_draft-keeps d c ms i) ])
]

merge_all-keeps :
    (ms ds : List FindingDraft) (c : FindingDraft) → Covered ms c → Covered (merge_all ms ds) c
unfolding merge_all
merge_all-keeps ms [] c h = h
merge_all-keeps ms (d ∷ ds) c h = merge_all-keeps (add_draft d ms) ds c (add_draft-keeps d c ms h)

Some-insert_by :
    (P : FindingDraft → Type 0) (x : FindingDraft) (xs : List FindingDraft)
    → P x ⊎ Some P xs
    → Some P (insert_by comes_before x xs)
unfolding insert_by
Some-insert_by P x [] h = h
Some-insert_by P x (y ∷ ys) h = elim (Bool-cases (comes_before x y)) [
  | inl e ↦ rw e h
  | inr e ↦ rw e (elim h [
    | inl p ↦ inr (Some-insert_by P x ys (inl p))
    | inr (inl p) ↦ inl p
    | inr (inr p) ↦ inr (Some-insert_by P x ys (inr p))
  ])
]

Some-sort :
    (P : FindingDraft → Type 0) (xs : List FindingDraft)
    → Some P xs
    → Some P (sort_by comes_before xs)
unfolding sort_by
Some-sort P [] h = h
Some-sort P (x ∷ xs) (inl p) = Some-insert_by P x (sort_by comes_before xs) (inl p)
Some-sort P (x ∷ xs) (inr p) = Some-insert_by P x (sort_by comes_before xs) (inr (Some-sort P xs p))

-- The draft is one of these.
abbrev pub IsAmong : List FindingDraft → FindingDraft → Type 0
IsAmong ds d = Some (λ x. x ≡ d) ds

merge_all-Covered :
    (ms ds : List FindingDraft) (d : FindingDraft) → IsAmong ds d → Covered (merge_all ms ds) d
unfolding merge_all
merge_all-Covered ms [] d h = absurd h
merge_all-Covered ms (x ∷ ds) d (inl e) =
    merge_all-keeps (add_draft x ms) ds d (rw e (add_draft-Covered d ms))
merge_all-Covered ms (x ∷ ds) d (inr h) = merge_all-Covered (add_draft x ms) ds d h

-- Each draft given to deduplicate_drafts is covered by one that comes out: it has the same rule and
-- dedupe key, is at least as severe and as confident, and lists all of the draft's observations and
-- evidence.
pub deduplicate_drafts-Covered :
    (ds : List FindingDraft) (d : FindingDraft) → IsAmong ds d → Covered (deduplicate_drafts ds) d
unfolding deduplicate_drafts
deduplicate_drafts-Covered ds d h = Some-sort _ (merge_all [] ds) (merge_all-Covered [] ds d h)

-- No two have the same rule and dedupe key.
abbrev pub IsDistinct : List FindingDraft → Type 0
IsDistinct [] = Unit
IsDistinct (x ∷ xs) = All (λ y. same_key x y ≡ false) xs × IsDistinct xs

same_key_trans : (a b c : FindingDraft) → same_key a b ≡ true → same_key a c ≡ same_key b c
unfolding same_key
same_key_trans a b c h =
    ground (arith, eq_iff a.rule_id b.rule_id, eq_iff a.dedupe_key b.dedupe_key)

same_key_symm : (a b : FindingDraft) → same_key a b ≡ false → same_key b a ≡ false
unfolding same_key
same_key_symm a b h = ground (
  arith,
  eq_iff a.rule_id b.rule_id,
  eq_iff a.dedupe_key b.dedupe_key,
  eq_iff b.rule_id a.rule_id,
  eq_iff b.dedupe_key a.dedupe_key,
)

-- A merge does not change the key.
same_key-merge : (a e d : FindingDraft) → same_key a (merge e d) ≡ same_key a e
unfolding merge same_key
same_key-merge a e d = refl

apart-add_draft :
    (a d : FindingDraft) (ms : List FindingDraft)
    → same_key a d ≡ false
    → All (λ y. same_key a y ≡ false) ms
    → All (λ y. same_key a y ≡ false) (add_draft d ms)
unfolding add_draft
apart-add_draft a d [] n h = (n, tt)
apart-add_draft a d (m ∷ ms) n h = elim (Bool-cases (same_key m d)) [
  | inl e ↦ rw e (same_key-merge a m d ∙ h.0, h.1)
  | inr e ↦ rw e (h.0, apart-add_draft a d ms n h.1)
]

same_key-merged : (e d y : FindingDraft) → same_key (merge e d) y ≡ same_key e y
unfolding merge same_key
same_key-merged e d y = refl

add_draft-IsDistinct :
    (d : FindingDraft) (ms : List FindingDraft) → IsDistinct ms → IsDistinct (add_draft d ms)
unfolding add_draft
add_draft-IsDistinct d [] h = (tt, tt)
add_draft-IsDistinct d (m ∷ ms) h = elim (Bool-cases (same_key m d)) [
  | inl e ↦ rw e (All-map _ _ ms (λ y q. same_key-merged m d y ∙ q) h.0, h.1)
  | inr e ↦ rw e (apart-add_draft m d ms e h.0, add_draft-IsDistinct d ms h.1)
]

merge_all-IsDistinct : (ms ds : List FindingDraft) → IsDistinct ms → IsDistinct (merge_all ms ds)
unfolding merge_all
merge_all-IsDistinct ms [] h = h
merge_all-IsDistinct ms (d ∷ ds) h =
    merge_all-IsDistinct (add_draft d ms) ds (add_draft-IsDistinct d ms h)

insert_by-IsDistinct :
    (x : FindingDraft) (xs : List FindingDraft)
    → All (λ y. same_key x y ≡ false) xs
    → IsDistinct xs
    → IsDistinct (insert_by comes_before x xs)
unfolding insert_by
insert_by-IsDistinct x [] f d = (tt, tt)
insert_by-IsDistinct x (y ∷ ys) f d = elim (Bool-cases (comes_before x y)) [
  | inl e ↦ rw e (f, d)
  | inr e ↦ rw e (
    All-insert_by comes_before _ x ys (same_key_symm x y f.0) d.0,
    insert_by-IsDistinct x ys f.1 d.1,
  )
]

sort_by-IsDistinct : (xs : List FindingDraft) → IsDistinct xs → IsDistinct (sort_by comes_before xs)
unfolding sort_by
sort_by-IsDistinct [] d = tt
sort_by-IsDistinct (x ∷ xs) d =
    insert_by-IsDistinct x (sort_by comes_before xs) (All-sort_by comes_before _ xs d.0)
      (sort_by-IsDistinct xs d.1)

-- No two of the drafts that deduplicate_drafts returns have the same rule and dedupe key.
pub deduplicate_drafts-IsDistinct : (ds : List FindingDraft) → IsDistinct (deduplicate_drafts ds)
unfolding deduplicate_drafts
deduplicate_drafts-IsDistinct ds =
    sort_by-IsDistinct (merge_all [] ds) (merge_all-IsDistinct [] ds tt)
