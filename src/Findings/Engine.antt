-- ===== src/Findings/Engine.antt =====
-- findings/engine.py: duplicate drafts are merged, and the result is sorted. The dictionary `merged` is
-- the list of its values in insertion order: a value keeps the rule and the dedupe key that it stands
-- under.
use Prim.Native.Nat.{Ordering}
use Prim.Native.String.{compare as compare_text, ◌++◌ as append}
use wirescope.Prelude.{
  String, Bool, true, false, ◌&&◌, ◌||◌, List, [], ◌∷◌, ◌++◌, str_eq, any, length, leb, ltb,
  if◌then◌else◌,
}
use wirescope.Prelude.Int.{pos}
use wirescope.Prelude.Sort.{sort_by}
use wirescope.Json.{Dict, num, insert, update}
use wirescope.Findings.Models.{FindingDraft, severity_rank, confidence_rank}

abbrev pub has : String → List String → Bool
has k ks = any (λ i. str_eq i k) ks

-- `for item in right: if item not in ids: ids.append(item)`
unfoldable pub merge_ids : List String → List String → List String
merge_ids ids [] = ids
merge_ids ids (item ∷ right) = merge_ids (if has item ids then ids else ids ++ item ∷ []) right

abbrev is_nil : List String → Bool
is_nil [] = true
is_nil (_ ∷ _) = false

-- The merged data, which counts the observations where there are any.
unfoldable pub merge_data : FindingDraft → FindingDraft → List String → Dict
merge_data left right observations =
    let merged = update left.data_ right.data_ in
    if is_nil left.observation_ids && is_nil right.observation_ids
    then merged
    else insert "correlated_observation_count" (num (pos (length observations))) merged

-- `_merge`
unfoldable pub merge : FindingDraft → FindingDraft → FindingDraft
unfolding merge_ids merge_data
merge left right =
    let observations = merge_ids left.observation_ids right.observation_ids in
    record left {
      severity =
          if leb (severity_rank left.severity) (severity_rank right.severity)
          then left.severity
          else right.severity;
      confidence =
          if leb (confidence_rank left.confidence) (confidence_rank right.confidence)
          then left.confidence
          else right.confidence;
      observation_ids = observations;
      evidence_artifact_ids = merge_ids left.evidence_artifact_ids right.evidence_artifact_ids;
      data_ = merge_data left right observations;
      rationale =
          if str_eq left.rationale right.rationale
          then left.rationale
          else append left.rationale (append " " right.rationale);
    }

-- `(draft.rule_id, draft.dedupe_key)` of two drafts.
unfoldable pub same_key : FindingDraft → FindingDraft → Bool
same_key a b = str_eq a.rule_id b.rule_id && str_eq a.dedupe_key b.dedupe_key

-- One turn of the loop of `deduplicate_drafts`.
unfoldable pub add_draft : FindingDraft → List FindingDraft → List FindingDraft
unfolding merge same_key
add_draft draft [] = draft ∷ []
add_draft draft (existing ∷ merged) =
    if same_key existing draft
    then merge existing draft ∷ merged
    else existing ∷ add_draft draft merged

unfoldable pub merge_all : List FindingDraft → List FindingDraft → List FindingDraft
unfolding add_draft
merge_all merged [] = merged
merge_all merged (draft ∷ drafts) = merge_all (add_draft draft merged) drafts

abbrev pub text_leb : String → String → Bool
text_leb a b = elim (compare_text a b) [ Ordering.gt ↦ false | _ ↦ true ]

abbrev pub text_ltb : String → String → Bool
text_ltb a b = elim (compare_text a b) [ Ordering.lt ↦ true | _ ↦ false ]

-- The tuples `(SEVERITY_RANK[severity], rule_id, dedupe_key)` in order.
unfoldable pub comes_before : FindingDraft → FindingDraft → Bool
unfolding severity_rank
comes_before a b =
    ltb (severity_rank a.severity) (severity_rank b.severity)
    || (leb (severity_rank a.severity) (severity_rank b.severity)
        && (text_ltb a.rule_id b.rule_id
            || (text_leb a.rule_id b.rule_id && text_leb a.dedupe_key b.dedupe_key)))

unfoldable pub deduplicate_drafts : List FindingDraft → List FindingDraft
unfolding merge_all comes_before
deduplicate_drafts drafts = sort_by comes_before (merge_all [] drafts)
