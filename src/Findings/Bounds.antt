-- ===== src/Findings/Bounds.antt =====
-- `_bound_data` and `_truncate` (findings/store.py): what a finding stores of its data is bounded. The
-- length of the JSON text that `json.dumps` prints is a parameter.
use Prim.Native.String.{count as text_length, [] as empty_text, ◌∷◌ as ◌∷ₜ◌}
use wirescope.Prelude.{
  ℕ, zero, suc, ◌+◌, ◌≤◌, String, true, List, [], ◌∷◌, arith, leb, ltb, length, take, if◌then◌else◌,
  str_eq,
}
use wirescope.Prelude.Int.{pos}
use wirescope.Prelude.Sort.{sort_by}
use wirescope.Json.{
  Json, Items, Fields, null, bool, num, text, arr, obj, nil, cons, end, field, Dict, insert,
}
use wirescope.Findings.Engine.{text_leb}

abbrev pub max_list_items : ℕ
max_list_items = 64

abbrev pub max_string_value : ℕ
max_string_value = 2048

abbrev pub max_finding_data_bytes : ℕ
max_finding_data_bytes = 12288

-- `s[:n]`
unfoldable pub take_text : ℕ → String → String
take_text zero s = empty_text
take_text (suc n) empty_text = empty_text
take_text (suc n) (c ∷ₜ s) = c ∷ₜ take_text n s

-- `d[k] = v`, on the fields of an object
unfoldable pub set_field : String → Json → Fields → Fields
set_field k v end = field k v end
set_field k v (field j w rest) =
    if str_eq j k then field j v rest else field j w (set_field k v rest)

unfoldable mutual
  unfolding take_text set_field

  pub truncate : Json → Json
  truncate null = null
  truncate (bool b) = bool b
  truncate (num n) = num n
  truncate (text s) =
      if ltb max_string_value (text_length s) then text (take_text max_string_value s) else text s
  truncate (arr items) = arr (truncate_items items max_list_items)
  truncate (obj fields) = obj (truncate_fields fields max_list_items end)

  pub truncate_items : Items → ℕ → Items
  truncate_items nil n = nil
  truncate_items (cons v rest) zero = nil
  truncate_items (cons v rest) (suc n) = cons (truncate v) (truncate_items rest n)

  pub truncate_fields : Fields → ℕ → Fields → Fields
  truncate_fields end n done = done
  truncate_fields (field k v rest) zero done = done
  truncate_fields (field k v rest) (suc n) done =
      truncate_fields rest n (set_field (take_text 64 k) (truncate v) done)

-- `_truncate` of the data, which is a dictionary.
unfoldable pub truncate_dict : Dict → ℕ → Dict → Dict
unfolding truncate truncate_items truncate_fields
truncate_dict [] n done = done
truncate_dict ((k, v) ∷ d) zero done = done
truncate_dict ((k, v) ∷ d) (suc n) done =
    truncate_dict d n (insert (take_text 64 k) (truncate v) done)

abbrev text_items : List String → Items
text_items [] = nil
text_items (k ∷ ks) = cons (text k) (text_items ks)

abbrev keys : Dict → List String
keys [] = []
keys ((k, v) ∷ d) = k ∷ keys d

-- `_bound_data`; `size` is the length of the encoded JSON text.
unfoldable pub bound_data : (Dict → ℕ) → Dict → Dict
unfolding truncate_dict
bound_data size d =
    let bounded = truncate_dict d max_list_items [] in
    if leb (size bounded) max_finding_data_bytes
    then bounded
    else ("truncated", bool true)
      ∷ ("keys", arr (text_items (take max_list_items (sort_by text_leb (keys d)))))
      ∷ ("original_bytes", num (pos (size bounded)))
      ∷ []

length-insert-le : (k : String) (v : Json) (d : Dict) → length (insert k v d) ≤ suc (length d)
unfolding insert
length-insert-le k v [] = omega arith
length-insert-le k v ((j, w) ∷ d) = ground (arith, length-insert-le k v d)

length-truncate_dict-le :
    (d : Dict) (n : ℕ) (done : Dict) → length (truncate_dict d n done) ≤ n + length done
unfolding truncate_dict
length-truncate_dict-le [] n done = omega arith
length-truncate_dict-le ((k, v) ∷ d) zero done = omega arith
length-truncate_dict-le ((k, v) ∷ d) (suc n) done =
    let v' = truncate v in
    let k' = take_text 64 k in
    omega (arith, length-truncate_dict-le d n (insert k' v' done), length-insert-le k' v' done)

-- Whatever the data and whatever the size of its encoding, bound_data keeps at most 64 keys.
pub length-bound_data-le : (size : Dict → ℕ) (d : Dict) → length (bound_data size d) ≤ 64
unfolding bound_data
length-bound_data-le size d = ground (arith, length-truncate_dict-le d max_list_items [])
