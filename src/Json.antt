-- ===== src/Json.antt =====
-- The JSON values that the program stores in its dictionary columns (`dict[str, Any]`), and the
-- dictionary operations it uses on them. Numbers are the integers; the columns modelled hold no float.
use wirescope.Prelude.{
  String, ◌≡◌, refl, Bool, Option, none, some, List, [], ◌∷◌, arith, str_eq, eq_iff, if◌then◌else◌,
}
use wirescope.Prelude.Int.{ℤ}

mutual
  pub data Json : Type 0 where
    null : Json
    bool : Bool → Json
    num : ℤ → Json
    text : String → Json
    arr : Items → Json
    obj : Fields → Json

  pub data Items : Type 0 where
    nil : Items
    cons : Json → Items → Items

  pub data Fields : Type 0 where
    end : Fields
    field : String → Json → Fields → Fields

-- A Python `dict` with text keys, in insertion order.
abbrev pub Dict : Type 0
Dict = List (String × Json)

-- The dictionary as a JSON object.
pub to_fields : Dict → Fields
to_fields [] = end
to_fields ((k, v) ∷ d) = field k v (to_fields d)

unfoldable pub lookup : String → Dict → Option Json
lookup k [] = none
lookup k ((j, v) ∷ d) = if str_eq j k then some v else lookup k d

-- `d[k] = v`
unfoldable pub insert : String → Json → Dict → Dict
insert k v [] = (k, v) ∷ []
insert k v ((j, w) ∷ d) = if str_eq j k then (j, v) ∷ d else (j, w) ∷ insert k v d

-- `d.update(e)`: the entries of `e`, first to last.
unfoldable pub update : Dict → Dict → Dict
unfolding insert
update d [] = d
update d ((k, v) ∷ e) = update (insert k v d) e

abbrev pub or_else : Option Json → Option Json → Option Json
or_else none o = o
or_else (some v) o = some v

pub lookup-insert :
    (k j : String) (v : Json) (d : Dict)
    → lookup j (insert k v d) ≡ (if str_eq k j then some v else lookup j d)
unfolding lookup insert
lookup-insert k j v [] = refl
lookup-insert k j v ((i, w) ∷ d) =
    ground (arith, eq_iff k j, eq_iff i k, eq_iff i j, lookup-insert k j v d)
