-- ===== src/Models/Values.antt =====
-- The values of a `metadata: dict[str, Any]`, as far as the program looks into them: a text, a
-- list (by `str()` of its members), a dict that is not empty, or any other object (by its `str()`).
use context_agent.Prelude.{String, none, some, Bool, false, List, contains}
use context_agent.Prelude.Dict.{Dict, get}

pub data Value : Type 0 where
  text : String → Value
  sequence : List String → Value
  mapping : String → Value
  other : String → Value

abbrev pub Metadata : Type 0
Metadata = Dict Value

-- `str(v)`; the text of a sequence is not looked into, so a caller gives it.
abbrev pub str_of : (List String → String) → Value → String
str_of show (text s) = s
str_of show (sequence l) = show l
str_of show (mapping s) = s
str_of show (other s) = s

-- `metadata.get(key, "")`
unfoldable pub get_or_empty : Metadata → String → Value
unfolding get
get_or_empty m key = elim (get m key) [ none ↦ text "" | some v ↦ v ]

-- `v in l` for a list of texts
abbrev pub value_in : List String → Value → Bool
value_in l (text s) = contains l s
value_in l (sequence m) = false
value_in l (mapping r) = false
value_in l (other r) = false
