-- ===== src/Types/Names.antt =====
-- The name tables of src/suns_model.c agree with each other and with the enumeration.
use mathlib.Core.Option.{some-injective}
use sunspec.Prelude.{String, eq_iff, some, List, [], ◌∷◌, ◌≡◌, ◌≢◌, refl, arith}
use sunspec.Types.{SunsType, enum, suns_type_string, suns_type_from_name, name_map, search_name_map}

from_name-string :
    (t : SunsType) {s : String} → suns_type_string (enum t) ≡ some s → suns_type_from_name s ≡ t
unfolding suns_type_string suns_type_from_name enum
from_name-string SunsType.null h = rw (← some-injective _ _ h)
from_name-string _ h = rw (← some-injective _ _ h)

abbrev Names : List (String × SunsType) → Type 0
Names [] = Unit {0}
Names ((n, t) ∷ rest) = (suns_type_string (enum t) ≡ some n) × Names rest

Names-name_map : Names name_map
unfolding suns_type_string enum
Names-name_map = ground arith

search_name_map-name :
    (l : List (String × SunsType)) (s : String)
    → Names l
    → search_name_map l s ≢ SunsType.undef
    → suns_type_string (enum (search_name_map l s)) ≡ some s
unfolding search_name_map
search_name_map-name [] s names h = absurd (h refl)
search_name_map-name ((n, t) ∷ rest) s names h =
    ground (arith, eq_iff n s, search_name_map-name rest s names.1)

-- Whatever name is read as a type other than `undef` is the name of that type, and every type is
-- read from its own name: the two tables are inverse to each other.
pub suns_type_from_name-inverse :
    ((t : SunsType) (s : String) → suns_type_string (enum t) ≡ some s → suns_type_from_name s ≡ t)
    × ((s : String)
        → suns_type_from_name s ≢ SunsType.undef
        → suns_type_string (enum (suns_type_from_name s)) ≡ some s)
unfolding suns_type_from_name
suns_type_from_name-inverse =
    (λ t s h. from_name-string t h, λ s h. search_name_map-name name_map s Names-name_map h)
