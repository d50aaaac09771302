-- ===== src/Insurer.antt =====
-- The pages of the insurer's app that load one list or record and show it. What an answer of
-- `client.get` holds is a value; a page whose rendering throws is `none`.
pub mod Support
pub mod Tabs
pub mod Ratings
pub mod Scores
pub mod Policies
pub mod Detail
pub mod Rows
pub mod Catalogs
pub mod Overview
mod Tests
use ion_insurance_testapp.Prelude.{String, Bool, true, false, List, [], ◌∷◌, Option, none, some}
use ion_insurance_testapp.Js.{Value, null, arr, nil, get, ◌or◌}
use ion_insurance_testapp.Cards.{to_list}

-- `data?.k1 || data?.k2 || ... || []`
abbrev fallbacks : List String → Value → Value
fallbacks [] v = arr nil
fallbacks (key ∷ keys) v = get v key or fallbacks keys v

-- `Array.isArray(data) ? data : (data?.k1 || ... || [])`
abbrev pub list_among : List String → Value → Value
list_among keys (arr vs) = arr vs
list_among keys v = fallbacks keys v

-- The state that the effect of such a page sets.
pub record Loaded : Type 0 where
  pub content : Value
  pub loading : Bool
  pub error : Bool

pub data Outcome : Type 0 where
  answered : Value → Outcome
  failed : Outcome

abbrev pub mount_list : Loaded
mount_list = record { content = arr nil; loading = true; error = false }

unfoldable pub load_list : List String → Outcome → Loaded → Loaded
load_list keys (answered v) p = record p { content = list_among keys v; loading = false }
load_list keys failed p = record p { error = true; loading = false }

abbrev pub mount_record : Loaded
mount_record = record { content = null; loading = true; error = false }

unfoldable pub load_record : Outcome → Loaded → Loaded
load_record (answered v) p = record p { content = v; loading = false }
load_record failed p = record p { error = true; loading = false }

-- `xs.map(...)` and `xs.filter(...)` need an array.
abbrev pub items_of : Value → Option (List Value)
items_of (arr vs) = some (to_list vs)
items_of _ = none
