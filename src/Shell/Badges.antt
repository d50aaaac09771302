-- ===== src/Shell/Badges.antt =====
-- components/StatusBadge.jsx of both applications, and utils/date.js, which both have alike. The
-- translations and the formatting of a date are parameters; the style of a badge is given by its
-- colour.
use ion_insurance_testapp.Prelude.{String, Bool, List, [], ◌∷◌, str_eq, if◌then◌else◌, any}
use ion_insurance_testapp.Js.{Value, to_text, truthy, concat}

pub data Colour : Type 0 where
  green yellow red gray blue slate teal orange : Colour

abbrev pub one_of : List String → Value → Bool
one_of keys v = any (λ k. str_eq k (to_text v)) keys

-- `statusColors[status] || ...` of the buyer's application.
unfoldable pub status_colour : Value → Colour
status_colour status =
    if one_of ("CONFIRMED" ∷ "ACTIVE" ∷ []) status
    then green
    else if one_of ("PENDING" ∷ "PENDING_ISSUANCE" ∷ []) status
    then yellow
    else if one_of ("CANCELLED" ∷ []) status
    then red
    else gray

-- `STATUS_STYLES[status] || ...` of the insurer's.
unfoldable pub status_style : Value → Colour
status_style status =
    if one_of ("ACTIVE" ∷ "PUBLISHED" ∷ []) status
    then green
    else if one_of ("ACCEPTED" ∷ []) status
    then blue
    else if one_of ("PENDING" ∷ "PENDING_ISSUANCE" ∷ "OPEN" ∷ []) status
    then yellow
    else if one_of ("EXPIRED" ∷ "DRAFT" ∷ "CLOSED" ∷ []) status
    then slate
    else if one_of ("RESOLVED" ∷ []) status
    then teal
    else if one_of ("CANCELLED" ∷ "REJECTED" ∷ []) status
    then red
    else if one_of ("TOTAL_LOSS" ∷ []) status
    then orange
    else slate

-- `new Date(iso)` in the zone Asia/Jakarta: its day, and its day with the time.
module _ (day day_and_time : Value → String) where
  unfoldable pub fmt_date : Value → String
  fmt_date iso = if truthy iso then day iso else "—"

  unfoldable pub fmt_date_time : Value → String
  fmt_date_time iso = if truthy iso then concat (day_and_time iso ∷ " WIB" ∷ []) else "—"
