-- ===== src/Database/Values.antt =====
-- What a `catch` clause receives, as a value of JavaScript, and the test for a conflict that
-- bookings.service.ts and reschedule-requests.service.ts make of it (apps/api/src/modules).
use hktutor.Shared.{String, Bool, false, ◌||◌, List, [], ◌∷◌, any, if◌then◌else◌}
use text.Mathlib.Text.{◌==◌ as str_eq}

mutual
  pub data Value : Type 0 where
    undefined : Value
    null : Value
    str : String → Value
    object : Fields → Value

  pub data Fields : Type 0 where
    end : Fields
    field : String → Value → Fields → Fields

unfoldable pub lookup_field : String → Fields → Value
lookup_field key end = undefined
lookup_field key (field name v rest) = if str_eq name key then v else lookup_field key rest

-- `readProperty`
unfoldable pub read_property : Value → String → Value
unfolding lookup_field
read_property (object fields) key = lookup_field key fields
read_property _ key = undefined

-- `readDriverSqlState`, of which only the member test of a set is made.
unfoldable pub driver_sql_state : Value → Value
unfolding read_property
driver_sql_state e =
    read_property
      (read_property (read_property (read_property e "meta") "driverAdapterError") "cause")
      "originalCode"

-- `typeof v === 'string' && codes.has(v)`
unfoldable pub is_code_in : List String → Value → Bool
is_code_in codes (str s) = any (λ c. str_eq c s) codes
is_code_in codes _ = false

abbrev pub conflicting_sql_states : List String
conflicting_sql_states = "23503" ∷ "23505" ∷ "40001" ∷ "40P01" ∷ []

-- `isDatabaseConflict`, for a set of Prisma's codes.
unfoldable pub is_conflict_among : List String → Value → Bool
unfolding read_property driver_sql_state is_code_in
is_conflict_among codes (object fields) =
    is_code_in codes (read_property (object fields) "code")
    || is_code_in conflicting_sql_states (driver_sql_state (object fields))
is_conflict_among codes _ = false

-- bookings.service.ts, `CONFLICTING_PRISMA_CODES`
abbrev pub booking_conflict_codes : List String
booking_conflict_codes = "P2002" ∷ "P2003" ∷ "P2004" ∷ []

-- reschedule-requests.service.ts, `CONFLICTING_PRISMA_CODES`
abbrev pub reschedule_conflict_codes : List String
reschedule_conflict_codes = "P2002" ∷ "P2003" ∷ "P2004" ∷ "P2034" ∷ []

-- What `findUniqueOrThrow` and `update` throw when no row is there.
abbrev pub record_not_found : Value
record_not_found = object (field "code" (str "P2025") end)

-- What an insert throws that meets a row of the same unique key, or whose foreign key has no row.
abbrev pub unique_violation : Value
unique_violation = object (field "code" (str "P2002") end)

abbrev pub foreign_key_violation : Value
foreign_key_violation = object (field "code" (str "P2003") end)

-- `error.code === code`, of an error that Prisma throws.
unfoldable pub has_code : String → Value → Bool
unfolding read_property is_code_in
has_code code v = is_code_in (code ∷ []) (read_property v "code")
