-- ===== src/Graph/Parser/Calendar.antt =====
-- The services of a day and the agency's time zone: `activeServices` and `parseAgencyTZ` of
-- internal/graph/parser.go. The date as `20060102` and its weekday are arguments.
pub mod Services
use urban_goggles.Base.{
  ℕ, zero, suc, ◌+◌, ◌%◌, Text, Text_eq, text_eq, text_lt, codes, trim_space, not, ◌==◌, ◌&&◌, ◌||◌,
  Bool, true, false, Option, none, some, List, [], ◌∷◌, Map, insert, delete, if◌then◌else◌,
}
use urban_goggles.Graph.{read_or}
use urban_goggles.Graph.Search.{get_elem?}
use urban_goggles.Graph.Parser.{File, read_csv, field_of}

abbrev pub day_columns : List Text
day_columns =
    codes "monday"
    ∷ codes "tuesday"
    ∷ codes "wednesday"
    ∷ codes "thursday"
    ∷ codes "friday"
    ∷ codes "saturday"
    ∷ codes "sunday"
    ∷ []

-- The column of a weekday, of which 0 is Sunday.
unfoldable pub day_column : ℕ → Text
day_column wd = read_or [] (get_elem? day_columns ((wd + 6) % 7))

-- A row of calendar.txt has its service run on the date.
unfoldable pub runs_on : List Text → Text → ℕ → List Text → Bool
unfolding day_column field_of
runs_on header date wd row =
    if text_lt date (field_of header row (codes "start_date"))
      || text_lt (field_of header row (codes "end_date")) date
    then false
    else field_of header row (day_column wd) == codes "1"

unfoldable pub calendar_loop :
    List Text → Text → ℕ → List (List Text) → Map Text Bool → Map Text Bool
unfolding runs_on field_of
calendar_loop header date wd [] active = active
calendar_loop header date wd (row ∷ rest) active = calendar_loop header date wd rest (
    if runs_on header date wd row
    then insert (field_of header row (codes "service_id")) true active
    else active)

-- What a row of calendar_dates.txt does.
unfoldable pub except : List Text → Text → List Text → Map Text Bool → Map Text Bool
unfolding field_of
except header date row active =
    let sid = field_of header row (codes "service_id") in
    let type = field_of header row (codes "exception_type") in
    if not (field_of header row (codes "date") == date)
    then active
    else if type == codes "1"
    then insert sid true active
    else if type == codes "2"
    then delete sid active
    else active

unfoldable pub exceptions_loop : List Text → Text → List (List Text) → Map Text Bool → Map Text Bool
unfolding except
exceptions_loop header date [] active = active
exceptions_loop header date (row ∷ rest) active =
    exceptions_loop header date rest (except header date row active)

-- `dates` is calendar_dates.txt, `none` where there is none or it is empty.
unfoldable pub active_services : File → Option File → Text → ℕ → Option (Map Text Bool)
unfolding read_csv calendar_loop exceptions_loop
active_services calendar dates date wd = elim (read_csv calendar) [
  | none ↦ none
  | some table ↦
      let active = calendar_loop table.header date wd table.rows [] in
      elim dates [
        | none ↦ some active
        | some file ↦ elim (read_csv file) [
          | none ↦ none
          | some days ↦ some (exceptions_loop days.header date days.rows active)
        ]
      ]
]

first_zone : List Text → List (List Text) → Text
unfolding field_of
first_zone header [] = []
first_zone header (row ∷ rest) = trim_space (field_of header row (codes "agency_timezone"))

-- `agency` is agency.txt, `none` where there is no such file; then, as without rows or a column, the
-- name is empty.
unfoldable pub parse_agency_tz : Option File → Option Text
unfolding read_csv first_zone
parse_agency_tz none = some []
parse_agency_tz (some file) = elim (read_csv file) [
  | none ↦ none
  | some table ↦ some (first_zone table.header table.rows)
]
