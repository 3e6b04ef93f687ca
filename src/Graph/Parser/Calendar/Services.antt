-- ===== src/Graph/Parser/Calendar/Services.antt =====
-- The services of a day against the rows of the two calendars.
use urban_goggles.Base.{
  ℕ, Text, Text_eq, codes, ◌==◌, ◌&&◌, ◌||◌, Bool, true, false, Option-cases, Option, none, some,
  List, [], ◌∷◌, ◌≡◌, refl, ap, ◌∙◌, inl, inr, arith, exists_in, Map, lookup, lookup-insert,
  lookup-delete, if◌then◌else◌,
}
use urban_goggles.Graph.{read_or}
use urban_goggles.Graph.Build.Rows.{read-insert, or-swap, or-false}
use urban_goggles.Graph.Parser.{File, Table, read_csv, field_of}
use urban_goggles.Graph.Parser.Calendar.{
  runs_on, calendar_loop, except, exceptions_loop, active_services,
}

-- What the rows for a service and a date say of it last: `1` adds it, `2` removes it.
abbrev pub last_exception : List Text → Text → Text → List (List Text) → Option Bool
last_exception header date sid [] = none
last_exception header date sid (row ∷ rest) = elim (last_exception header date sid rest) [
  | some said ↦ some said
  | none ↦
      if field_of header row (codes "date") == date
        && field_of header row (codes "service_id") == sid
      then if field_of header row (codes "exception_type") == codes "1"
        then some true
        else if field_of header row (codes "exception_type") == codes "2"
        then some false
        else none
      else none
]

-- Some row of calendar.txt has the service run.
abbrev pub in_calendar : List Text → Text → ℕ → Text → List (List Text) → Bool
in_calendar header date wd sid rows =
    exists_in (λ row. field_of header row (codes "service_id") == sid && runs_on header date wd row)
      rows

calendar_loop_lem :
    (header : List Text) (date : Text) (wd : ℕ) (sid : Text) (rows : List (List Text))
    (active : Map Text Bool)
    → read_or false (lookup sid (calendar_loop header date wd rows active))
      ≡ (in_calendar header date wd sid rows || read_or false (lookup sid active))
unfolding calendar_loop exists_in
calendar_loop_lem header date wd sid [] active = refl
calendar_loop_lem header date wd sid (row ∷ rest) active =
    let runs = runs_on header date wd row in
    let id = field_of header row (codes "service_id") in
    calendar_loop_lem header date wd sid rest _
    ∙ ap (λ b. in_calendar header date wd sid rest || b) (read-insert runs id sid active)
    ∙ or-swap (in_calendar header date wd sid rest) (id == sid && runs) _

except_lem :
    (header : List Text) (date sid : Text) (row : List Text) (active : Map Text Bool)
    → read_or false (lookup sid (except header date row active))
      ≡ read_or (read_or false (lookup sid active)) (last_exception header date sid (row ∷ []))
unfolding except
except_lem header date sid row active =
    let id = field_of header row (codes "service_id") in
    ground (arith, lookup-insert id sid true active, lookup-delete id sid active)

exceptions_loop_lem :
    (header : List Text) (date sid : Text) (rows : List (List Text)) (active : Map Text Bool)
    → read_or false (lookup sid (exceptions_loop header date rows active))
      ≡ read_or (read_or false (lookup sid active)) (last_exception header date sid rows)
unfolding exceptions_loop
exceptions_loop_lem header date sid [] active = refl
exceptions_loop_lem header date sid (row ∷ rest) active = ground (
  arith,
  exceptions_loop_lem header date sid rest (except header date row active),
  except_lem header date sid row active,
)

-- What calendar_dates.txt says last of a service on a date; no such file says nothing.
abbrev pub said : Option File → Text → Text → Option Bool
said none date sid = none
said (some file) date sid = elim (read_csv file) [
  | none ↦ none
  | some table ↦ last_exception table.header date sid table.rows
]

-- Whether a service runs on a date: what calendar_dates.txt says of it last for the date, and else
-- whether some row of calendar.txt has it run.
abbrev pub runs_service : Table → Option File → Text → ℕ → Text → Bool
runs_service calendar dates date wd sid =
    read_or (in_calendar calendar.header date wd sid calendar.rows) (said dates date sid)

-- The active services of a day are those that the last exception for the day adds, and those
-- without one that some row of the calendar has run on it.
pub active_services-runs_service :
    (calendar : File) (dates : Option File) (date : Text) (wd : ℕ) {active : Map Text Bool}
    → active_services calendar dates date wd ≡ some active
    → (table : Table) × (read_csv calendar ≡ some table)
      × ((sid : Text) → read_or false (lookup sid active) ≡ runs_service table dates date wd sid)
unfolding active_services lookup
active_services-runs_service calendar none date wd {active} h =
    elim (Option-cases (read_csv calendar)) [
      | inl gone ↦ absurd (ground (arith, gone, h))
      | inr (table, found) ↦
          let loop = calendar_loop table.header date wd table.rows [] in
          let same : loop ≡ active = ground (arith, found, h) in
          (
            table,
            found,
            λ sid.
                rw⁻¹ same (calendar_loop_lem table.header date wd sid table.rows [] ∙ or-false _),
          )
    ]
active_services-runs_service calendar (some file) date wd {active} h =
    elim (Option-cases (read_csv calendar)) [
      | inl gone ↦ absurd (ground (arith, gone, h))
      | inr (table, found) ↦ elim (Option-cases (read_csv file)) [
        | inl gone ↦ absurd (ground (arith, found, gone, h))
        | inr (days, read) ↦
            let loop = calendar_loop table.header date wd table.rows [] in
            let same : exceptions_loop days.header date days.rows loop ≡ active =
              ground (arith, found, read, h) in
            (
              table,
              found,
              λ sid.
                  rw (said, read)
                    (rw⁻¹ same (
                      exceptions_loop_lem days.header date sid days.rows loop
                      ∙ ap (λ b. read_or b (last_exception days.header date sid days.rows))
                          (calendar_loop_lem table.header date wd sid table.rows [] ∙ or-false _))),
            )
      ]
    ]
