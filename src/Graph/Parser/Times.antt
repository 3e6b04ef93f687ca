-- ===== src/Graph/Parser/Times.antt =====
-- Times of the schedule as text and as seconds.
use mathlib.Core.List.{append_assoc}
use urban_goggles.Base.{
  digits-Lacks, ℕ, ◌+◌, ◌/◌, ◌%◌, ◌^◌, ◌<◌, pos, Text, decimal, digits-first, atoi, atoi-decimal,
  trim_space, trim_space-digits, split_byte, split_byte-append, split_byte_of_Lacks, Lacks, true,
  some, [], ◌∷◌, ◌++◌, ◌≡◌, refl, sym, ap, ◌∙◌, arith, Bool-cases, ltb, inl, inr, ◌+ℤ◌, add64,
  mul64, wrap64, if◌then◌else◌, ◌*ℤ◌, scan_number, scan_digits, signed,
}
use urban_goggles.Graph.Parser.{time_of, seconds_of, parse_gtfs_time}

-- `05`, of a number below 100.
abbrev pub two_digits : ℕ → Text
two_digits n = (48 + n / 10) ∷ (48 + n % 10) ∷ []

-- Hours, then `:MM:SS`.
abbrev time_after : Text → ℕ → Text
time_after hours t = hours ++ (b':' ∷ (two_digits (t / 60 % 60) ++ (b':' ∷ two_digits (t % 60))))

-- HH:MM:SS, with as many digits for the hours as they take, but at least two.
abbrev pub gtfs_time : ℕ → Text
gtfs_time t =
    time_after (if ltb (t / 3600) 10 then two_digits (t / 3600) else decimal (pos (t / 3600))) t

-- H:MM:SS, which the format admits as well.
abbrev pub short_time : ℕ → Text
short_time t = time_after (decimal (pos (t / 3600))) t

atoi-two_digits : (n : ℕ) → n < 60 → atoi (two_digits n) ≡ (pos n, true)
unfolding atoi scan_number scan_digits signed
atoi-two_digits n h = ground arith

two_digits-Lacks : (n : ℕ) → n < 60 → Lacks b':' (two_digits n)
two_digits-Lacks n h = (ground arith, (ground arith, tt))

seconds_lem :
    (t : ℕ)
    → t < 2 ^ 50
    → seconds_of (pos (t / 3600), true) (pos (t / 60 % 60), true) (pos (t % 60), true)
      ≡ some (pos t)
unfolding seconds_of add64 mul64 wrap64 ◌*ℤ◌ ◌+ℤ◌
seconds_lem t h = ground arith

-- The text of a number of hours: it starts with a digit and has no colon.
record AreHours (hours : Text) (n : ℕ) : Type 0 where
  first : ℕ
  others : Text
  starts : hours ≡ (48 + first) ∷ others
  is_digit : first < 10
  lacks : Lacks b':' hours
  counts : atoi hours ≡ (pos n, true)

decimal-AreHours : (n : ℕ) → n < 2 ^ 50 → AreHours (decimal (pos n)) n
unfolding decimal
decimal-AreHours n h =
    let (d, s, same, lt) = digits-first n n in
    record {
      first = d;
      others = s;
      starts = same;
      is_digit = lt;
      lacks = digits-Lacks n n;
      counts = atoi-decimal n (omega arith);
    }

two_digits-AreHours : (n : ℕ) → n < 10 → AreHours (two_digits n) n
two_digits-AreHours n h = record {
  first = n / 10;
  others = (48 + n % 10) ∷ [];
  starts = refl;
  is_digit = omega arith;
  lacks = two_digits-Lacks n (omega arith);
  counts = atoi-two_digits n (omega arith);
}

trim_space-time_after :
    (hours : Text) (t n : ℕ)
    → AreHours hours n
    → trim_space (time_after hours t) ≡ time_after hours t
trim_space-time_after hours t n h =
    let minutes = t / 60 % 60 in
    let middle : Text = b':' ∷ (two_digits minutes ++ (b':' ∷ ((48 + t % 60 / 10) ∷ []))) in
    let z : ℕ = 48 + t % 60 % 10 in
    let whole : time_after hours t ≡ (48 + h.first) ∷ ((h.others ++ middle) ++ z ∷ []) =
      rw h.starts (ap (λ u. (48 + h.first) ∷ u) (sym (append_assoc h.others middle (z ∷ [])))) in
    let digit = h.is_digit in
    rw whole (
      trim_space-digits (48 + h.first) z (h.others ++ middle) (ground (arith, digit))
        (ground arith))

split_byte-time_after :
    (hours : Text) (t : ℕ)
    → Lacks b':' hours
    → split_byte b':' (time_after hours t)
      ≡ hours ∷ two_digits (t / 60 % 60) ∷ two_digits (t % 60) ∷ []
split_byte-time_after hours t lacks =
    let minutes = two_digits (t / 60 % 60) in
    let seconds = two_digits (t % 60) in
    split_byte-append b':' hours (minutes ++ (b':' ∷ seconds)) lacks
    ∙ ap (λ xs. hours ∷ xs)
        (split_byte-append b':' minutes seconds (two_digits-Lacks (t / 60 % 60) (omega arith))
          ∙ ap (λ xs. minutes ∷ xs)
              (split_byte_of_Lacks b':' seconds (two_digits-Lacks (t % 60) (omega arith))))

parse_gtfs_time-time_after :
    (hours : Text) (t : ℕ)
    → t < 2 ^ 50
    → AreHours hours (t / 3600)
    → parse_gtfs_time (time_after hours t) ≡ some (pos t)
unfolding parse_gtfs_time time_of
parse_gtfs_time-time_after hours t h are =
    ap (λ s. time_of (split_byte b':' s)) (trim_space-time_after hours t (t / 3600) are)
    ∙ ap time_of (split_byte-time_after hours t are.lacks)
    ∙ rw
        (
          are.counts,
          atoi-two_digits (t / 60 % 60) (omega arith),
          atoi-two_digits (t % 60) (omega arith),
        )
        (seconds_lem t h)

-- A time below 2 ^ 50 seconds, past midnight as well, is read as its seconds, both from HH:MM:SS,
-- with a 0 before hours below 10, and from H:MM:SS.
pub parse_gtfs_time-gtfs_time :
    (t : ℕ)
    → t < 2 ^ 50
    → (parse_gtfs_time (gtfs_time t) ≡ some (pos t))
      × (parse_gtfs_time (short_time t) ≡ some (pos t))
parse_gtfs_time-gtfs_time t h =
    let short = parse_gtfs_time-time_after _ t h (decimal-AreHours (t / 3600) (omega arith)) in
    elim (Bool-cases (ltb (t / 3600) 10)) [
      | inl early ↦ (
        rw early (
            parse_gtfs_time-time_after _ t h
              (two_digits-AreHours (t / 3600) (ground (arith, early)))),
        short,
      )
      | inr late ↦ (rw late short, short)
    ]
