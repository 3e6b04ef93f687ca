-- ===== src/Base/Numbers.antt =====
-- `strconv.Atoi` on the bytes of a text: the value, which is clamped where the number is out of
-- range and 0 where the text is no number, and whether there was no error.
use Prim.Native.Nat.{ℕ, zero, suc, ◌+◌, ◌-◌, ◌*◌, ◌/◌, ◌%◌, ◌^◌, ◌≤◌, ◌<◌}
use mathlib.Core.Path.{◌≡◌, refl, sym, ap, subst, ◌∙◌}
use mathlib.Core.Logic.{◌≢◌, inl, inr}
use mathlib.Core.Bool.{Bool, true, false, ◌&&◌}
use mathlib.Core.List.{[], ◌∷◌, ◌++◌, append_assoc, append-nil}
use native.Mathlib.Omega.{arith}
use urban_goggles.Base.Int.{ℤ, pos, negsuc, ◌-ℤ◌}
use urban_goggles.Base.Strings.{Text, Lacks, digits, decimal}
use urban_goggles.Base.Tests.{nat_eq, ltb, leb, if◌then◌else◌, Bool-cases}

pub data Scanned : Type 0 where
  bad overflow : Scanned
  number : ℕ → Scanned

abbrev pub is_digit : ℕ → Bool
is_digit c = leb b'0' c && leb c b'9'

-- Past 64 bits the rest is not looked at.
unfoldable pub scan_digits : ℕ → Text → Scanned
scan_digits n [] = number n
scan_digits n (c ∷ s) = elim (is_digit c) [
  | false ↦ bad
  | true ↦
      let m = n * 10 + (c - b'0') in
      elim (ltb m (2 ^ 64)) [ false ↦ overflow | true ↦ scan_digits m s ]
]

unfoldable pub scan_number : Text → Scanned
unfolding scan_digits
scan_number [] = bad
scan_number (c ∷ s) = scan_digits 0 (c ∷ s)

unfoldable pub signed : Bool → Scanned → ℤ × Bool
signed minus bad = (pos 0, false)
signed false overflow = (pos (2 ^ 63 - 1), false)
signed true overflow = (negsuc (2 ^ 63 - 1), false)
signed false (number n) = if ltb n (2 ^ 63) then (pos n, true) else (pos (2 ^ 63 - 1), false)
signed true (number n) =
    if leb n (2 ^ 63) then (pos 0 -ℤ pos n, true) else (negsuc (2 ^ 63 - 1), false)

unfoldable pub atoi : Text → ℤ × Bool
unfolding signed scan_number
atoi [] = (pos 0, false)
atoi (c ∷ s) =
    if nat_eq c b'-'
    then signed true (scan_number s)
    else if nat_eq c b'+'
    then signed false (scan_number s)
    else signed false (scan_number (c ∷ s))

scan_digits-digit :
    (n d : ℕ) (s : Text)
    → d < 10
    → n * 10 + d < 2 ^ 64
    → scan_digits n ((48 + d) ∷ s) ≡ scan_digits (n * 10 + d) s
unfolding scan_digits
scan_digits-digit n d s small fits = ground arith

scan_digits-digits :
    (fuel n : ℕ) (t : Text)
    → n ≤ fuel
    → n < 2 ^ 64
    → scan_digits 0 (digits fuel n ++ t) ≡ scan_digits n t
unfolding digits scan_digits
scan_digits-digits zero n t le fits = ground arith
scan_digits-digits (suc fuel) n t le fits = elim (Bool-cases (ltb n 10)) [
  | inl small ↦
      rw (digits, small)
        (scan_digits-digit 0 n t (ground arith) (omega arith)
          ∙ ap (λ m. scan_digits m t) (omega arith))
  | inr large ↦
      rw (digits, large, append_assoc (digits fuel (n / 10)) ((48 + n % 10) ∷ []) t)
        (scan_digits-digits fuel (n / 10) ((48 + n % 10) ∷ t) (ground arith) (omega arith)
          ∙ scan_digits-digit (n / 10) (n % 10) t (omega arith) (omega arith)
          ∙ ap (λ m. scan_digits m t) (omega arith))
]

-- A number starts with a digit.
pub digits-first : (fuel n : ℕ) → (d : ℕ) × (s : Text) × (digits fuel n ≡ (48 + d) ∷ s) × (d < 10)
unfolding digits
digits-first zero n = (n % 10, [], refl, omega arith)
digits-first (suc fuel) n = elim (Bool-cases (ltb n 10)) [
  | inl small ↦ (n, [], rw (digits, small) refl, ground arith)
  | inr large ↦
      let (d, s, same, lt) = digits-first fuel (n / 10) in
      (d, s ++ (48 + n % 10) ∷ [], rw (digits, large, same) refl, lt)
]

pub atoi-decimal : (n : ℕ) → n < 2 ^ 63 → atoi (decimal (pos n)) ≡ (pos n, true)
unfolding atoi decimal
atoi-decimal n h =
    let (d, s, same, lt) = digits-first n n in
    let scanned : scan_digits 0 (digits n n) ≡ number n =
      subst (λ t. scan_digits 0 t ≡ number n) (append-nil (digits n n))
        (scan_digits-digits n n [] (omega arith) (omega arith)) in
    let head : scan_digits 0 ((48 + d) ∷ s) ≡ number n =
      subst (λ t. scan_digits 0 t ≡ number n) same scanned in
    rw same (ground (arith, head))

Lacks-append : (b : ℕ) (s t : Text) → Lacks b s → Lacks b t → Lacks b (s ++ t)
Lacks-append b [] t hs ht = ht
Lacks-append b (c ∷ s) t hs ht = (hs.0, Lacks-append b s t hs.1 ht)

pub digits-Lacks : (fuel n : ℕ) → Lacks b':' (digits fuel n)
unfolding digits
digits-Lacks zero n = (ground arith, tt)
digits-Lacks (suc fuel) n = elim (Bool-cases (ltb n 10)) [
  | inl small ↦ rw (digits, small) (ground arith, tt)
  | inr large ↦
      rw (digits, large)
        (Lacks-append b':' (digits fuel (n / 10)) ((48 + n % 10) ∷ []) (digits-Lacks fuel (n / 10))
          (ground arith, tt))
]

pub decimal-Lacks : (n : ℤ) → Lacks b':' (decimal n)
unfolding decimal
decimal-Lacks (pos n) = digits-Lacks n n
decimal-Lacks (negsuc n) = (ground arith, digits-Lacks (suc n) (suc n))

-- The number of some digits.
value_from : ℕ → Text → ℕ
value_from acc [] = acc
value_from acc (c ∷ s) = value_from (acc * 10 + (c - 48)) s

value_from-append :
    (acc c : ℕ) (s : Text) → value_from acc (s ++ c ∷ []) ≡ value_from acc s * 10 + (c - 48)
unfolding value_from
value_from-append acc c [] = refl
value_from-append acc c (d ∷ s) = value_from-append (acc * 10 + (d - 48)) c s

value_from-digits : (fuel n : ℕ) → n ≤ fuel → value_from 0 (digits fuel n) ≡ n
unfolding digits value_from
value_from-digits zero n h = ground arith
value_from-digits (suc fuel) n h = elim (Bool-cases (ltb n 10)) [
  | inl small ↦ rw (digits, small) (omega arith)
  | inr large ↦
      rw
        (
          digits,
          large,
          value_from-append 0 (48 + n % 10) (digits fuel (n / 10)),
          value_from-digits fuel (n / 10) (ground (arith, large)),
        )
        (omega arith)
]

digits-injective : (m n : ℕ) → digits m m ≡ digits n n → m ≡ n
digits-injective m n e =
    sym (value_from-digits m m (omega arith))
    ∙ ap (value_from 0) e
    ∙ value_from-digits n n (omega arith)

signs_differ : (m n : ℕ) → decimal (pos m) ≢ decimal (negsuc n)
unfolding decimal
signs_differ m n e = let (d, s, same, lt) = digits-first m m in ground (arith, same, e)

pub decimal-injective : (m n : ℤ) → decimal m ≡ decimal n → m ≡ n
unfolding decimal
decimal-injective (pos m) (pos n) e = ap pos (digits-injective m n e)
decimal-injective (pos m) (negsuc n) e = absurd (signs_differ m n e)
decimal-injective (negsuc m) (pos n) e = absurd (signs_differ n m (sym e))
decimal-injective (negsuc m) (negsuc n) e =
    let same = digits-injective (suc m) (suc n) (ground (arith, e)) in ground (arith, same)
