-- ===== src/Base/Strings.antt =====
-- A Go string as the list of its bytes, with the functions of package strings that the program calls.
use Prim.Native.Char.{code}
use Prim.Native.Nat.{ℕ, zero, suc, ◌+◌, ◌/◌, ◌%◌}
use Prim.Native.String.{String}
use mathlib.Core.Path.{◌≡◌, refl}
use mathlib.Core.Logic.{◌↔◌, ◌⊎◌, ◌≢◌, inl, inr}
use mathlib.Core.Bool.{Bool, true, false, ◌&&◌, ◌||◌}
use mathlib.Core.Option.{Option, none, some}
use mathlib.Core.List.{List, [], ◌∷◌, ◌++◌}
use native.Mathlib.Omega.{arith}
use urban_goggles.Base.Int.{ℤ, pos, negsuc}
use urban_goggles.Base.Tests.{nat_eq, nat_eq_iff, Bool-cases, ltb, if◌then◌else◌, Eq}

abbrev pub Text : Type 0
Text = List ℕ

abbrev pub codes : String → Text
codes String.[] = []
codes (String.◌∷◌ c s) = code c ∷ codes s

unfoldable pub text_eq : Text → Text → Bool
text_eq [] [] = true
text_eq (a ∷ s) (b ∷ t) = nat_eq a b && text_eq s t
text_eq _ _ = false

pub text_eq_iff : (s t : Text) → (text_eq s t ≡ true) ↔ (s ≡ t)
unfolding text_eq
text_eq_iff [] [] = ground arith
text_eq_iff [] (b ∷ t) = ground arith
text_eq_iff (a ∷ s) [] = ground arith
text_eq_iff (a ∷ s) (b ∷ t) = ground (arith, text_eq_iff s t)

instance abbrev pub Text_eq : Eq Text
Text_eq = record { same = text_eq; same_iff = text_eq_iff }

pub text_eq_refl : (s : Text) → text_eq s s ≡ true
text_eq_refl s = (text_eq_iff s s).1 refl

-- `s == ""`.
abbrev pub is_empty : Text → Bool
is_empty [] = true
is_empty (c ∷ s) = false

-- What follows the first occurrence of a byte, `none` if there is none.
unfoldable pub after_byte : ℕ → Text → Option Text
after_byte b [] = none
after_byte b (c ∷ s) = if nat_eq c b then some s else after_byte b s

-- What stands before the first occurrence of a byte, all of the text if there is none.
unfoldable pub before_byte : ℕ → Text → Text
before_byte b [] = []
before_byte b (c ∷ s) = if nat_eq c b then [] else c ∷ before_byte b s

-- The text has no such byte.
abbrev pub Lacks : ℕ → Text → Type 0
Lacks b [] = Unit {0}
Lacks b (c ∷ s) = (nat_eq c b ≡ false) × Lacks b s

-- The decimal digits of a number; the number itself is fuel enough, as each round divides by ten.
unfoldable pub digits : ℕ → ℕ → Text
digits zero n = (48 + n % 10) ∷ []
digits (suc fuel) n = elim (ltb n 10) [
  | true ↦ (48 + n) ∷ []
  | false ↦ digits fuel (n / 10) ++ (48 + n % 10) ∷ []
]

-- `%d`.
unfoldable pub decimal : ℤ → Text
unfolding digits
decimal (pos n) = digits n n
decimal (negsuc n) = b'-' ∷ digits (suc n) (suc n)

pub after_byte-append : (b : ℕ) (s t : Text) → Lacks b s → after_byte b (s ++ b ∷ t) ≡ some t
unfolding after_byte
after_byte-append b [] t h = ground arith
after_byte-append b (c ∷ s) t h = ground (arith, after_byte-append b s t h.1)

pub before_byte-append : (b : ℕ) (s t : Text) → Lacks b s → before_byte b (s ++ b ∷ t) ≡ s
unfolding before_byte
before_byte-append b [] t h = ground arith
before_byte-append b (c ∷ s) t h = ground (arith, before_byte-append b s t h.1)

pub before_byte_of_Lacks : (b : ℕ) (s : Text) → Lacks b s → before_byte b s ≡ s
unfolding before_byte
before_byte_of_Lacks b [] h = refl
before_byte_of_Lacks b (c ∷ s) h = ground (arith, before_byte_of_Lacks b s h.1)

pub before_byte-Lacks : (b : ℕ) (s : Text) → Lacks b (before_byte b s)
unfolding before_byte
before_byte-Lacks b [] = tt
before_byte-Lacks b (c ∷ s) = ground (arith, before_byte-Lacks b s)

-- `s < t`, by bytes.
unfoldable pub text_lt : Text → Text → Bool
text_lt [] [] = false
text_lt [] (b ∷ t) = true
text_lt (a ∷ s) [] = false
text_lt (a ∷ s) (b ∷ t) = ltb a b || nat_eq a b && text_lt s t

abbrev cons_first : ℕ → List Text → List Text
cons_first c [] = (c ∷ []) ∷ []
cons_first c (part ∷ parts) = (c ∷ part) ∷ parts

-- strings.Split at one byte.
unfoldable pub split_byte : ℕ → Text → List Text
split_byte b [] = [] ∷ []
split_byte b (c ∷ s) =
    let parts = split_byte b s in if nat_eq c b then [] ∷ parts else cons_first c parts

pub split_byte-append :
    (b : ℕ) (s t : Text) → Lacks b s → split_byte b (s ++ b ∷ t) ≡ s ∷ split_byte b t
unfolding split_byte
split_byte-append b [] t h = ground arith
split_byte-append b (c ∷ s) t h = rw (split_byte, h.0, split_byte-append b s t h.1) refl

pub split_byte_of_Lacks : (b : ℕ) (s : Text) → Lacks b s → split_byte b s ≡ s ∷ []
unfolding split_byte
split_byte_of_Lacks b [] h = refl
split_byte_of_Lacks b (c ∷ s) h = rw (split_byte, h.0, split_byte_of_Lacks b s h.1) refl

unfoldable pub starts_with : Text → Text → Bool
starts_with [] t = true
starts_with (a ∷ p) [] = false
starts_with (a ∷ p) (b ∷ t) = nat_eq a b && starts_with p t

pub starts_with-cases :
    (p t : Text)
    → ((starts_with p t ≡ true) × (s : Text) × (t ≡ p ++ s))
      ⊎ ((starts_with p t ≡ false) × ((s : Text) → t ≢ p ++ s))
unfolding starts_with
starts_with-cases [] t = inl (refl, t, refl)
starts_with-cases (a ∷ p) [] = inr (refl, λ s e. ground (arith, e))
starts_with-cases (a ∷ p) (b ∷ t) = elim (Bool-cases (nat_eq a b)) [
  | inl same ↦ elim (starts_with-cases p t) [
    | inl (rest, s, e) ↦ inl (ground arith, s, ground (arith, nat_eq_iff a b, e))
    | inr (rest, apart) ↦ inr (ground arith, λ s e. apart s (ground (arith, e)))
  ]
  | inr different ↦ inr (ground arith, λ s e. ground (arith, nat_eq_iff a b, e))
]
