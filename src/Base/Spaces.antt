-- ===== src/Base/Spaces.antt =====
-- `strings.TrimSpace` on the bytes of a text: the white space of Unicode, in UTF-8.
use Prim.Native.Nat.{ℕ}
use mathlib.Core.Path.{◌≡◌, sym, ap, ◌∙◌}
use mathlib.Core.Bool.{Bool, true, false, ◌&&◌, ◌||◌}
use mathlib.Core.List.{[], ◌∷◌, ◌++◌, reverse, reverse-append, reverse-reverse}
use native.Mathlib.Omega.{arith}
use urban_goggles.Base.Strings.{Text}
use urban_goggles.Base.Numbers.{is_digit}
use urban_goggles.Base.Tests.{nat_eq, leb, if◌then◌else◌}

-- The white space characters of one, two and three bytes.
abbrev pub is_space1 : ℕ → Bool
is_space1 a = leb 9 a && leb a 13 || nat_eq a 32

abbrev pub is_space2 : ℕ → ℕ → Bool
is_space2 a b = nat_eq a 194 && (nat_eq b 133 || nat_eq b 160)

abbrev pub is_space3 : ℕ → ℕ → ℕ → Bool
is_space3 a b c =
    nat_eq a 225 && nat_eq b 154 && nat_eq c 128
    || nat_eq a 226
      && (nat_eq b 128
            && (leb 128 c && leb c 138 || (nat_eq c 168 || (nat_eq c 169 || nat_eq c 175)))
          || nat_eq b 129 && nat_eq c 159)
    || nat_eq a 227 && nat_eq b 128 && nat_eq c 128

-- Drops the characters of one, two or three bytes at the head that pass a test.
unfoldable pub strip : (ℕ → ℕ → Bool) → (ℕ → ℕ → ℕ → Bool) → Text → Text
strip two three [] = []
strip two three (a ∷ []) = if is_space1 a then [] else a ∷ []
strip two three (a ∷ b ∷ []) = elim (is_space1 a) [
  | true ↦ strip two three (b ∷ [])
  | false ↦ if two a b then [] else a ∷ b ∷ []
]
strip two three (a ∷ b ∷ c ∷ s) = elim (is_space1 a) [
  | true ↦ strip two three (b ∷ c ∷ s)
  | false ↦ elim (two a b) [
    | true ↦ strip two three (c ∷ s)
    | false ↦ elim (three a b c) [ true ↦ strip two three s | false ↦ a ∷ b ∷ c ∷ s ]
  ]
]

-- The two tests, for bytes that stand the other way.
abbrev pub back2 : ℕ → ℕ → Bool
back2 b a = is_space2 a b

abbrev pub back3 : ℕ → ℕ → ℕ → Bool
back3 c b a = is_space3 a b c

-- The tail is stripped from the end, where the bytes of a character stand the other way.
unfoldable pub trim_space : Text → Text
unfolding strip
trim_space s = reverse (strip back2 back3 (reverse (strip is_space2 is_space3 s)))

strip-head :
    (two : ℕ → ℕ → Bool) (three : ℕ → ℕ → ℕ → Bool) (a : ℕ) (s : Text)
    → is_digit a ≡ true
    → ((b : ℕ) → two a b ≡ false)
    → ((b c : ℕ) → three a b c ≡ false)
    → strip two three (a ∷ s) ≡ a ∷ s
unfolding strip
strip-head two three a [] digit no_two no_three = ground arith
strip-head two three a (b ∷ []) digit no_two no_three = ground (arith, no_two b)
strip-head two three a (b ∷ c ∷ s) digit no_two no_three = ground (arith, no_two b, no_three b c)

-- A text between two digits stays as it is.
pub trim_space-digits :
    (a z : ℕ) (s : Text)
    → is_digit a ≡ true
    → is_digit z ≡ true
    → trim_space (a ∷ (s ++ z ∷ [])) ≡ a ∷ (s ++ z ∷ [])
unfolding trim_space
trim_space-digits a z s first last =
    let rev : reverse (a ∷ (s ++ z ∷ [])) ≡ z ∷ reverse (a ∷ s) = reverse-append (a ∷ s) (z ∷ []) in
    ap (λ u. reverse (strip back2 back3 (reverse u)))
      (strip-head is_space2 is_space3 a (s ++ z ∷ []) first (λ b. ground arith)
        (λ b c. ground arith))
    ∙ ap (λ u. reverse (strip back2 back3 u)) rev
    ∙ ap reverse
        (strip-head back2 back3 z (reverse (a ∷ s)) last (λ b. ground arith) (λ b c. ground arith))
    ∙ sym (ap reverse rev)
    ∙ reverse-reverse (a ∷ (s ++ z ∷ []))
