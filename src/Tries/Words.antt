-- ===== src/Tries/Words.antt =====
-- Texts, and counts of the words that were inserted.
use sample_code.Common.{ℕ, ◌+◌, ◌<◌, ◌==◌, Bool, true, false, ◌&&◌, All, List, [], ◌∷◌}

abbrev pub Text : Type 0
Text = List ℕ

-- Every byte is an index of the arrays.
abbrev pub IsAscii : Text → Type 0
IsAscii = All (λ c. c < 128)

unfoldable pub same : Text → Text → Bool
same [] [] = true
same [] (b ∷ y) = false
same (a ∷ x) [] = false
same (a ∷ x) (b ∷ y) = a == b && same x y

-- `y` goes on behind `x`.
unfoldable pub extends : Text → Text → Bool
extends [] [] = false
extends [] (b ∷ y) = true
extends (a ∷ x) [] = false
extends (a ∷ x) (b ∷ y) = a == b && extends x y

abbrev pub one : Bool → ℕ
one true = 1
one false = 0

-- How often `w` is among the words.
unfoldable pub occurrences : Text → List Text → ℕ
occurrences w [] = 0
occurrences w (x ∷ words) = one (same x w) + occurrences w words

-- How many words go on behind `w`.
unfoldable pub extensions : Text → List Text → ℕ
extensions w [] = 0
extensions w (x ∷ words) = one (extends w x) + extensions w words
