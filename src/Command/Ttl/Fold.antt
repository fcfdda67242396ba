-- ===== src/Command/Ttl/Fold.antt =====
-- equalFoldASCII of internal/command/command.go against a capital literal, and upper-casing.
use tellstone.Prelude.{
  ℕ, ◌+◌, ◌-◌, ◌<◌, ◌≤◌, ◌≡◌, ◌↔◌, refl, Bool, true, [], ◌∷◌, Bytes, bytes_eq, bytes_eq_iff, arith,
  map, upper, ◌==◌, holds_below, holds_below_at, agree, agree→eq,
}
use tellstone.Command.Ttl.{fold_case, equal_fold_ascii}

abbrev pub AreBytes : Bytes → Type 0
AreBytes [] = Unit
AreBytes (c ∷ s) = (c < 256) × AreBytes s

abbrev pub AreLetters : Bytes → Type 0
AreLetters [] = Unit
AreLetters (c ∷ s) = (b'A' ≤ c) × (c ≤ b'Z') × AreLetters s

abbrev same_test : ℕ → ℕ → Bool
same_test j x = agree (fold_case x == fold_case (65 + j)) (upper x == (65 + j))

abbrev letter_row : ℕ → Bool
letter_row j = holds_below (same_test j) 256

letter_table : holds_below letter_row 26 ≡ true
unfolding holds_below
letter_table = refl

-- Setting the bit 0x20 on both sides compares a byte with a capital letter as upper-casing does.
fold_letter :
    (x y : ℕ) → x < 256 → b'A' ≤ y → y ≤ b'Z' → (fold_case x == fold_case y) ≡ (upper x == y)
fold_letter x y h low high =
    let e : 65 + (y - 65) ≡ y = omega arith in
    let row = holds_below_at letter_row 26 (y - 65) (omega arith) letter_table in
    let cell = holds_below_at (same_test (y - 65)) 256 x h row in rw (← e) (agree→eq _ _ cell)

fold_name :
    (a b : Bytes) → AreBytes a → AreLetters b → equal_fold_ascii a b ≡ bytes_eq (map upper a) b
unfolding equal_fold_ascii bytes_eq
fold_name [] [] h k = refl
fold_name [] (y ∷ b) h k = refl
fold_name (x ∷ a) [] h k = refl
fold_name (x ∷ a) (y ∷ b) h k = rw (fold_letter x y h.0 k.0 k.1, fold_name a b h.1 k.2)

pub fold_iff :
    (a b : Bytes) → AreBytes a → AreLetters b → (equal_fold_ascii a b ≡ true) ↔ (map upper a ≡ b)
fold_iff a b h k = rw (fold_name a b h k) (bytes_eq_iff (map upper a) b)
