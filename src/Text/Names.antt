-- ===== src/Text/Names.antt =====
-- `strcmp` and `strcasecmp` decide equality, the second after folding the letters' case.
use raptor_common.Base.{true, ◌≡◌, refl, ◌↔◌, [], ◌∷◌, arith, Bytes}
use raptor_common.Text.{str_eq, fold_case, case_eq}

pub str_eq_iff : (a b : Bytes) → (str_eq a b ≡ true) ↔ (a ≡ b)
unfolding str_eq
str_eq_iff [] [] = ground arith
str_eq_iff [] (y ∷ b) = ground arith
str_eq_iff (x ∷ a) [] = ground arith
str_eq_iff (x ∷ a) (y ∷ b) = ground (arith, str_eq_iff a b)

pub case_eq_iff : (a b : Bytes) → (case_eq a b ≡ true) ↔ (fold_case a ≡ fold_case b)
unfolding case_eq
case_eq_iff a b = str_eq_iff (fold_case a) (fold_case b)

pub case_eq_refl : (a : Bytes) → case_eq a a ≡ true
case_eq_refl a = (case_eq_iff a a).1 refl

-- Names that are equal up to case answer alike to every third name.
pub case_eq_left : (a b c : Bytes) → case_eq a b ≡ true → case_eq c a ≡ case_eq c b
case_eq_left a b c h = ground (arith, case_eq_iff a b, case_eq_iff c a, case_eq_iff c b)

pub case_eq_right : (a b c : Bytes) → case_eq a b ≡ true → case_eq a c ≡ case_eq b c
case_eq_right a b c h = ground (arith, case_eq_iff a b, case_eq_iff a c, case_eq_iff b c)

pub case_eq_sym : (a b : Bytes) → case_eq a b ≡ case_eq b a
case_eq_sym a b = ground (arith, case_eq_iff a b, case_eq_iff b a)
