-- ===== src/Tools/IdTranslator/Compare.antt =====
-- `sec_str_eq` looks at every place, and is the equality of texts.
use nimbus_io.Prelude.{◌≤◌, ◌≡◌, refl, [], ◌∷◌, Bytes, text_eq, length, arith}
use nimbus_io.Tools.IdTranslator.{match_count, sec_str_eq}

match_count-le : (a b : Bytes) → match_count a b ≤ length a
unfolding match_count
match_count-le [] b = omega arith
match_count-le (x ∷ a) [] = omega arith
match_count-le (x ∷ a) (y ∷ b) = ground (arith, match_count-le a b)

-- The comparison that looks at every place gives what an ordinary one gives.
pub sec_str_eq-text_eq : (a b : Bytes) → sec_str_eq a b ≡ text_eq a b
unfolding sec_str_eq match_count text_eq
sec_str_eq-text_eq [] [] = refl
sec_str_eq-text_eq [] (y ∷ b) = ground arith
sec_str_eq-text_eq (x ∷ a) [] = ground arith
sec_str_eq-text_eq (x ∷ a) (y ∷ b) = ground (arith, sec_str_eq-text_eq a b, match_count-le a b)
