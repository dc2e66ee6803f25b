-- ===== src/Examples/Naming.antt =====
-- Go names of charts, and one that Go does not accept.
use core_provider.Base.{[], ◌∷◌, true, ◌≡◌, refl}
use core_provider.Strutil.{to_golang_name, starts_with_digit}

-- "3-app" is _3App, and "-3" is 3: the first part is empty, and the second is not looked at
three_app :
    to_golang_name (b'3' ∷ b'-' ∷ b'a' ∷ b'p' ∷ b'p' ∷ []) ≡ b'_' ∷ b'3' ∷ b'A' ∷ b'p' ∷ b'p' ∷ []
unfolding to_golang_name
three_app = refl

digit_in_front : starts_with_digit (to_golang_name (b'-' ∷ b'3' ∷ [])) ≡ true
unfolding to_golang_name starts_with_digit
digit_in_front = refl
