-- ===== src/Common/Bytes.antt =====
-- Go strings: lists of bytes. Letter case is that of ASCII; other bytes are left alone.
use Prim.Native.Nat.{ℕ}
use Prim.Native.Char.{code}
use Prim.Native.String.{String}
use mathlib.Core.Path.{◌≡◌, refl, ap₂}
use mathlib.Core.Logic.{◌↔◌}
use mathlib.Core.Bool.{Bool, true, false, ◌&&◌}
use mathlib.Core.List.{List, [], ◌∷◌}
use native.Mathlib.Omega.{arith}
use edgecdnx_controller.Common.Tests.{◌==◌}

abbrev pub Text : Type 0
Text = List ℕ

-- The bytes of an ASCII literal.
abbrev pub codes : String → Text
codes String.[] = []
codes (String.◌∷◌ c s) = code c ∷ codes s

-- `s == t`
unfoldable pub text_eq : Text → Text → Bool
text_eq [] [] = true
text_eq [] (d ∷ t) = false
text_eq (c ∷ s) [] = false
text_eq (c ∷ s) (d ∷ t) = c == d && text_eq s t

eq_of_test : (s t : Text) → text_eq s t ≡ true → s ≡ t
unfolding text_eq
eq_of_test [] [] h = refl
eq_of_test [] (d ∷ t) h = ground arith
eq_of_test (c ∷ s) [] h = ground arith
eq_of_test (c ∷ s) (d ∷ t) h = ap₂ ◌∷◌ (ground arith) (eq_of_test s t (ground arith))

pub text_refl : (s : Text) → text_eq s s ≡ true
unfolding text_eq
text_refl [] = refl
text_refl (c ∷ s) = ground (arith, text_refl s)

pub text_iff : (s t : Text) → (text_eq s t ≡ true) ↔ (s ≡ t)
text_iff s t = (eq_of_test s t, λ e. rw (← e) (text_refl s))

pub text_comm : (s t : Text) → text_eq s t ≡ text_eq t s
text_comm s t = ground (arith, text_iff s t, text_iff t s)
