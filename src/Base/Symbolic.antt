-- ===== src/Base/Symbolic.antt =====
-- A concrete choice of the floats, for runs and examples: a float is the text of its expression.
use Prim.Native.Nat.{ℕ}
use mathlib.Core.Bool.{Bool, true, false, ◌&&◌, ◌||◌}
use mathlib.Core.Option.{some}
use mathlib.Core.Path.{refl}
use mathlib.Core.List.{[], ◌∷◌, ◌++◌}
use owon_xdm1041_server.Base.Tests.{ltb, ◌==◌}
use owon_xdm1041_server.Base.Floats.{Floats, IsPrintable}
use owon_xdm1041_server.Base.Strings.{Text}

abbrev expression : ℕ → Text → Text → Text
expression operator a b = operator ∷ (a ++ (32 ∷ b))

-- Texts in the order of a dictionary.
abbrev le : Text → Text → Bool
le [] b = true
le (x ∷ a) [] = false
le (x ∷ a) (y ∷ b) = ltb x y || (x == y && le a b)

abbrev is_empty : Text → Bool
is_empty [] = true
is_empty (x ∷ a) = false

abbrev pub symbolic : Floats
symbolic = record {
  Float = Text;
  of_text = some;
  repr = λ x. x;
  literal = λ m k. m ∷ k ∷ [];
  of_difference = λ m n. m ∷ n ∷ [];
  add = expression b'+';
  mul = expression b'*';
  div = expression b'/';
  sub = expression b'-';
  le = le;
  non_positive = is_empty;
}

pub symbolic-IsPrintable : IsPrintable symbolic
symbolic-IsPrintable = record { of_text-repr = λ x. refl }
