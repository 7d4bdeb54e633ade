-- ===== src/Base/Numerals.antt =====
-- The numerals that Python writes for a number, and that they read as that number.
use Prim.Native.Nat.{◌/◌}
use Prim.Native.Nat.{ℕ, zero, suc, ◌+◌, ◌*◌, ◌%◌, ◌-◌, ◌≤◌}
use mathlib.Core.Path.{◌≡◌, refl}
use mathlib.Core.Bool.{Bool, true, false}
use mathlib.Core.List.{[], ◌∷◌, ◌++◌}
use native.Mathlib.Omega.{arith}
use owon_xdm1041_server.Base.Tests.{ltb}
use owon_xdm1041_server.Base.Strings.{Text}

-- The last digit, after the digits of the rest where there are any.
abbrev pub put_digit : Bool → ℕ → (Unit {0} → Text) → Text
put_digit true n rest = (48 + n) ∷ []
put_digit false n rest = rest tt ++ ((48 + n % 10) ∷ [])

-- The digits, where the fuel bounds their number.
unfoldable pub digits : ℕ → ℕ → Text
digits zero n = []
digits (suc fuel) n = put_digit (ltb n 10) n (λ _. digits fuel (n / 10))

unfoldable pub decimal : ℕ → Text
decimal n = digits (suc n) n

-- What a reader makes of a numeral, after a number that it has read.
abbrev pub read_after : ℕ → Text → ℕ
read_after n [] = n
read_after n (c ∷ s) = read_after (10 * n + (c - 48)) s

read_after-append :
    (n : ℕ) (s : Text) (c : ℕ) → read_after n (s ++ (c ∷ [])) ≡ 10 * read_after n s + (c - 48)
read_after-append n [] c = refl
read_after-append n (d ∷ s) c = read_after-append (10 * n + (d - 48)) s c

put_digit-read :
    (b : Bool) (n : ℕ) (rest : Unit {0} → Text)
    → ltb n 10 ≡ b
    → (ltb n 10 ≡ false → read_after 0 (rest tt) ≡ n / 10)
    → read_after 0 (put_digit b n rest) ≡ n
put_digit-read true n rest small h = omega arith
put_digit-read false n rest big h =
    rw (read_after-append 0 (rest tt) (48 + n % 10)) (omega (arith, h big))

digits-read : (fuel n : ℕ) → n ≤ fuel → read_after 0 (digits (suc fuel) n) ≡ n
unfolding digits
digits-read zero n le = put_digit-read (ltb n 10) n (λ _. []) refl (λ big. omega arith)
digits-read (suc fuel) n le =
    put_digit-read (ltb n 10) n (λ _. digits (suc fuel) (n / 10)) refl
      (λ big. digits-read fuel (n / 10) (omega arith))

decimal-read : (n : ℕ) → read_after 0 (decimal n) ≡ n
unfolding decimal
decimal-read n = digits-read n n (omega arith)
