-- ===== src/Web/Broadcast/NumberSet.antt =====
-- Sets of numbers as lists that forget their order.
use mathlib.Core.Quot
use mathlib.Core.Quot.{Quot}
use owon_xdm1041_server.Base.{
  ◌≡◌, refl, ap, ℕ, suc, Bool, true, false, List, [], ◌∷◌, length, arith, ==_iff,
}
use owon_xdm1041_server.Web.Broadcast.{has_number, without_number}
use owon_xdm1041_server.Web.Broadcast.Fanout.{IsNodup, has_number-without, IsNodup-without}

-- A list with no number twice.
abbrev pub Numbers : Type 0
Numbers = (ns : List ℕ) × IsNodup ns

abbrev pub SameNumbers : Numbers → Numbers → Type 0
SameNumbers (ns, h) (ms, k) = (n : ℕ) → has_number n ns ≡ has_number n ms

-- The numbers in a set.
abbrev pub NumberSet : Type 0
NumberSet = Quot SameNumbers

contains : ℕ → NumberSet → Bool
contains n = Quot.lift (hlevel) (λ (ns, h). has_number n ns) λ xs ys h. h n

abbrev pub of_numbers : Numbers → NumberSet
of_numbers = Quot.mk

pub exact : (x y : Numbers) → of_numbers x ≡ of_numbers y → SameNumbers x y
unfolding contains
exact x y e n = ap (contains n) e

without_absent : (n : ℕ) (ns : List ℕ) → has_number n ns ≡ false → without_number n ns ≡ ns
without_absent n [] h = refl
without_absent n (m ∷ ns) h = ground (arith, without_absent n ns)

length-without :
    (n : ℕ) (ns : List ℕ)
    → IsNodup ns
    → has_number n ns ≡ true
    → length ns ≡ suc (length (without_number n ns))
length-without n [] h there = absurd cc
length-without n (m ∷ ns) (fresh, h) there =
    ground (arith, length-without n ns h, without_absent n ns)

-- Lists with no number twice and the same numbers are equally long.
pub length-same :
    (ns ms : List ℕ)
    → (h : IsNodup ns) (k : IsNodup ms) → SameNumbers (ns, h) (ms, k)
    → length ns ≡ length ms
length-same [] [] h k same = refl
length-same [] (m ∷ ms) h k same = absurd (ground (arith, same m))
length-same (n ∷ ns) ms (fresh, h) k same =
    let there : has_number n ms ≡ true = ground (arith, same n) in
    let others : (m : ℕ) → has_number m ns ≡ has_number m (without_number n ms) =
      λ m. rw (has_number-without n m ms) (ground (arith, same m, fresh, ==_iff n m)) in
    let rest : length ns ≡ length (without_number n ms) =
      length-same ns (without_number n ms) h (IsNodup-without n ms k) others in
    omega (arith, rest, length-without n ms k there)
