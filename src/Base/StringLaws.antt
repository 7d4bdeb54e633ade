-- ===== src/Base/StringLaws.antt =====
-- Laws of the text functions: equality tests, white space at the ends, quotes.
use mathlib.Core.Path.{◌≡◌, refl, ap, ◌∙◌}
use mathlib.Core.Logic.{◌↔◌, inl, inr}
use mathlib.Core.Bool.{true, false}
use mathlib.Core.List.{[], ◌∷◌, ◌++◌, map-append}
use native.Mathlib.Omega.{arith}
use Prim.Native.Nat.{ℕ}
use owon_xdm1041_server.Base.Tests.{Bool-cases}
use owon_xdm1041_server.Base.Lists.{All}
use owon_xdm1041_server.Base.Strings.{
  Text, text_eq, is_space, lstrip, cons_stripped, rstrip, strip, upper, starts_with, but_last,
  last_is,
}

pub text_eq_refl : (s : Text) → text_eq s s ≡ true
unfolding text_eq
text_eq_refl [] = refl
text_eq_refl (c ∷ s) = ground (arith, text_eq_refl s)

eq_of_text_eq : (s t : Text) → text_eq s t ≡ true → s ≡ t
unfolding text_eq
eq_of_text_eq [] [] h = refl
eq_of_text_eq [] (d ∷ t) h = cc
eq_of_text_eq (c ∷ s) [] h = cc
eq_of_text_eq (c ∷ s) (d ∷ t) h = ground (arith, eq_of_text_eq s t)

pub text_eq_iff : (s t : Text) → (text_eq s t ≡ true) ↔ (s ≡ t)
text_eq_iff s t = (eq_of_text_eq s t, λ e. rw e (text_eq_refl t))

-- Only white space.
abbrev pub IsBlank : Text → Type 0
IsBlank = All (λ c. is_space c ≡ true)

lstrip-append_IsBlank : (p s : Text) → IsBlank p → lstrip (p ++ s) ≡ lstrip s
unfolding lstrip
lstrip-append_IsBlank [] s h = refl
lstrip-append_IsBlank (c ∷ p) s (space, h) = rw (space, lstrip-append_IsBlank p s h)

rstrip-IsBlank : (q : Text) → IsBlank q → rstrip q ≡ []
unfolding rstrip
rstrip-IsBlank [] h = refl
rstrip-IsBlank (c ∷ q) (space, h) = rw (rstrip-IsBlank q h) (rw space)

rstrip-append_IsBlank : (s q : Text) → IsBlank q → rstrip (s ++ q) ≡ rstrip s
unfolding rstrip
rstrip-append_IsBlank [] q h = rstrip-IsBlank q h
rstrip-append_IsBlank (c ∷ s) q h = ap (cons_stripped c) (rstrip-append_IsBlank s q h)

strip-append_IsBlank : (s q : Text) → IsBlank q → rstrip (lstrip (s ++ q)) ≡ rstrip (lstrip s)
unfolding lstrip
strip-append_IsBlank [] [] h = refl
strip-append_IsBlank [] (c ∷ q) (space, h) = rw space (strip-append_IsBlank [] q h)
strip-append_IsBlank (c ∷ s) q h = elim (Bool-cases (is_space c)) [
  | inl space ↦ rw space (strip-append_IsBlank s q h)
  | inr other ↦ rw other (rstrip-append_IsBlank (c ∷ s) q h)
]

-- White space around a text does not matter to `strip`.
pub strip-append_around : (p s q : Text) → IsBlank p → IsBlank q → strip (p ++ (s ++ q)) ≡ strip s
unfolding strip
strip-append_around p s q hp hq =
    ap rstrip (lstrip-append_IsBlank p (s ++ q) hp) ∙ strip-append_IsBlank s q hq

pub strip-IsBlank : (q : Text) → IsBlank q → strip q ≡ []
unfolding strip rstrip
strip-IsBlank q h = strip-append_IsBlank [] q h

cons_stripped-append : (c d : ℕ) (s : Text) → cons_stripped c (s ++ (d ∷ [])) ≡ c ∷ (s ++ (d ∷ []))
unfolding cons_stripped
cons_stripped-append c d [] = refl
cons_stripped-append c d (e ∷ s) = refl

rstrip-append_solid :
    (s : Text) (d : ℕ) → is_space d ≡ false → rstrip (s ++ (d ∷ [])) ≡ s ++ (d ∷ [])
unfolding rstrip
rstrip-append_solid [] d h = rw h
rstrip-append_solid (c ∷ s) d h =
    ap (cons_stripped c) (rstrip-append_solid s d h) ∙ cons_stripped-append c d s

-- A text between two characters that are no white space is left as it is.
pub strip-between :
    (c : ℕ) (s : Text) (d : ℕ)
    → is_space c ≡ false
    → is_space d ≡ false
    → strip (c ∷ (s ++ (d ∷ []))) ≡ c ∷ (s ++ (d ∷ []))
strip-between c s d hc hd = unfold strip lstrip in rw hc (rstrip-append_solid (c ∷ s) d hd)

pub but_last-append : (s : Text) (d : ℕ) → but_last (s ++ (d ∷ [])) ≡ s
unfolding but_last
but_last-append [] d = refl
but_last-append (c ∷ []) d = refl
but_last-append (c ∷ e ∷ s) d = ap (λ t. c ∷ t) (but_last-append (e ∷ s) d)

pub last_is-append : (s : Text) (d : ℕ) → last_is d (s ++ (d ∷ [])) ≡ true
unfolding last_is
last_is-append [] d = ground arith
last_is-append (c ∷ []) d = ground arith
last_is-append (c ∷ e ∷ s) d = last_is-append (e ∷ s) d

upper-append : (s t : Text) → upper (s ++ t) ≡ upper s ++ upper t
unfolding upper
upper-append s t = map-append _ s t

starts_with-append : (p s : Text) → starts_with (p ++ s) p ≡ true
unfolding starts_with
starts_with-append [] [] = refl
starts_with-append [] (c ∷ s) = refl
starts_with-append (c ∷ p) s = ground (arith, starts_with-append p s)

cons_stripped_onto : (c d : ℕ) (s t : Text) → cons_stripped c (s ++ (d ∷ t)) ≡ c ∷ (s ++ (d ∷ t))
unfolding cons_stripped
cons_stripped_onto c d [] t = refl
cons_stripped_onto c d (e ∷ s) t = refl

cons_stripped_solid : (d : ℕ) (t : Text) → is_space d ≡ false → cons_stripped d t ≡ d ∷ t
unfolding cons_stripped
cons_stripped_solid d [] h = rw h
cons_stripped_solid d (e ∷ t) h = refl

rstrip_onto :
    (s : Text) (d : ℕ) (t : Text) → is_space d ≡ false → rstrip (s ++ (d ∷ t)) ≡ s ++ (d ∷ rstrip t)
unfolding rstrip
rstrip_onto [] d t h = cons_stripped_solid d (rstrip t) h
rstrip_onto (c ∷ s) d t h =
    ap (cons_stripped c) (rstrip_onto s d t h) ∙ cons_stripped_onto c d s (rstrip t)

-- Behind a part that begins and ends with other characters only the tail is stripped.
pub strip_onto :
    (c : ℕ) (s : Text) (d : ℕ) (t : Text)
    → is_space c ≡ false
    → is_space d ≡ false
    → strip (c ∷ (s ++ (d ∷ t))) ≡ c ∷ (s ++ (d ∷ rstrip t))
strip_onto c s d t hc hd = unfold strip lstrip in rw hc (rstrip_onto (c ∷ s) d t hd)
