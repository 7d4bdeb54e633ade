-- ===== src/Device/Commands/Parsing.antt =====
-- What the two `from_device` parsers accept, and what they make of it.
use owon_xdm1041_server.Base.{
  ◌≡◌, refl, ◌↔◌, true, List, [], ◌∷◌, ◌++◌, arith, leb, length, length-append, ok, Text, upper,
  split, join_words,
}
use owon_xdm1041_server.Base.StringLaws.{
  IsBlank, text_eq_iff, strip-append_around, strip-between, but_last-append, last_is-append,
}
use owon_xdm1041_server.Device.Commands.{
  unquote, Function, volt_dc, functions, function_value, find_member, normalise,
  function_from_device, Rate, slow, rates, rate_value,
}

-- A text in the double quotes that the meter puts around its answers.
abbrev pub quote : Text → Text
quote t = b'"' ∷ (t ++ (b'"' ∷ []))

quote-length : (t : Text) → leb 2 (length (quote t)) ≡ true
quote-length t = ground (arith, length-append t (b'"' ∷ []))

unquote-quote : (t : Text) → unquote (quote t) ≡ t
unfolding unquote
unquote-quote t =
    rw (strip-between b'"' t b'"' refl refl, quote-length t, last_is-append (b'"' ∷ t) b'"')
      (but_last-append t b'"')

-- `unquote` sees the text between the white space only.
unquote-around : (p s q : Text) → IsBlank p → IsBlank q → unquote (p ++ (s ++ q)) ≡ unquote s
unfolding unquote
unquote-around p s q hp hq = rw (strip-append_around p s q hp hq)

normalise_value : (f : Function) → join_words (split (function_value f)) ≡ function_value f
unfolding split join_words
normalise_value volt_dc = refl
normalise_value _ = refl

find_member-value : (f : Function) → find_member function_value (function_value f) functions ≡ ok f
unfolding find_member
find_member-value volt_dc = refl
find_member-value _ = refl

find_member-rate_value : (r : Rate) → find_member rate_value (rate_value r) rates ≡ ok r
unfolding find_member
find_member-rate_value slow = refl
find_member-rate_value _ = refl

pub find_member-ok :
    {A : Type 0} (value : A → Text) (token : Text) (ms : List A) (m : A)
    → find_member value token ms ≡ ok m
    → token ≡ value m
unfolding find_member
find_member-ok value token [] m h = cc
find_member-ok value token (n ∷ ms) m h =
    ground (arith, text_eq_iff (value n) token, find_member-ok value token ms m)

-- An answer in quotes, with any white space around it and any letter case inside, is read as the
-- function whose value it spells.
pub function_from_device-quote :
    (f : Function) (p t q : Text)
    → IsBlank p
    → IsBlank q
    → upper t ≡ function_value f
    → function_from_device (p ++ (quote t ++ q)) ≡ ok f
unfolding function_from_device
function_from_device-quote f p t q hp hq e =
    rw (unquote-around p (quote t) q hp hq, unquote-quote t, e, normalise_value f)
      (find_member-value f)

-- An answer is read as a function exactly when, without quotes, in upper case and with single
-- spaces between its words, it is the value of that function.
function_from_device-eq-ok :
    (raw : Text) (f : Function)
    → (function_from_device raw ≡ ok f) ↔ (normalise raw ≡ function_value f)
function_from_device-eq-ok raw f = (
  unfold function_from_device in find_member-ok function_value (normalise raw) functions f,
  λ e. unfold function_from_device in rw e (find_member-value f),
)
