-- ===== src/Web/Api/Names.antt =====
-- The names of functions and rates in requests.
use owon_xdm1041_server.Base.{◌≡◌, ◌≢◌, refl, ok, err, http_exception, Text, ◌↔◌, Result}
use owon_xdm1041_server.Device.Commands
use owon_xdm1041_server.Device.Commands.{Function, functions, Rate, slow, rates, find_member}
use owon_xdm1041_server.Device.Commands.Parsing.{find_member-ok}
use owon_xdm1041_server.Web.Api.Schema.{
  function_name, rate_name, or_unknown, parse_function, parse_rate,
}

pub parse_function-name : (f : Function) → parse_function (function_name f) ≡ ok f
unfolding parse_function
parse_function-name Commands.volt_dc = refl
parse_function-name _ = refl

pub parse_rate-name : (r : Rate) → parse_rate (rate_name r) ≡ ok r
unfolding parse_rate
parse_rate-name slow = refl
parse_rate-name _ = refl

or_unknown-ok : {A : Type 0} (r : Result A) (a : A) → or_unknown r ≡ ok a → r ≡ ok a
or_unknown-ok (ok b) a h = h
or_unknown-ok (err e) a h = cc

-- A request's name stands for a function, or a rate, exactly when it is that member's name.
parse_function-eq-ok :
    (name : Text) (f : Function) (r : Rate)
    → ((parse_function name ≡ ok f) ↔ (name ≡ function_name f))
      × ((parse_rate name ≡ ok r) ↔ (name ≡ rate_name r))
parse_function-eq-ok name f r = (
  (
    λ h.
        unfold parse_function in
        find_member-ok function_name name functions f
          (or_unknown-ok (find_member function_name name functions) f h),
    λ e. rw e (parse_function-name f),
  ),
  (
    λ h.
        unfold parse_rate in
        find_member-ok rate_name name rates r
          (or_unknown-ok (find_member rate_name name rates) r h),
    λ e. rw e (parse_rate-name r),
  ),
)

or_unknown-err :
    {A : Type 0} (r : Result A)
    → ((a : A) → or_unknown r ≢ ok a)
    → or_unknown r ≡ err (http_exception 422)
or_unknown-err (ok a) h = absurd (h a refl)
or_unknown-err (err e) h = refl

-- A name that no function has is refused.
pub parse_function-unknown :
    (name : Text)
    → ((f : Function) → name ≢ function_name f)
    → parse_function name ≡ err (http_exception 422)
unfolding parse_function
parse_function-unknown name h =
    or_unknown-err (find_member function_name name functions)
      (λ f e. h f ((parse_function-eq-ok name f slow).0.0 e))

pub parse_rate-unknown :
    (name : Text) → ((r : Rate) → name ≢ rate_name r) → parse_rate name ≡ err (http_exception 422)
unfolding parse_rate
parse_rate-unknown name h =
    or_unknown-err (find_member rate_name name rates)
      (λ r e. h r ((parse_function-eq-ok name Commands.volt_dc r).1.0 e))
