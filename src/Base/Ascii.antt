-- ===== src/Base/Ascii.antt =====
-- Text that is ASCII: its encoding and decoding change nothing.
use mathlib.Core.Path.{◌≡◌, refl}
use mathlib.Core.Option.{some}
use mathlib.Core.List.{List, [], ◌∷◌}
use native.Mathlib.Omega.{arith}
use Prim.Native.Nat.{ℕ, ◌<◌}
use owon_xdm1041_server.Base.Lists.{All}
use owon_xdm1041_server.Base.Strings.{
  Text, lstrip, cons_stripped, rstrip, strip, encode_ascii, decode_ascii,
}

abbrev pub IsAscii : List ℕ → Type 0
IsAscii = All (λ c. c < 128)

pub encode_ascii-IsAscii : (t : Text) → IsAscii t → encode_ascii t ≡ some t
unfolding encode_ascii
encode_ascii-IsAscii [] h = refl
encode_ascii-IsAscii (c ∷ t) (small, h) = ground (arith, encode_ascii-IsAscii t h)

pub decode_ascii-IsAscii : (t : List ℕ) → IsAscii t → decode_ascii t ≡ t
unfolding decode_ascii
decode_ascii-IsAscii [] h = refl
decode_ascii-IsAscii (c ∷ t) (small, h) = ground (arith, decode_ascii-IsAscii t h)

lstrip-IsAscii : (t : Text) → IsAscii t → IsAscii (lstrip t)
unfolding lstrip
lstrip-IsAscii [] h = tt
lstrip-IsAscii (c ∷ t) (small, h) = ground (arith, lstrip-IsAscii t h)

cons_stripped-IsAscii : (c : ℕ) (t : Text) → c < 128 → IsAscii t → IsAscii (cons_stripped c t)
unfolding cons_stripped
cons_stripped-IsAscii c [] small h = ground arith
cons_stripped-IsAscii c (d ∷ t) small h = (small, h)

rstrip-IsAscii : (t : Text) → IsAscii t → IsAscii (rstrip t)
unfolding rstrip
rstrip-IsAscii [] h = tt
rstrip-IsAscii (c ∷ t) (small, h) = cons_stripped-IsAscii c (rstrip t) small (rstrip-IsAscii t h)

pub strip-IsAscii : (t : Text) → IsAscii t → IsAscii (strip t)
unfolding strip
strip-IsAscii t h = rstrip-IsAscii (lstrip t) (lstrip-IsAscii t h)
