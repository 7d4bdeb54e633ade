-- ===== src/Runner/Main/Printed.antt =====
-- What the command line prints can be read back.
use owon_xdm1041_server.Base.{
  ◌≡◌, ◌⊎◌, inl, inr, refl, ℕ, zero, suc, Bool, true, false, List, [], ◌∷◌, map, Error, Result, ok,
  err, Action, Text, codes, lstrip, is_space, Bool-cases,
}
use owon_xdm1041_server.Base.Floats.{Floats}
use owon_xdm1041_server.Device.Driver.{Summary}
use owon_xdm1041_server.Device.Serial.{Pyserial}
use owon_xdm1041_server.Runner.{Running, stack_for, probe_command, serve_command}
use owon_xdm1041_server.Runner.Main.{
  align_right, items, item_line, Arguments, ArgumentParser, is_command, print_summary, serve_ended,
  dispatch, parsed, main,
}
use owon_xdm1041_server.Scpi.Listener.{Asyncio}
use owon_xdm1041_server.Settings.{Settings}

-- The first characters of a text, and the others.
pub split_at : ℕ → Text → Text × Text
split_at zero t = ([], t)
split_at (suc n) [] = ([], [])
split_at (suc n) (c ∷ t) = let (a, b) = split_at n t in (c ∷ a, b)

-- A key without the spaces before it in a column of ten characters, and what follows the two
-- characters after that column.
pub read_item : Text → Text × Text
read_item line = let (key, rest) = split_at 10 line in (lstrip key, (split_at 2 rest).1)

read_item-item_line :
    {F : Floats} (s : Summary F) → map read_item (map item_line (items s)) ≡ items s
unfolding items item_line read_item split_at lstrip align_right is_space
read_item-item_line s = refl

module _ (F : Floats) (P : Pyserial) (world : P.World) (N : Asyncio) (parser : ArgumentParser)
    (loaded : Settings) (network : N.World)
    (gathered : (use_mock : Bool)
      → Action (Running N (stack_for F P world loaded use_mock).transport.0.State) (Unit {0})) where
  -- What is printed by the subcommand: the items of the summary that the probe returned; nothing,
  -- by `serve`; and the help where there is neither.
  abbrev pub Says : Arguments → List Text → Type 0
  Says args lines =
      ((is_command (codes "probe") args.command ≡ true)
        × (s : Summary F) × ((probe_command F P world loaded args.mock).0 ≡ ok s)
        × (map read_item lines ≡ items s))
      ⊎ ((is_command (codes "serve") args.command ≡ true) × (lines ≡ []))
      ⊎ ((is_command (codes "probe") args.command ≡ false)
          × (is_command (codes "serve") args.command ≡ false)
          × (lines ≡ parser.help))

  -- The exit code 0 with what was printed, or an exception with nothing printed.
  abbrev pub Exits : Result Arguments → Result ℕ × List Text → Type 0
  Exits parsed r =
      ((args : Arguments) × (parsed ≡ ok args) × (r.0 ≡ ok 0) × Says args r.1)
      ⊎ ((e : Error) × (r ≡ (err e, [])))

  summary-Exits :
      (args : Arguments) (p : Result (Summary F))
      → is_command (codes "probe") args.command ≡ true
      → (probe_command F P world loaded args.mock).0 ≡ p
      → Exits (ok args) (print_summary p)
  summary-Exits args (ok s) probe e =
      inl (args, refl, refl, inl (probe, s, e, read_item-item_line s))
  summary-Exits args (err x) probe e = inr (x, refl)

  serve-Exits :
      (args : Arguments) (r : Result (Unit {0}))
      → is_command (codes "serve") args.command ≡ true
      → Exits (ok args) (serve_ended r)
  serve-Exits args (ok u) serve = inl (args, refl, refl, inr (inl (serve, refl)))
  serve-Exits args (err x) serve = inr (x, refl)

  dispatch-Exits :
      (args : Arguments)
      → Exits (ok args) (dispatch F P world N parser loaded network gathered args)
  unfolding dispatch
  dispatch-Exits args = elim (Bool-cases (is_command (codes "probe") args.command)) [
    | inl probe ↦
        rw probe (summary-Exits args (probe_command F P world loaded args.mock).0 probe refl)
    | inr other ↦ elim (Bool-cases (is_command (codes "serve") args.command)) [
      | inl serve ↦
          rw (other, serve)
            (serve-Exits args
              (serve_command F P world N loaded args.mock network (gathered args.mock)).0 serve)
      | inr neither ↦ rw (other, neither) (inl (args, refl, refl, inr (inr (other, neither, refl))))
    ]
  ]

  parsed-Exits :
      (r : Result Arguments) → Exits r (parsed F P world N parser loaded network gathered r)
  parsed-Exits (ok args) = dispatch-Exits args
  parsed-Exits (err x) = inr (x, refl)

  -- Whatever the arguments, the settings and the meter: the command line either raises, with
  -- nothing printed by itself, or returns the exit code 0. With the subcommand `probe` it has then
  -- printed lines from which the keys and values of the summary that the probe returned are read
  -- back, each key to the right in a column of ten characters; with `serve` nothing; and with
  -- neither the help.
  pub main-Exits :
      (argv : List Text)
      → Exits (parser.parse_args argv) (main F P world N parser loaded network gathered argv)
  unfolding main
  main-Exits argv = parsed-Exits (parser.parse_args argv)
