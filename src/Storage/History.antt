-- ===== src/Storage/History.antt =====
-- `history` returns the most recent readings of the window, oldest first.
use owon_xdm1041_server.Base.{
  ◌≡◌, refl, sym, ap, ◌∙◌, ℕ, zero, suc, ◌+◌, Bool, true, Option, some, List, [], ◌∷◌, ◌++◌, All,
  All-append, length, length-append, if◌then◌else◌, arith, ok, Text,
}
use Prim.Native.Nat.{min}
use mathlib.Core.Path.{fun_ext, subst}
use mathlib.Core.List.{reverse, reverse_perm, reverse-append, append-nil, Perm}
use mathlib.Core.List.Perm
use owon_xdm1041_server.Base.Floats.{Floats}
use owon_xdm1041_server.Models.{Reading}
use owon_xdm1041_server.Storage.{
  Clause, Value, Limit, at_most, unlimited, Sqlite, Database, filters, history,
}
use owon_xdm1041_server.Storage.Queries.{all_hold, in_window, all_hold-filters}

abbrev pub keep_if : {A : Type 0} → (A → Bool) → List A → List A
keep_if p [] = []
keep_if p (x ∷ xs) = let rest = keep_if p xs in if p x then x ∷ rest else rest

-- The rows that LIMIT lets through, and those that it cuts off.
abbrev pub cut : {A : Type 0} → ℕ → List A → List A
cut zero xs = []
cut (suc n) [] = []
cut (suc n) (x ∷ xs) = x ∷ cut n xs

abbrev pub cut_off : {A : Type 0} → ℕ → List A → List A
cut_off zero xs = xs
cut_off (suc n) [] = []
cut_off (suc n) (x ∷ xs) = cut_off n xs

abbrev pub limited : {A : Type 0} → Limit → List A → List A
limited (at_most n) xs = cut n xs
limited unlimited xs = xs

-- The limit is met: it is passed by no list and left unfilled only where nothing was cut off.
abbrev pub Fills : {A : Type 0} → Limit → List A → List A → Type 0
Fills (at_most n) xs rest = length xs ≡ min n (length xs + length rest)
Fills unlimited xs rest = length rest ≡ 0

module _ (F : Floats) where
  abbrev pub IsDescending : List (Reading F) → Type 0
  IsDescending [] = Unit
  IsDescending (x ∷ xs) = All (λ y. F.le y.timestamp x.timestamp ≡ true) xs × IsDescending xs

  abbrev pub IsAscending : List (Reading F) → Type 0
  IsAscending [] = Unit
  IsAscending (x ∷ xs) = All (λ y. F.le x.timestamp y.timestamp ≡ true) xs × IsAscending xs

  -- No reading of the first list is later than one of the second.
  abbrev pub AllBefore : List (Reading F) → List (Reading F) → Type 0
  AllBefore older xs = All (λ x. All (λ o. F.le o.timestamp x.timestamp ≡ true) older) xs

  -- SELECT … WHERE p ORDER BY ts DESC LIMIT limit, on a table: the rows are the first of some
  -- arrangement of all that pass, latest first.
  pub record IsSelection (p : Reading F → Bool) (table : List (Reading F)) (limit : Limit)
      (rows : List (Reading F)) : Type 0 where
    pub arranged : List (Reading F)
    pub perm : Perm arranged (keep_if p table)
    pub descending : IsDescending arranged
    pub first_rows : rows ≡ limited limit arranged

  -- SQLite evaluates the SELECT statement of `history` on the rows that the table holds.
  pub record Evaluates (Q : Sqlite F) : Type 0 where
    pub table : Q.Connection → Q.World → List (Reading F)
    pub select_rows :
        (conn : Q.Connection) (clauses : List Clause) (params : List (Value F)) (limit : Limit)
        (w : Q.World) (rows : List (Reading F))
        → (Q.select conn clauses params limit w).0 ≡ ok rows
        → IsSelection (all_hold F clauses params) (table conn w) limit rows

  All-before_snoc :
      (P : Reading F → Type 0) (xs : List (Reading F)) (x : Reading F)
      → All P xs
      → P x
      → All P (xs ++ (x ∷ []))
  All-before_snoc P xs x h hx = All-append P xs (x ∷ []) h (hx, tt)

  All-reverse : (P : Reading F → Type 0) (xs : List (Reading F)) → All P xs → All P (reverse xs)
  All-reverse P [] h = tt
  All-reverse P (x ∷ xs) h =
      subst (All P) (sym (reverse-append (x ∷ []) xs))
        (All-before_snoc P (reverse xs) x (All-reverse P xs h.1) h.0)

  IsAscending-snoc :
      (xs : List (Reading F)) (x : Reading F)
      → IsAscending xs
      → All (λ y. F.le y.timestamp x.timestamp ≡ true) xs
      → IsAscending (xs ++ (x ∷ []))
  IsAscending-snoc [] x h a = (tt, tt)
  IsAscending-snoc (y ∷ xs) x (hy, h) (ay, a) = (
    All-before_snoc (λ z. F.le y.timestamp z.timestamp ≡ true) xs x hy ay,
    IsAscending-snoc xs x h a,
  )

  IsAscending-reverse : (xs : List (Reading F)) → IsDescending xs → IsAscending (reverse xs)
  IsAscending-reverse [] h = tt
  IsAscending-reverse (x ∷ xs) (hx, h) = subst IsAscending (sym (reverse-append (x ∷ []) xs)) (
      IsAscending-snoc (reverse xs) x (IsAscending-reverse xs h)
        (All-reverse (λ y. F.le y.timestamp x.timestamp ≡ true) xs hx))

  All-cut_off :
      (P : Reading F → Type 0) (n : ℕ) (xs : List (Reading F)) → All P xs → All P (cut_off n xs)
  All-cut_off P zero xs h = h
  All-cut_off P (suc n) [] h = tt
  All-cut_off P (suc n) (x ∷ xs) h = All-cut_off P n xs h.1

  All-cut : (P : Reading F → Type 0) (n : ℕ) (xs : List (Reading F)) → All P xs → All P (cut n xs)
  All-cut P zero xs h = tt
  All-cut P (suc n) [] h = tt
  All-cut P (suc n) (x ∷ xs) h = (h.0, All-cut P n xs h.1)

  IsDescending-cut : (n : ℕ) (xs : List (Reading F)) → IsDescending xs → IsDescending (cut n xs)
  IsDescending-cut zero xs h = tt
  IsDescending-cut (suc n) [] h = tt
  IsDescending-cut (suc n) (x ∷ xs) h =
      (All-cut (λ y. F.le y.timestamp x.timestamp ≡ true) n xs h.0, IsDescending-cut n xs h.1)

  AllBefore-cut :
      (n : ℕ) (xs : List (Reading F)) → IsDescending xs → AllBefore (cut_off n xs) (cut n xs)
  AllBefore-cut zero xs h = tt
  AllBefore-cut (suc n) [] h = tt
  AllBefore-cut (suc n) (x ∷ xs) h =
      (All-cut_off (λ y. F.le y.timestamp x.timestamp ≡ true) n xs h.0, AllBefore-cut n xs h.1)

cut-append : {A : Type 0} (n : ℕ) (xs : List A) → cut n xs ++ cut_off n xs ≡ xs
cut-append zero xs = refl
cut-append (suc n) [] = refl
cut-append (suc n) (x ∷ xs) = ap (λ l. x ∷ l) (cut-append n xs)

length-cut :
    {A : Type 0} (n : ℕ) (xs : List A)
    → length (cut n xs) ≡ min n (length (cut n xs) + length (cut_off n xs))
length-cut zero xs = omega arith
length-cut (suc n) [] = omega arith
length-cut (suc n) (x ∷ xs) = omega (arith, length-cut n xs)

length-reverse : {A : Type 0} (xs : List A) → length (reverse xs) ≡ length xs
length-reverse [] = refl
length-reverse (x ∷ xs) =
    ap length (reverse-append (x ∷ []) xs)
    ∙ omega (arith, length-append (reverse xs) (x ∷ []), length-reverse xs)

module _ (F : Floats) where
  -- The most recent readings that pass, as many as the limit lets through, oldest first.
  pub record IsHistory (p : Reading F → Bool) (table : List (Reading F)) (limit : Limit)
      (readings : List (Reading F)) : Type 0 where
    pub older : List (Reading F)
    pub perm : Perm (readings ++ older) (keep_if p table)
    pub ascending : IsAscending F readings
    pub before : AllBefore F older readings
    pub fills : Fills limit readings older

  nothing_before : (xs : List (Reading F)) → AllBefore F [] xs
  nothing_before [] = tt
  nothing_before (x ∷ xs) = (tt, nothing_before xs)

  reverse-IsHistory :
      (p : Reading F → Bool) (table : List (Reading F)) (limit : Limit) (rows : List (Reading F))
      → IsSelection F p table limit rows
      → IsHistory p table limit (reverse rows)
  reverse-IsHistory p table (at_most n) rows s = rw s.first_rows (record {
    older = cut_off n s.arranged;
    perm =
        Perm.trans
          (Perm.append (reverse_perm (cut n s.arranged)) (Perm.refl (cut_off n s.arranged)))
          (rw cut-append s.perm);
    ascending =
        IsAscending-reverse F (cut n s.arranged) (IsDescending-cut F n s.arranged s.descending);
    before = All-reverse F _ (cut n s.arranged) (AllBefore-cut F n s.arranged s.descending);
    fills = omega (arith, length-reverse (cut n s.arranged), length-cut n s.arranged);
  })
  reverse-IsHistory p table unlimited rows s = rw s.first_rows (record {
    older = [];
    perm = Perm.trans (Perm.append (reverse_perm s.arranged) (Perm.refl [])) (rw append-nil s.perm);
    ascending = IsAscending-reverse F s.arranged s.descending;
    before = nothing_before (reverse s.arranged);
    fills = refl;
  })

module _ {F : Floats} (Q : Sqlite F) (E : Evaluates F Q) where
  history-ok :
      (since until : Option F.Float) (function : Option Text) (limit : Limit) (conn : Q.Connection)
      (d : Database Q) (rows : List (Reading F))
      → let (clauses, params) = filters F since until function in
        d.conn ≡ some conn
        → (Q.select conn clauses params limit d.world).0 ≡ ok rows
        → (history Q since until function limit d).0 ≡ ok (reverse rows)
  unfolding history
  history-ok since until function limit conn d rows e h = ground arith

  -- Over a SQLite that evaluates the statement as documented: where the statement returns, on an
  -- open connection, `history` returns readings of the table in the window, oldest first; no
  -- reading of the window that is left out is later than one returned, and none is left out while
  -- the limit leaves room.
  pub history-IsHistory :
      (since until : Option F.Float) (function : Option Text) (limit : Limit) (conn : Q.Connection)
      (d : Database Q) (rows : List (Reading F))
      → let (clauses, params) = filters F since until function in
        d.conn ≡ some conn
        → (Q.select conn clauses params limit d.world).0 ≡ ok rows
        → ((history Q since until function limit d).0 ≡ ok (reverse rows))
          × IsHistory F
              (in_window F since until function)
              (E.table conn d.world)
              limit
              (reverse rows)
  history-IsHistory since until function limit conn d rows e selected =
      let (clauses, params) = filters F since until function in
      (
        history-ok since until function limit conn d rows e selected,
        subst (λ (p : Reading F → Bool). IsHistory F p (E.table conn d.world) limit (reverse rows))
            (fun_ext (all_hold-filters F since until function))
            (reverse-IsHistory F (all_hold F clauses params) (E.table conn d.world) limit rows
              (E.select_rows conn clauses params limit d.world rows selected)),
      )
