-- ===== src/Device/Serial/Ports.antt =====
-- The ports that a serial transport has open.
use owon_xdm1041_server.Base.{
  ◌≡◌, ◌≢◌, refl, ◌∙◌, ℕ, Bool, true, false, Bool-cases, inl, inr, Option, none, some, List, [],
  ◌∷◌, Action, Result, ok, err, transport_error, pure, raise, resume, recover, try_except,
  if◌then◌else◌, ◌>>=◌, ◌>>◌, Text, arith,
}
use owon_xdm1041_server.Device.Serial.{
  Pyserial, SerialTransport, is_open, open_line, close_line, close_port, on_world, answer, exchange,
  on_serial_error, transact_blocking, transact_on, transact,
}

-- A call that opens no port.
abbrev pub OpensNone : (P : Pyserial) {A : Type 0} → Action P.World A → Type 0
OpensNone P m = (h : P.Port) (w : P.World) → P.is_open h w ≡ false → P.is_open h (m w).1 ≡ false

-- What pyserial documents of open ports: a port is opened by being constructed, and only the one
-- that is returned; `close` closes it; and no other method opens one.
pub record OpensPorts (P : Pyserial) : Type 0 where
  pub constructs_one :
      (port : Text) (baud_rate : ℕ) (h : P.Port) (w : P.World)
      → P.is_open h w ≡ false
      → (P.construct port baud_rate w).0 ≢ ok h
      → P.is_open h (P.construct port baud_rate w).1 ≡ false
  pub closes_port : (h : P.Port) (w : P.World) → P.is_open h (P.close h w).1 ≡ false
  pub close_opens : (h : P.Port) → OpensNone P (P.close h)
  pub reset_opens : (h : P.Port) → OpensNone P (P.reset_input_buffer h)
  pub write_opens : (h : P.Port) (bytes : List ℕ) → OpensNone P (P.write h bytes)
  pub flush_opens : (h : P.Port) → OpensNone P (P.flush h)
  pub timeout_opens : (h : P.Port) (t : ℕ) → OpensNone P (P.set_timeout h t)
  pub readline_opens : (h : P.Port) → OpensNone P (P.readline h)

module _ (P : Pyserial) where
  -- No port is open but the one that the transport has.
  abbrev pub HasAll : SerialTransport P → Type 0
  HasAll s = (h : P.Port) → s.serial ≢ some h → P.is_open h s.world ≡ false

  abbrev pub NoneOpen : SerialTransport P → Type 0
  NoneOpen s = (h : P.Port) → P.is_open h s.world ≡ false

  -- The states of a transport that begins without a port, through its methods in any order,
  -- whatever they return or raise, and through changes of the world that open no port, such as a
  -- line that is pulled out.
  pub data Reach : SerialTransport P → Type 0 where
    begins :
        (port : Text) (baud_rate : ℕ) (w : P.World)
        → ((h : P.Port) → P.is_open h w ≡ false)
        → Reach (record { port = port; baud_rate = baud_rate; serial = none; world = w })
    opens : {s : SerialTransport P} → Reach s → Reach (open_line P s).1
    transacts :
        {s : SerialTransport P} (command : Text) (expect_response : Bool) (timeout : ℕ)
        → Reach s
        → Reach (transact P command expect_response timeout s).1
    closes : {s : SerialTransport P} → Reach s → Reach (close_line P s).1
    changes :
        {s : SerialTransport P} (w : P.World)
        → Reach s
        → ((h : P.Port) → P.is_open h s.world ≡ false → P.is_open h w ≡ false)
        → Reach (record s { world = w })

  -- A method that keeps the port and opens none.
  Keeps : {A : Type 0} → Action (SerialTransport P) A → Type 0
  Keeps m =
      (s : SerialTransport P)
      → ((m s).1.serial ≡ s.serial)
        × ((h : P.Port) → P.is_open h s.world ≡ false → P.is_open h (m s).1.world ≡ false)

  pure-Keeps : {A : Type 0} (r : Result A) → Keeps (λ s. (r, s))
  unfolding Keeps
  pure-Keeps r s = (refl, λ h e. e)

  bind-Keeps :
      {A B : Type 0} (m : Action (SerialTransport P) A) (f : A → Action (SerialTransport P) B)
      → Keeps m
      → ((a : A) → Keeps (f a))
      → Keeps (m >>= f)
  unfolding Keeps
  bind-Keeps {A} {B} m f h k s = resumed (m s).0 (m s).1 (h s)
    where
      resumed :
          (r : Result A) (t : SerialTransport P)
          → (t.serial ≡ s.serial)
            × ((h : P.Port) → P.is_open h s.world ≡ false → P.is_open h t.world ≡ false)
          → ((resume f r t).1.serial ≡ s.serial)
            × ((h : P.Port)
                → P.is_open h s.world ≡ false
                → P.is_open h (resume f r t).1.world ≡ false)
      resumed (ok a) t (same, shut) =
          let (same', shut') = k a t in (same' ∙ same, λ h e. shut' h (shut h e))
      resumed (err e) t kept = kept

  caught-Keeps :
      {A : Type 0} (m : Action (SerialTransport P) A)
      → Keeps m
      → Keeps (try_except m (on_serial_error (raise transport_error)))
  unfolding Keeps
  caught-Keeps {A} m h s = recovered (m s).0 (m s).1 (h s)
    where
      same_state :
          (r : Result A) (t : SerialTransport P)
          → (recover (on_serial_error (raise {A = A} transport_error)) r t).1 ≡ t
      same_state r t = ground arith

      recovered :
          (r : Result A) (t : SerialTransport P)
          → (t.serial ≡ s.serial)
            × ((h : P.Port) → P.is_open h s.world ≡ false → P.is_open h t.world ≡ false)
          → let u = (recover (on_serial_error (raise {A = A} transport_error)) r t).1 in
            (u.serial ≡ s.serial)
            × ((h : P.Port) → P.is_open h s.world ≡ false → P.is_open h u.world ≡ false)
      recovered r t kept = rw (same_state r t) kept

  world-Keeps : {A : Type 0} (m : Action P.World A) → OpensNone P m → Keeps (on_world P m)
  unfolding Keeps
  world-Keeps m h s = (refl, λ port e. h port s.world e)

module _ (P : Pyserial) (L : OpensPorts P) where
  exchange-Keeps : (h : P.Port) (c : Text) (x : Bool) (t : ℕ) → Keeps P (exchange P h c x t)
  unfolding exchange
  exchange-Keeps h c x t =
      bind-Keeps P _ _ (world-Keeps P (P.reset_input_buffer h) (L.reset_opens h)) λ a.
        bind-Keeps P _ _ (pure-Keeps P _) λ bytes.
          bind-Keeps P _ _ (world-Keeps P (P.write h bytes) (L.write_opens h bytes))
            λ b. bind-Keeps P _ _ (world-Keeps P (P.flush h) (L.flush_opens h)) λ d. asked x
    where
      asked :
          (y : Bool)
          → Keeps P (
              if y
              then (do
                on_world P (P.set_timeout h t)
                raw ← on_world P (P.readline h)
                pure (some raw))
              else pure none)
      asked true = bind-Keeps P _ _ (world-Keeps P (P.set_timeout h t) (L.timeout_opens h t)) λ a.
          bind-Keeps P _ _ (world-Keeps P (P.readline h) (L.readline_opens h))
            λ raw. pure-Keeps P (ok (some raw))
      asked false = pure-Keeps P (ok none)

  answer-Keeps : (r : Option (List ℕ)) → Keeps P (answer P r)
  answer-Keeps none = pure-Keeps P (ok none)
  answer-Keeps (some []) = pure-Keeps P (err transport_error)
  answer-Keeps (some (b ∷ raw)) = pure-Keeps P _

  transact_on-Keeps :
      (o : Option P.Port) (c : Text) (x : Bool) (t : ℕ) → Keeps P (transact_on P o c x t)
  unfolding transact_blocking
  transact_on-Keeps none c x t = pure-Keeps P (err transport_error)
  transact_on-Keeps (some h) c x t =
      bind-Keeps P _ _ (caught-Keeps P (exchange P h c x t) (exchange-Keeps h c x t)) answer-Keeps

  transact-HasAll :
      (c : Text) (x : Bool) (t : ℕ) (s : SerialTransport P)
      → HasAll P s
      → HasAll P (transact P c x t s).1
  unfolding transact Keeps
  transact-HasAll c x t s all h other =
      let (same, shut) = transact_on-Keeps s.serial c x t s in
      shut h (all h (λ e. other (same ∙ e)))

  -- Where the port is not open, none is.
  lost-NoneOpen : (s : SerialTransport P) → is_open P s ≡ false → HasAll P s → NoneOpen P s
  unfolding is_open
  lost-NoneOpen s lost all h = elim (Bool-cases (P.is_open h s.world)) [
    | inl opened ↦ all h λ e. absurd (ground (arith, e, opened, lost))
    | inr shut ↦ shut
  ]

  opened-HasAll :
      (s : SerialTransport P) (r : Result P.Port) (w : P.World)
      → ((h : P.Port) → r ≢ ok h → P.is_open h w ≡ false)
      → let t : SerialTransport P = record s { world = w } in
        let q =
          resume (λ port (u : SerialTransport P). (ok tt, record u { serial = some port })) r t in
        HasAll P (recover (on_serial_error (raise {A = Unit {0}} transport_error)) q.0 q.1).1
  opened-HasAll s (ok port) w shut h other = shut h λ e. other (ground arith)
  opened-HasAll s (err e) w shut h other = ground (arith, shut h)

  open-HasAll : (s : SerialTransport P) → HasAll P s → HasAll P (open_line P s).1
  unfolding open_line
  open-HasAll s all = elim (Bool-cases (is_open P s)) [
    | inl opened ↦ rw opened all
    | inr lost ↦ rw lost (
        opened-HasAll s (P.construct s.port s.baud_rate s.world).0
          (P.construct s.port s.baud_rate s.world).1
          λ h other.
            L.constructs_one s.port s.baud_rate h s.world (lost-NoneOpen s lost all h) other)
  ]

  -- Closing an open port that is the only one.
  closed-shut :
      (port h : P.Port) (w : P.World)
      → (some port ≢ some h → P.is_open h w ≡ false)
      → P.is_open h (P.close port w).1 ≡ false
  closed-shut port h w all = elim (Bool-cases (P.is_open h (P.close port w).1)) [
    | inl opened ↦
        let other : some port ≢ some h =
          λ e. let same : port ≡ h = cc in let shut = L.closes_port port w in absurd cc in
        let shut = L.close_opens port h w (all other) in absurd cc
    | inr shut ↦ shut
  ]

  close_port-NoneOpen :
      (o : Option P.Port) (s : SerialTransport P)
      → ((h : P.Port) → o ≢ some h → P.is_open h s.world ≡ false)
      → NoneOpen P (close_port P o s).1
  close_port-NoneOpen none s all h = all h λ e. absurd cc
  close_port-NoneOpen (some port) s all h = elim (Bool-cases (P.is_open port s.world)) [
    | inl opened ↦ rw opened (closed-shut port h s.world (all h))
    | inr lost ↦ rw lost (elim (Bool-cases (P.is_open h s.world)) [
      | inl opened ↦ all h λ e. let same : port ≡ h = cc in absurd cc
      | inr shut ↦ shut
    ])
  ]

  close-NoneOpen : (s : SerialTransport P) → HasAll P s → NoneOpen P (close_line P s).1
  unfolding close_line
  close-NoneOpen s all = close_port-NoneOpen s.serial (record s { serial = none }) all

  Reach-HasAll : (s : SerialTransport P) → Reach P s → HasAll P s
  Reach-HasAll u (begins port baud_rate w shut) = λ h other. shut h
  Reach-HasAll u (opens {s} r) = open-HasAll s (Reach-HasAll s r)
  Reach-HasAll u (transacts {s} c x n r) = transact-HasAll c x n s (Reach-HasAll s r)
  Reach-HasAll u (closes {s} r) = λ h other. close-NoneOpen s (Reach-HasAll s r) h
  Reach-HasAll u (changes {s} w r shut) = λ h other. shut h (Reach-HasAll s r h other)

  -- Over a pyserial that opens a port only where one is constructed, and closes it by `close`,
  -- whatever its methods return or raise: through the methods of a transport that begins without a
  -- port, in any order, no port is ever open but the one that the transport has, also where a port
  -- was lost and another one was opened; and after `close` none is.
  pub Reach-HoldsOne :
      (s : SerialTransport P) → Reach P s → HasAll P s × NoneOpen P (close_line P s).1
  Reach-HoldsOne s r = let all = Reach-HasAll s r in (all, close-NoneOpen s all)
