-- ===== src/Device/Manager/Tasks/Cancelled.antt =====
-- What a cancellation inside a method of the manager leaves.
use owon_xdm1041_server.Base.{
  ◌≡◌, refl, ℕ, Bool, true, false, Option, none, ok, err, cancelled, Text, [], ◌∷◌, arith,
}
use owon_xdm1041_server.Device.Manager.{transact, ensure_open, attempt, timeout_or_default}
use owon_xdm1041_server.Device.Manager.Steps.{transaction, checking, opening, greeting, step}
use owon_xdm1041_server.Device.Manager.Tasks.{
  Shared, quiet, calls, acquires, goes_on, cancels, Reach, here, next,
}
use owon_xdm1041_server.Device.Transport.{Transport}

module _ (T : Transport) (default_timeout : ℕ) where
  -- Where a transaction finds the line closed and opens it, a cancellation before it has sent
  -- SYST:LOC leaves a state in which the lock is free and the line open, so that each further
  -- transaction sends its command at once, with no SYST:LOC; the cancelled one is all that has
  -- ended till then.
  pub cancel_before_greeting :
      (i : ℕ) (c : Text) (x : Bool) (t : Option ℕ) (s : T.State)
      → T.is_open s ≡ false
      → (T.open_line s).0 ≡ ok tt
      → T.is_open (T.open_line s).1 ≡ true
      → (u : Shared T.State) × Reach T default_timeout (quiet s) u
        × (u.ended ≡ record { job = transaction c x t; result = err cancelled } ∷ [])
        × (u.holder ≡ none)
        × (T.is_open u.device ≡ true)
        × ((c' : Text) (x' : Bool) (t' : Option ℕ)
            → transact T default_timeout c' x' t' u.device
              ≡ attempt T default_timeout c' x' (timeout_or_default T default_timeout t') u.device)
  unfolding step transact ensure_open
  cancel_before_greeting i c x t s closed opens opened =
      let job = transaction c x t in
      (
        _,
        next
            (next
              (next (next (next here (calls i job refl)) (acquires i job (ground arith) refl))
                (goes_on i job checking (ground arith)))
              (goes_on i job opening (ground arith)))
            (cancels i job greeting (ground arith) refl),
        refl,
        refl,
        opened,
        λ c' x' t'. ground arith,
      )
