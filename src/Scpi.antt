-- ===== src/Scpi.antt =====
-- src/owon_xdm1041_server/scpi/server.py: the raw socket in front of the manager.
pub mod Replies
pub mod Encoding
pub mod Served
pub mod Listener
mod Tests
use owon_xdm1041_server.Base.{
  ℕ, Bool, true, Option, none, some, List, [], ◌∷◌, ◌++◌, if◌then◌else◌, Action, Error, Result, ok,
  err, unicode_error, connection_error, pure, raise, lift, ◌>>=◌, ◌>>◌, try_except, Text, codes,
  strip, text_eq, has_text, encode_ascii, decode_ascii,
}
use owon_xdm1041_server.Device.Driver.{on_device_error}
use owon_xdm1041_server.Device.Manager
use owon_xdm1041_server.Device.Transport.{Transport}

-- What happens while a client's loop waits: a line arrives, empty at the end of the stream, and the
-- flag says whether the peer takes the reply (if not, `drain` raises); `readline` raises; or other
-- tasks change the device.
pub data Incoming (S : Type 0) : Type 0 where
  line : List ℕ → Bool → Incoming S
  lost : Incoming S
  others : (S → S) → Incoming S

-- A client's connection beside the state of the device.
pub record Session (S : Type 0) : Type 0 where
  pub device : S
  pub written : List (List ℕ)
  pub closed : Bool

-- A step on the device alone.
abbrev pub on_device : {S A : Type 0} → Action S A → Action (Session S) A
on_device m s = let r = m s.device in (r.0, record s { device = r.1 })

-- `text.encode("ascii")`
abbrev pub encoded : Text → Result (List ℕ)
encoded t = elim (encode_ascii t) [ none ↦ err unicode_error | some bytes ↦ ok bytes ]

-- `writer.write(bytes + TERMINATOR)` and `writer.drain()`
abbrev pub send : {S : Type 0} → List ℕ → Bool → Action (Session S) (Unit {0})
send bytes taken s = (
  (if taken then ok tt else err connection_error),
  record s { written = s.written ++ ((bytes ++ (10 ∷ [])) ∷ []) },
)

-- `except (ConnectionError, asyncio.IncompleteReadError): pass`
abbrev pub on_connection_error : {S A : Type 0} → Action S A → Error → Action S A
on_connection_error h connection_error = h
on_connection_error h e = raise e

abbrev pub close_writer : {S : Type 0} {A : Type 0} → Result A × Session S → Result A × Session S
close_writer (r, s) = (r, record s { closed = true })

module _ (T : Transport) (default_timeout : ℕ) where
  -- The `try` block of `handle_command`, for a line that is stripped and not empty.
  unfoldable pub run_command : Text → Action T.State (Option Text)
  unfolding has_text
  run_command command =
      if has_text (codes "?") command
      then (do r ← Manager.query T default_timeout command none; pure (some r))
      else (do Manager.write T default_timeout command none; pure none)

  unfoldable pub handle_command : Text → Action T.State (Option Text)
  unfolding strip text_eq
  handle_command command =
      let command = strip command in
      if text_eq command []
      then pure none
      else try_except (run_command command) (on_device_error (pure none))

  -- The reply to the client, if there is one.
  abbrev pub reply : Bool → Option Text → Action (Session T.State) (Unit {0})
  reply taken none = pure tt
  reply taken (some response) = do bytes ← lift (encoded response); send bytes taken

  -- The loop of `_handle_client`, up to the end of the stream.
  unfoldable pub client_loop : List (Incoming T.State) → Action (Session T.State) (Unit {0})
  unfolding decode_ascii encode_ascii
  client_loop [] = pure tt
  client_loop (lost ∷ rest) = raise connection_error
  client_loop (others f ∷ rest) = λ s. client_loop rest (record s { device = f s.device })
  client_loop (line [] taken ∷ rest) = pure tt
  client_loop (line (b ∷ raw) taken ∷ rest) =
      let next = client_loop rest in
      do response ← on_device (handle_command (decode_ascii (b ∷ raw))); reply taken response; next

  -- `_handle_client`
  unfoldable pub handle_client : List (Incoming T.State) → Action (Session T.State) (Unit {0})
  handle_client incoming s =
      close_writer (try_except (client_loop incoming) (on_connection_error (pure tt)) s)
