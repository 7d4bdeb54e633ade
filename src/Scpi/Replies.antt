-- ===== src/Scpi/Replies.antt =====
-- What a client of the socket receives, and what its lines do to the device.
use owon_xdm1041_server.Base.{
  ◌≡◌, ◌≢◌, refl, sym, ap, ◌∙◌, ℕ, suc, ◌+◌, ◌<◌, ◌≤◌, resume, recover, pure, ◌>>◌, Bool, true,
  false, Option, none, some, arith, Action, Result, ok, err, device_error, connection_error, Text,
  codes, List, [], ◌∷◌, ◌++◌, length, length-append, All, All-append, strip, text_eq, has_text,
  starts_with, encode_ascii, decode_ascii, if◌then◌else◌, Bool-cases, inl, inr,
}
use mathlib.Core.List.{append-nil, append_assoc}
use owon_xdm1041_server.Base.StringLaws.{IsBlank, strip-IsBlank, text_eq_iff}
use owon_xdm1041_server.Device.Manager
use owon_xdm1041_server.Device.Transport.{Transport}
use owon_xdm1041_server.Scpi.{
  Incoming, line, lost, others, Session, on_connection_error, encoded, send, run_command,
  handle_command, reply, client_loop, handle_client,
}

-- The line, as `handle_command` reads it, is a query.
abbrev pub is_query : Text → Bool
is_query command = has_text (codes "?") (strip command)

pub not-query_empty : (c : Text) → c ≡ [] → ¬ (has_text (codes "?") c ≡ true)
unfolding has_text starts_with
not-query_empty [] e h = cc
not-query_empty (d ∷ c) e h = cc

-- The lines of a stream that are queries.
pub queries : {S : Type 0} → List (Incoming S) → ℕ
queries [] = 0
queries (line raw taken ∷ rest) =
    let n = queries rest in if is_query (decode_ascii raw) then suc n else n
queries (_ ∷ rest) = queries rest

-- ASCII bytes, ended by a line feed.
abbrev pub IsReply : List ℕ → Type 0
IsReply bytes = (body : List ℕ) × (bytes ≡ body ++ (10 ∷ [])) × All (λ b. b < 128) body

-- At most `n` replies are written on the way from `s` to `t`.
abbrev pub Answers : {S : Type 0} → ℕ → Session S → Session S → Type 0
Answers n s t =
    (new : List (List ℕ)) × (t.written ≡ s.written ++ new) × (length new ≤ n) × All IsReply new

Answers-none : {S : Type 0} (n : ℕ) (s t : Session S) → t.written ≡ s.written → Answers n s t
Answers-none n s t e = ([], e ∙ sym (append-nil s.written), omega arith, tt)

Answers-trans :
    {S : Type 0} (m n : ℕ) (s t u : Session S) → Answers m s t → Answers n t u → Answers (m + n) s u
Answers-trans m n s t u (xs, e, h, a) (ys, e', h', a') = (
  xs ++ ys,
  e' ∙ ap (λ (w : List (List ℕ)). w ++ ys) e ∙ append_assoc s.written xs ys,
  omega (arith, length-append xs ys),
  All-append IsReply xs ys a a',
)

Answers-weaken : {S : Type 0} (m n : ℕ) (s t : Session S) → m ≤ n → Answers m s t → Answers n s t
Answers-weaken m n s t le (xs, e, h, a) = (xs, e, omega arith, a)

encode_ascii-All :
    (t : Text) (bytes : List ℕ) → encode_ascii t ≡ some bytes → All (λ b. b < 128) bytes
unfolding encode_ascii
encode_ascii-All [] [] e = tt
encode_ascii-All [] (b ∷ bytes) e = absurd (cc)
encode_ascii-All (c ∷ t) [] e = tt
encode_ascii-All (c ∷ t) (b ∷ bytes) e = ground (arith, encode_ascii-All t bytes)

module _ (T : Transport) (default_timeout : ℕ) where
  -- A query on which the manager raises `DeviceError` has no reply and raises nothing; the device
  -- is left as the manager left it.
  handle_command_failed :
      (c : Text) (s : T.State)
      → is_query c ≡ true
      → (Manager.query T default_timeout (strip c) none s).0 ≡ err device_error
      → handle_command T default_timeout c s
        ≡ (ok none, (Manager.query T default_timeout (strip c) none s).1)
  unfolding handle_command run_command
  handle_command_failed c s q h = elim (Bool-cases (text_eq (strip c) [])) [
    | inl empty ↦ absurd (not-query_empty (strip c) ((text_eq_iff (strip c) []).0 empty) q)
    | inr full ↦ ground (arith, full)
  ]

  -- A line of white space only has no reply and does nothing to the device.
  handle_command_blank :
      (c : Text) (s : T.State) → IsBlank c → handle_command T default_timeout c s ≡ (ok none, s)
  handle_command_blank c s h = unfold handle_command text_eq in rw (strip-IsBlank c h)

  -- A line without `?` has no reply.
  handle_command-write :
      (c : Text) (s : T.State) (r : Text)
      → is_query c ≡ false
      → (handle_command T default_timeout c s).0 ≢ ok (some r)
  unfolding handle_command run_command
  handle_command-write c s r h = ground arith

module _ {S : Type 0} where
  send-Answers :
      (taken : Bool) (response : Text) (bytes : Result (List ℕ)) (s : Session S)
      → encoded response ≡ bytes
      → Answers 1 s (resume (λ bs. send bs taken) bytes s).1
  send-Answers taken response (ok bs) s e = (
    (bs ++ (10 ∷ [])) ∷ [],
    refl,
    omega arith,
    ((bs, refl, encode_ascii-All response bs (ground arith)), tt),
  )
  send-Answers taken response (err x) s e = Answers-none 1 s s refl

  next-Answers :
      (n : ℕ) (next : Action (Session S) (Unit {0}))
      → ((t : Session S) → Answers n t (next t).1)
      → (r : Result (Unit {0})) (t : Session S) → Answers n t (resume (λ _. next) r t).1
  next-Answers n next h (ok x) t = h t
  next-Answers n next h (err e) t = Answers-none n t t refl

handler_end :
    {S : Type 0} (r : Result (Unit {0})) (t : Session S)
    → let p = recover (on_connection_error (pure tt)) r t in
      (p.1 ≡ t) × (p.0 ≢ err connection_error)
handler_end r t = (ground arith, ground arith)

module _ (T : Transport) (default_timeout : ℕ) where
  -- The end of a round: the reply, and the rounds after it.
  round-Answers :
      (taken : Bool) (n m : ℕ) (next : Action (Session T.State) (Unit {0}))
      → ((t : Session T.State) → Answers n t (next t).1)
      → (r : Result (Option Text)) (s : Session T.State) → ((x : Text) → r ≡ ok (some x) → 1 ≤ m)
      → Answers
          (m + n)
          s
          (resume (λ response. reply T default_timeout taken response >> next) r s).1
  round-Answers taken n m next h (err e) s q = Answers-none (m + n) s s refl
  round-Answers taken n m next h (ok none) s q =
      Answers-weaken n (m + n) s (next s).1 (omega arith) (h s)
  round-Answers taken n m next h (ok (some x)) s q =
      let r = reply T default_timeout taken (some x) s in
      let t = (resume (λ _. next) r.0 r.1).1 in
      Answers-weaken (1 + n) (m + n) s t (omega (arith, q x refl)) (
        Answers-trans 1 n s r.1 t (send-Answers taken x (encoded x) s refl)
          (next-Answers n next h r.0 r.1))

  client_loop-Answers :
      (incoming : List (Incoming T.State)) (s : Session T.State)
      → Answers (queries incoming) s (client_loop T default_timeout incoming s).1
  unfolding client_loop queries
  client_loop-Answers [] s = Answers-none 0 s s refl
  client_loop-Answers (lost ∷ rest) s = Answers-none (queries rest) s s refl
  client_loop-Answers (others f ∷ rest) s =
      client_loop-Answers rest (record s { device = f s.device })
  client_loop-Answers (line [] taken ∷ rest) s =
      Answers-weaken 0 _ s s (omega arith) (Answers-none 0 s s refl)
  client_loop-Answers (line (b ∷ raw) taken ∷ rest) s =
      let command = decode_ascii (b ∷ raw) in
      let r = handle_command T default_timeout command s.device in
      let s' : Session T.State = record s { device = r.1 } in
      let after = λ (m : ℕ).
        round-Answers taken (queries rest) m (client_loop T default_timeout rest)
          (client_loop-Answers rest) r.0 s' in
      let t =
        (resume
          (λ response. reply T default_timeout taken response >> client_loop T default_timeout rest)
          r.0 s').1 in
      elim (Bool-cases (is_query command)) [
        | inl query ↦ rw query (
            Answers-weaken (1 + queries rest) (suc (queries rest)) s t (omega arith)
              (after 1 (λ x e. omega arith)))
        | inr other ↦ rw other (
            Answers-weaken (0 + queries rest) (queries rest) s t (omega arith) (
              after 0 (λ x e.
                absurd (handle_command-write T default_timeout command s.device x other e))))
      ]

  -- Whatever the lines of a client, the network, other tasks and the device do: the socket is
  -- closed at the end, no connection error leaves the handler, and what was written is at most one
  -- reply for each query among the lines, each of ASCII bytes and ended by a line feed.
  pub handle_client_replies :
      (incoming : List (Incoming T.State)) (s : Session T.State)
      → ((handle_client T default_timeout incoming s).1.closed ≡ true)
        × ((handle_client T default_timeout incoming s).0 ≢ err connection_error)
        × Answers (queries incoming) s (handle_client T default_timeout incoming s).1
  unfolding handle_client
  handle_client_replies incoming s =
      let r = client_loop T default_timeout incoming s in
      let (kept, caught) = handler_end r.0 r.1 in
      let (new, e, few, replies) = client_loop-Answers incoming s in
      (refl, caught, (new, ap (λ (t : Session T.State). t.written) kept ∙ e, few, replies))
