-- ===== src/Scpi/Served.antt =====
-- The socket in front of the meter on its serial line, as a whole: scpi/server.py over
-- device/manager.py over device/transport.py.
use mathlib.Core.List.{append-nil, append_assoc}
use owon_xdm1041_server.Base.{
  ◌≡◌, refl, subst, ℕ, true, false, Option, none, some, List, [], ◌∷◌, ◌++◌, ok, Text, strip,
  decode_ascii, text_eq, arith,
}
use owon_xdm1041_server.Base.Ascii.{
  IsAscii, encode_ascii-IsAscii, decode_ascii-IsAscii, strip-IsAscii,
}
use owon_xdm1041_server.Device.Serial.{Pyserial, SerialTransport, serial_transport}
use owon_xdm1041_server.Device.Serial.Responsive.{StaysOpen, IsUp, IsLine}
use owon_xdm1041_server.Device.Serial.Metered.{IsMeter, Leaves, query-Leaves, write-Leaves}
use owon_xdm1041_server.Scpi.{
  Incoming, line, others, Session, handle_command, run_command, client_loop, handle_client,
}
use owon_xdm1041_server.Scpi.Encoding.{handle_command-query}
use owon_xdm1041_server.Scpi.Replies.{is_query}

module _ (P : Pyserial) (port : P.Port) (L : IsMeter P port) where
  -- The bytes in which the server passes a line on.
  abbrev pub sent : Text → List ℕ
  sent raw = strip raw ++ (10 ∷ [])

  -- What a meter in the first state answers to a client, and the state that this leaves it in. The
  -- lines are ASCII, and the client takes its replies. A query gets the meter's own reply in the
  -- state in which it is then, which is ASCII and not empty; another line is sent to the meter and
  -- gets no reply; a blank one is not even sent. Other tasks leave the port open, and can have
  -- changed the meter.
  pub data Converses
      : L.Meter → List (Incoming (SerialTransport P)) → List (List ℕ) → L.Meter → Type 0 where
    ends : (m : L.Meter) → Converses m [] [] m
    after_others :
        {m m' left : L.Meter} {rest : List (Incoming (SerialTransport P))} {replies : List (List ℕ)}
        (f : SerialTransport P → SerialTransport P)
        → ((s : SerialTransport P)
            → IsUp P port s
            → L.meter s.world ≡ m
            → IsUp P port (f s) × (L.meter (f s).world ≡ m'))
        → Converses m' rest replies left
        → Converses m (others f ∷ rest) replies left
    after_query :
        {m left : L.Meter} {rest : List (Incoming (SerialTransport P))} {replies : List (List ℕ)}
        (raw : List ℕ)
        → IsLine raw
        → is_query raw ≡ true
        → IsLine (L.reply m (sent raw))
        → Converses (L.after m (sent raw)) rest replies left
        → Converses m
            (line raw true ∷ rest)
            ((strip (L.reply m (sent raw)) ++ (10 ∷ [])) ∷ replies)
            left
    after_command :
        {m left : L.Meter} {rest : List (Incoming (SerialTransport P))} {replies : List (List ℕ)}
        (raw : List ℕ)
        → IsLine raw
        → is_query raw ≡ false
        → text_eq (strip raw) [] ≡ false
        → Converses (L.after m (sent raw)) rest replies left
        → Converses m (line raw true ∷ rest) replies left
    after_blank :
        {m left : L.Meter} {rest : List (Incoming (SerialTransport P))} {replies : List (List ℕ)}
        (raw : List ℕ)
        → IsLine raw
        → text_eq (strip raw) [] ≡ true
        → Converses m rest replies left
        → Converses m (line raw true ∷ rest) replies left

module _ (P : Pyserial) (port : P.Port) (L : IsMeter P port) (O : StaysOpen P port)
    (default_timeout : ℕ) where
  Handles : Text → SerialTransport P → Option Text → L.Meter → Type 0
  Handles c s r left =
      Leaves P port L O (handle_command (serial_transport P) default_timeout c) s r left

  handle-query :
      (c : Text) (s : SerialTransport P)
      → IsUp P port s
      → IsAscii c
      → is_query c ≡ true
      → IsLine (L.reply (L.meter s.world) (sent P port L c))
      → Handles c s
          (some (strip (L.reply (L.meter s.world) (sent P port L c))))
          (L.after (L.meter s.world) (sent P port L c))
  unfolding Handles
  handle-query c s up ascii asks full =
      let (v, o, m, e) =
        query-Leaves P port L O default_timeout (strip c) none s up (strip-IsAscii c ascii) asks
          full in
      (v, o, m, handle_command-query (serial_transport P) default_timeout c s _ _ asks e)

  handle-command :
      (c : Text) (s : SerialTransport P)
      → IsUp P port s
      → IsAscii c
      → is_query c ≡ false
      → text_eq (strip c) [] ≡ false
      → Handles c s none (L.after (L.meter s.world) (sent P port L c))
  unfolding Handles handle_command run_command
  handle-command c s up ascii other full =
      let (v, o, m, e) =
        write-Leaves P port L O default_timeout (strip c) none s up (strip-IsAscii c ascii) in
      (v, o, m, ground (arith, full, other, e))

  handle-blank :
      (c : Text) (s : SerialTransport P)
      → IsUp P port s
      → text_eq (strip c) [] ≡ true
      → Handles c s none (L.meter s.world)
  unfolding Handles handle_command run_command
  handle-blank c s up blank = (s.world, up.opened, refl, ground (arith, blank))

  -- A loop that ended at the end of the stream, with these replies written, the port open and the
  -- meter left so.
  Serves :
      List (Incoming (SerialTransport P))
      → Session (SerialTransport P)
      → List (List ℕ)
      → L.Meter
      → Type 0
  Serves incoming s replies left =
      (u : SerialTransport P) × IsUp P port u
      × (L.meter u.world ≡ left)
      × (client_loop (serial_transport P) default_timeout incoming s
          ≡ (ok tt, record s { device = u; written = s.written ++ replies }))

  loop-query :
      (b : ℕ) (raw : List ℕ) (rest : List (Incoming (SerialTransport P)))
      (s : Session (SerialTransport P)) (v : P.World) (r : Text) (replies : List (List ℕ))
      (left : L.Meter)
      → IsAscii r
      → handle_command (serial_transport P) default_timeout (decode_ascii (b ∷ raw)) s.device
        ≡ (ok (some r), record s.device { world = v })
      → Serves rest
          (record s {
            device = record s.device { world = v };
            written = s.written ++ ((r ++ (10 ∷ [])) ∷ []);
          })
          replies
          left
      → Serves (line (b ∷ raw) true ∷ rest) s ((r ++ (10 ∷ [])) ∷ replies) left
  unfolding Serves client_loop
  loop-query b raw rest s v r replies left ascii e (u, up, same, k) =
      let bytes = encode_ascii-IsAscii r ascii in
      let joined = append_assoc s.written ((r ++ (10 ∷ [])) ∷ []) replies in
      (u, up, same, ground (arith, e, bytes, k, joined))

  loop-write :
      (b : ℕ) (raw : List ℕ) (rest : List (Incoming (SerialTransport P)))
      (s : Session (SerialTransport P)) (v : P.World) (replies : List (List ℕ)) (left : L.Meter)
      → handle_command (serial_transport P) default_timeout (decode_ascii (b ∷ raw)) s.device
        ≡ (ok none, record s.device { world = v })
      → Serves rest (record s { device = record s.device { world = v } }) replies left
      → Serves (line (b ∷ raw) true ∷ rest) s replies left
  unfolding Serves client_loop
  loop-write b raw rest s v replies left e (u, up, same, k) = (u, up, same, ground (arith, e, k))

  client_loop-Serves :
      (m : L.Meter) (incoming : List (Incoming (SerialTransport P))) (replies : List (List ℕ))
      (left : L.Meter) (s : Session (SerialTransport P))
      → Converses P port L m incoming replies left
      → IsUp P port s.device
      → L.meter s.device.world ≡ m
      → Serves incoming s replies left
  unfolding Serves client_loop Handles
  client_loop-Serves m _ _ left s (ends n) up at =
      (s.device, up, at, rw (append-nil s.written) refl)
  client_loop-Serves m _ replies left s (after_others {rest} f keeps h) up at =
      let (still, at') = keeps s.device up at in
      client_loop-Serves _ rest replies left (record s { device = f s.device }) h still at'
  client_loop-Serves m _ _ left s (after_query [] h asks full a) up at = absurd (h.1 refl)
  client_loop-Serves m _ _ left s (after_query {rest} {replies} (b ∷ raw) h asks full a) up at =
      let c = b ∷ raw in
      let same = decode_ascii-IsAscii c h.0 in
      let full' : IsLine (L.reply (L.meter s.device.world) (sent P port L c)) = rw at full in
      let (v, o, m', e) = handle-query c s.device up h.0 asks full' in
      let reply = strip (L.reply (L.meter s.device.world) (sent P port L c)) in
      let rest_served =
        client_loop-Serves _ rest replies left
          (record s {
            device = record s.device { world = v };
            written = s.written ++ ((reply ++ (10 ∷ [])) ∷ []);
          })
          a (record { serial = up.serial; opened = o }) (rw (m', at) refl) in
      let served =
        loop-query b raw rest s v reply replies left (strip-IsAscii _ full'.0) (rw same e)
          rest_served in
      subst
        (λ (n : L.Meter).
          Serves (line c true ∷ rest) s
            ((strip (L.reply n (sent P port L c)) ++ (10 ∷ [])) ∷ replies) left)
        at served
  client_loop-Serves m _ _ left s (after_command [] h other full a) up at = absurd (h.1 refl)
  client_loop-Serves m _ replies left s (after_command {rest} (b ∷ raw) h other full a) up at =
      let c = b ∷ raw in
      let same = decode_ascii-IsAscii c h.0 in
      let (v, o, m', e) = handle-command c s.device up h.0 other full in
      loop-write b raw rest s v replies left (rw same e) (
        client_loop-Serves _ rest replies left (record s { device = record s.device { world = v } })
          a (record { serial = up.serial; opened = o }) (rw (m', at) refl))
  client_loop-Serves m _ _ left s (after_blank [] h blank a) up at = absurd (h.1 refl)
  client_loop-Serves m _ replies left s (after_blank {rest} (b ∷ raw) h blank a) up at =
      let c = b ∷ raw in
      let same = decode_ascii-IsAscii c h.0 in
      let (v, o, m', e) = handle-blank c s.device up blank in
      loop-write b raw rest s v replies left (rw same e) (
        client_loop-Serves _ rest replies left (record s { device = record s.device { world = v } })
          a (record { serial = up.serial; opened = o }) (rw (m', at) refl))

  -- Over an open port at which each call succeeds, and a meter with a state, which every line that
  -- it is sent can change, and in which it has one reply to each query, there at once: for a client
  -- whose lines are ASCII, that takes its replies and leaves at the end of its stream, and other
  -- tasks that leave the port open, whatever they make of the meter. What the client has been sent
  -- is the meter's own reply to each of its queries in the state that the lines before have left,
  -- stripped and ended by a line feed, in the order of the queries, with none for its other lines,
  -- where those replies are ASCII and not empty. The handler returns, the socket is closed, the port
  -- is open as before, and the meter is in the state that all of this has left it in.
  pub handle_client-served :
      (m : L.Meter) (incoming : List (Incoming (SerialTransport P))) (replies : List (List ℕ))
      (left : L.Meter) (s : Session (SerialTransport P))
      → Converses P port L m incoming replies left
      → IsUp P port s.device
      → L.meter s.device.world ≡ m
      → let r = handle_client (serial_transport P) default_timeout incoming s in
        (r.0 ≡ ok tt)
        × (r.1.written ≡ s.written ++ replies)
        × (r.1.closed ≡ true)
        × IsUp P port r.1.device
        × (L.meter r.1.device.world ≡ left)
  unfolding handle_client Serves
  handle_client-served m incoming replies left s h up at =
      let (u, still, same, e) = client_loop-Serves m incoming replies left s h up at in
      rw e (refl, refl, refl, still, same)
