-- ===== src/Provider/WebSocket.antt =====
-- providers/base/websocket/handlers: the query handler of web sockets, and the connection of
-- ws_conn_handler.go it holds; with startWebSocket of providers/base/fetch.go. The network and the context
-- are events; the data handler of an exchange is an argument. The heartbeat, panics, logs and metrics are
-- left out.
pub mod Closed
pub mod Tests
use orynx.Prelude.{
  ℕ, suc, ◌+◌, ◌-◌, ◌≡◌, Bool, true, false, not, ◌&&◌, List, [], ◌∷◌, ◌++◌, Option, none, some,
  Text, if◌then◌else◌,
}
use orynx.Prelude.Int.{ℤ, pos, ltb_ℤ}
use orynx.Config.{is_nil}
use orynx.Provider.{GetResponse, new_get_response_with_err}

-- The errors of providers/base/websocket/errors, of the context, and of `Start` itself.
pub data WebSocketError : Type 0 where
  dial_error create_messages_error write_error read_error close_error : WebSocketError
  context_done channel_is_nil : WebSocketError

-- What the network and the context do to a message of the initial payload: it is written, it is written
-- and the context is done in the pause that follows, or writing it fails.
pub data Sending : Type 0 where
  sent sent_and_done not_sent : Sending

-- A turn of the loop of `recv`: the context is done, the read fails, or a message is read, with whether
-- the context is done once it is handled.
pub data Turn : Type 0 where
  cancelled unread : Turn
  message : Text → Bool → Turn

-- The code of an error response of `Start`. Of an error with a code the model keeps the code.
abbrev pub error_websocket_start_fail : ℕ
error_websocket_start_fail = 5

-- A query handler: the state of its data handler, the connection it holds (`none` is nil), with whether
-- that is open, how many connections it has opened and not closed, and what it has sent to the response
-- channel and written to connections, in order.
pub record QueryHandler (S K V : Type 0) : Type 0 where
  pub data_handler : S
  pub conn : Option Bool
  pub live : ℕ
  pub responses : List (GetResponse K V ℕ)
  pub written : List Text

-- What one call of `Start` meets: whether the dialer connects, whether a close message can be written, what
-- happens to the initial payload, whether the channel takes an error response, and the turns of `recv`.
pub record Attempt : Type 0 where
  pub connects : Bool
  pub writes : Bool
  pub sending : ℕ → Sending
  pub takes : Bool
  pub turns : List Turn

-- How a call ends, after the events it is given: it may still be receiving, or blocked at sending an error
-- response that nothing takes from the channel.
pub data Outcome : Type 0 where
  receiving blocked : Outcome
  ended : Option WebSocketError → Outcome

-- The loop of `startWebSocket` goes on only when a call has ended.
abbrev pub if_ended : {A : Type 0} → Outcome → A → A → A
if_ended receiving after now = now
if_ended blocked after now = now
if_ended (ended e) after now = after

-- The first error, if there is one.
abbrev pub or_else : Option WebSocketError → WebSocketError → WebSocketError
or_else none e = e
or_else (some c) e = c

module _ {S K V : Type 0} where
  -- `Dial` of the connection handler, given whether the dialer connects. The hook before a dial is left
  -- out, and a valid configuration has an endpoint.
  unfoldable pub dial : Bool → QueryHandler S K V → QueryHandler S K V × Option WebSocketError
  dial connects h =
      if connects
      then (record h { conn = some true; live = h.live + 1 }, none)
      else (record h { conn = none }, some dial_error)

  -- `close` with `Close` of the connection handler, given whether the close message can be written; where
  -- it cannot, the connection is left as it is. Closing it after the message is taken to succeed.
  unfoldable pub close : Bool → QueryHandler S K V → QueryHandler S K V × Option WebSocketError
  close writes h = elim h.conn [
    | none ↦ (h, some close_error)
    | some is_open ↦
        if is_open && writes
        then (record h { conn = some false; live = h.live - 1 }, none)
        else (h, some close_error)
  ]

  -- `close`, then the return of its error or of the given one.
  unfoldable pub close_with :
      Bool → WebSocketError → QueryHandler S K V → QueryHandler S K V × Outcome
  close_with writes e h = let (h', closed) = close writes h in (h', ended (some (or_else closed e)))

  abbrev pub write : Text → QueryHandler S K V → QueryHandler S K V
  write m h = record h { written = h.written ++ (m ∷ []) }

  pub write_all : List Text → QueryHandler S K V → QueryHandler S K V
  write_all [] h = h
  write_all (m ∷ ms) h = write_all ms (write m h)

  -- The loop of `start` over the messages of the initial payload, from the `i`-th on.
  pub send_payload :
      Bool
      → (ℕ → Sending)
      → ℕ
      → List Text
      → QueryHandler S K V
      → QueryHandler S K V × Option WebSocketError
  send_payload writes sending i [] h = (h, none)
  send_payload writes sending i (m ∷ ms) h =
      let rest = send_payload writes sending (i + 1) ms (write m h) in
      elim (sending i) [
        | not_sent ↦ (h, some write_error)
        | sent ↦ rest
        | sent_and_done ↦ if is_nil ms then (write m h, none) else close writes (write m h)
      ]

  -- `start` once it has dialed.
  unfoldable pub subscribe :
      Bool
      → (ℕ → Sending)
      → Option (List Text)
      → QueryHandler S K V
      → QueryHandler S K V × Option WebSocketError
  subscribe writes sending none h = (h, some create_messages_error)
  subscribe writes sending (some ms) h = send_payload writes sending 0 ms h

  -- What `recv` does with what the data handler made of a message: a message that cannot be handled is
  -- passed over, and a response goes to the channel unless the context is done.
  unfoldable pub deliver :
      Option (GetResponse K V ℕ × List Text) → Bool → QueryHandler S K V → QueryHandler S K V × Bool
  deliver none is_done h = (h, false)
  deliver (some (r, updates)) true h = (h, true)
  deliver (some (r, updates)) false h =
      (write_all updates (record h { responses = h.responses ++ (r ∷ []) }), false)

  module _ (handle_message : S → Text → S × Option (GetResponse K V ℕ × List Text)) where
    -- What `recv` does with a message that it has read, and whether the context is done by then.
    unfoldable pub receive : Text → Bool → QueryHandler S K V → QueryHandler S K V × Bool
    receive m is_done h =
        let (s, handled) = handle_message h.data_handler m in
        deliver handled is_done (record h { data_handler = s })

    -- The loop of `recv`, with the read errors so far: it returns when the context is done or the read
    -- errors reach their maximum.
    pub recv : Bool → ℤ → ℕ → List Turn → QueryHandler S K V → QueryHandler S K V × Outcome
    recv writes max n [] h = (h, receiving)
    recv writes max n (cancelled ∷ turns) h = close_with writes context_done h
    recv writes max n (unread ∷ turns) h =
        let rest = recv writes max (n + 1) turns h in
        if ltb_ℤ (pos (n + 1)) max then rest else close_with writes read_error h
    recv writes max n (message m is_done ∷ turns) h =
        let (h', stops) = receive m is_done h in
        let rest = recv writes max n turns h' in
        if stops then close_with writes context_done h' else rest

module _ {S K V : Type 0} (eq? : Discrete K) where
  -- `Start` when `start` fails: an error for all the IDs is sent, which waits for the channel whatever
  -- becomes of the context.
  unfoldable pub failed_start :
      Bool → List K → WebSocketError → QueryHandler S K V → QueryHandler S K V × Outcome
  failed_start takes ids e h =
      let r = new_get_response_with_err eq? ids error_websocket_start_fail in
      if takes
      then (record h { responses = h.responses ++ (r ∷ []) }, ended (some e))
      else (h, blocked)

  module _ (create_messages : S → List K → Option (List Text))
      (handle_message : S → Text → S × Option (GetResponse K V ℕ × List Text)) where
    -- `Start` once it has subscribed or failed to.
    unfoldable pub receive_from :
        ℤ
        → Attempt
        → List K
        → QueryHandler S K V × Option WebSocketError
        → QueryHandler S K V × Outcome
    receive_from max a ids (h, some e) = failed_start a.takes ids e h
    receive_from max a ids (h, none) = recv handle_message a.writes max 0 a.turns h

    -- `start`
    unfoldable pub connect :
        Attempt
        → List K
        → QueryHandler S K V × Option WebSocketError
        → QueryHandler S K V × Option WebSocketError
    connect a ids (h, some e) = (h, some e)
    connect a ids (h, none) = subscribe a.writes a.sending (create_messages h.data_handler ids) h

    -- `Start`, given whether it has a response channel.
    unfoldable pub start :
        Bool → ℤ → Attempt → List K → QueryHandler S K V → QueryHandler S K V × Outcome
    start has_channel max a ids h =
        if not has_channel
        then (h, ended (some channel_is_nil))
        else if is_nil ids
        then (h, ended none)
        else receive_from max a ids (connect a ids (dial a.connects h))

    -- The loop of `startWebSocket` of providers/base, up to the end of the context, with the attempts that
    -- it makes; while an attempt is receiving or blocked the next does not begin.
    unfoldable pub start_web_socket :
        ℤ → List Attempt → List K → QueryHandler S K V → QueryHandler S K V
    start_web_socket max [] ids h = h
    start_web_socket max (a ∷ attempts) ids h =
        let (h', outcome) = start true max a ids h in
        let rest = start_web_socket max attempts ids h' in if_ended outcome rest h'
