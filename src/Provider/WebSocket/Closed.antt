-- ===== src/Provider/WebSocket/Closed.antt =====
-- A query handler of web sockets leaves no connection open once it has begun to receive.
use orynx.Prelude.{
  ℕ, suc, ◌+◌, ◌-◌, ◌≤◌, ◌<◌, ◌≡◌, refl, ◌∙◌, ◌⊎◌, inl, inr, Bool, true, false, List, [], ◌∷◌,
  Option, none, some, Text, All, arith, Bool-cases,
}
use orynx.Prelude.Int.{ℤ, pos, pos_part, ltb_ℤ}
use orynx.Provider.{GetResponse}
use orynx.Config.{is_nil}
use orynx.Provider.WebSocket.{
  WebSocketError, Sending, sent, Turn, cancelled, unread, context_done, read_error, message,
  QueryHandler, Outcome, if_ended, ended, blocked, receiving, dial_error, dial, close, close_with,
  or_else, deliver, receive, write, write_all, send_payload, subscribe, recv, start, Attempt,
  connect, receive_from, failed_start, start_web_socket,
}

-- The turns whose read fails, and whether the context is done at a turn.
unfoldable pub read_errors : List Turn → ℕ
read_errors [] = 0
read_errors (unread ∷ turns) = suc (read_errors turns)
read_errors (cancelled ∷ turns) = read_errors turns
read_errors (message m is_done ∷ turns) = read_errors turns

unfoldable pub has_cancelled : List Turn → Bool
has_cancelled [] = false
has_cancelled (unread ∷ turns) = has_cancelled turns
has_cancelled (cancelled ∷ turns) = true
has_cancelled (message m is_done ∷ turns) = has_cancelled turns

-- After `n` read errors, the turns end the loop: the context is done, or there are as many more read errors
-- as the maximum asks for, and one at least.
abbrev pub IsEnding : ℤ → ℕ → List Turn → Type 0
IsEnding max n turns =
    (has_cancelled turns ≡ true)
    ⊎ ((0 < read_errors turns) × (pos_part max ≤ n + read_errors turns))

module _ {S K V : Type 0} where
  -- The call has ended with an error, the connection is closed, and `n` others are open.
  abbrev pub IsClosed : ℕ → QueryHandler S K V × Outcome → Type 0
  IsClosed n o =
      ((e : WebSocketError) × (o.1 ≡ ended (some e))) × (o.0.conn ≡ some false) × (o.0.live ≡ n)

  -- The handler holds an open connection, and `n` others are open.
  abbrev IsOpen : ℕ → QueryHandler S K V → Type 0
  IsOpen n h = (h.conn ≡ some true) × (h.live ≡ n + 1)

  close_with-IsClosed :
      (n : ℕ) (e : WebSocketError) (h : QueryHandler S K V)
      → IsOpen n h
      → IsClosed n (close_with true e h)
  unfolding close_with close
  close_with-IsClosed n e h o =
      let closed : close true h ≡ (record h { conn = some false; live = h.live - 1 }, none) =
        rw (close, o.0) refl in
      ((or_else (close true h).1 e, refl), rw closed refl, rw closed (omega (arith, o.1)))

  write_all-IsOpen :
      (n : ℕ) (ms : List Text) (h : QueryHandler S K V) → IsOpen n h → IsOpen n (write_all ms h)
  unfolding write_all
  write_all-IsOpen n [] h o = o
  write_all-IsOpen n (m ∷ ms) h o = write_all-IsOpen n ms (write m h) o

  send_payload-IsOpen :
      (n i : ℕ) (sending : ℕ → Sending) (ms : List Text) (h : QueryHandler S K V)
      → ((j : ℕ) → sending j ≡ sent)
      → IsOpen n h
      → let (h', e) = send_payload true sending i ms h in (e ≡ none) × IsOpen n h'
  unfolding send_payload
  send_payload-IsOpen n i sending [] h all o = (refl, o)
  send_payload-IsOpen n i sending (m ∷ ms) h all o =
      rw (send_payload, all i) (send_payload-IsOpen n (i + 1) sending ms (write m h) all o)

  deliver-IsOpen :
      (n : ℕ) (handled : Option (GetResponse K V ℕ × List Text)) (is_done : Bool)
      (h : QueryHandler S K V)
      → IsOpen n h
      → IsOpen n (deliver handled is_done h).0
  unfolding deliver
  deliver-IsOpen n none is_done h o = o
  deliver-IsOpen n (some (r, updates)) true h o = o
  deliver-IsOpen n (some (r, updates)) false h o = write_all-IsOpen n updates _ o

  module _ (handle_message : S → Text → S × Option (GetResponse K V ℕ × List Text)) where
    receive-IsOpen :
        (n : ℕ) (m : Text) (is_done : Bool) (h : QueryHandler S K V)
        → IsOpen n h
        → IsOpen n (receive handle_message m is_done h).0
    unfolding receive
    receive-IsOpen n m is_done h o =
        let (s, handled) = handle_message h.data_handler m in
        deliver-IsOpen n handled is_done (record h { data_handler = s }) o

    recv-IsClosed :
        (max : ℤ) (n k : ℕ) (turns : List Turn) (h : QueryHandler S K V)
        → IsEnding max k turns
        → IsOpen n h
        → IsClosed n (recv handle_message true max k turns h)
    unfolding recv read_errors has_cancelled
    recv-IsClosed max n k [] h ending o = absurd (ground arith)
    recv-IsClosed max n k (cancelled ∷ turns) h ending o = close_with-IsClosed n context_done h o
    recv-IsClosed max n k (unread ∷ turns) h ending o =
        elim (Bool-cases (ltb_ℤ (pos (k + 1)) max)) [
          | inl below ↦
              let more : IsEnding max (k + 1) turns = ground (arith, ending, below) in
              simp below (recv-IsClosed max n (k + 1) turns h more o)
          | inr reached ↦ simp reached (close_with-IsClosed n read_error h o)
        ]
    recv-IsClosed max n k (message m is_done ∷ turns) h ending o =
        let (h', stops) = receive handle_message m is_done h in
        let o' = receive-IsOpen n m is_done h o in
        elim (Bool-cases stops) [
          | inl stop ↦ simp stop (close_with-IsClosed n context_done h' o')
          | inr goes_on ↦ simp goes_on (recv-IsClosed max n k turns h' ending o')
        ]

if_ended_lem :
    {A : Type 0} (P : A → Type 0) (o : Outcome) (after now : A)
    → P after
    → P now
    → P (if_ended o after now)
if_ended_lem P receiving after now h g = g
if_ended_lem P blocked after now h g = g
if_ended_lem P (ended e) after now h g = h

-- The dialer does not connect, or the attempt is served until it ends: the messages of the initial payload
-- and the close message can be written, and the turns end the loop of `recv`.
abbrev pub IsServed : ℤ → Attempt → Type 0
IsServed max a =
    (a.connects ≡ false)
    ⊎ ((a.writes ≡ true) × ((j : ℕ) → a.sending j ≡ sent) × IsEnding max 0 a.turns)

module _ {S K V : Type 0} (eq? : Discrete K) (create_messages : S → List K → Option (List Text))
    (handle_message : S → Text → S × Option (GetResponse K V ℕ × List Text)) where
  failed_start-live :
      (takes : Bool) (ids : List K) (e : WebSocketError) (h : QueryHandler S K V)
      → (failed_start eq? takes ids e h).0.live ≡ h.live
  unfolding failed_start
  failed_start-live true ids e h = refl
  failed_start-live false ids e h = refl

  receive_from-live :
      (max : ℤ) (n : ℕ) (a : Attempt) (ids : List K)
      (o : QueryHandler S K V × Option WebSocketError)
      → a.writes ≡ true
      → IsEnding max 0 a.turns
      → o.1 ≡ none
      → IsOpen n o.0
      → (receive_from eq? create_messages handle_message max a ids o).0.live ≡ n
  unfolding receive_from
  receive_from-live max n a ids (h, some e) writes ending fine o = absurd (ground arith)
  receive_from-live max n a ids (h, none) writes ending fine o =
      rw writes (recv-IsClosed handle_message max n 0 a.turns h ending o).2

  -- Connected, with the messages written, the handler holds an open connection.
  connect-IsOpen :
      (a : Attempt) (ids : List K) (h : QueryHandler S K V)
      → ((s : S) → (ms : List Text) × (create_messages s ids ≡ some ms))
      → a.writes ≡ true
      → ((j : ℕ) → a.sending j ≡ sent)
      → let (h', e) = connect eq? create_messages handle_message a ids (dial true h) in
        (e ≡ none) × IsOpen h.live h'
  unfolding connect dial subscribe
  connect-IsOpen a ids h made writes all =
      let (ms, e) = made h.data_handler in
      rw (e, writes)
        (send_payload-IsOpen h.live 0 a.sending ms
          (record h { conn = some true; live = h.live + 1 }) all (refl, refl))

  attempt-live :
      (max : ℤ) (a : Attempt) (ids : List K) (h : QueryHandler S K V) (connects : Bool)
      → ((s : S) → (ms : List Text) × (create_messages s ids ≡ some ms))
      → (connects ≡ false)
        ⊎ ((a.writes ≡ true) × ((j : ℕ) → a.sending j ≡ sent) × IsEnding max 0 a.turns)
      → let o = connect eq? create_messages handle_message a ids (dial connects h) in
        (receive_from eq? create_messages handle_message max a ids o).0.live ≡ h.live
  unfolding receive_from failed_start connect dial
  attempt-live max a ids h false made served =
      failed_start-live a.takes ids dial_error (dial false h).0
  attempt-live max a ids h true made (inl refused) = absurd (ground arith)
  attempt-live max a ids h true made (inr (writes, all, ending)) =
      let (fine, o) = connect-IsOpen a ids h made writes all in
      receive_from-live max h.live a ids
        (connect eq? create_messages handle_message a ids (dial true h)) writes ending fine o

  start-live :
      (max : ℤ) (a : Attempt) (ids : List K) (h : QueryHandler S K V)
      → ((s : S) → (ms : List Text) × (create_messages s ids ≡ some ms))
      → IsServed max a
      → (start eq? create_messages handle_message true max a ids h).0.live ≡ h.live
  unfolding start
  start-live max a ids h made served = elim (Bool-cases (is_nil ids)) [
    | inl nil ↦ simp nil refl
    | inr more ↦ simp more (attempt-live max a ids h a.connects made served)
  ]

  -- As long as the data handler can make messages for the IDs, and each attempt of the loop either fails to
  -- connect or can write its messages and ends, by its context or by as many read errors as the maximum
  -- asks for, the loop leaves as many connections open as there were.
  pub start_web_socket-live :
      (max : ℤ) (attempts : List Attempt) (ids : List K) (h : QueryHandler S K V)
      → ((s : S) → (ms : List Text) × (create_messages s ids ≡ some ms))
      → All (IsServed max) attempts
      → (start_web_socket eq? create_messages handle_message max attempts ids h).live ≡ h.live
  unfolding start_web_socket
  start_web_socket-live max [] ids h made served = refl
  start_web_socket-live max (a ∷ attempts) ids h made served =
      let (h', outcome) = start eq? create_messages handle_message true max a ids h in
      let same = start-live max a ids h made served.0 in
      let rest = start_web_socket-live max attempts ids h' made served.1 in
      if_ended_lem (λ h'. h'.live ≡ h.live) outcome
        (start_web_socket eq? create_messages handle_message max attempts ids h') h' (rest ∙ same)
        same
