-- ===== src/Provider/WebSocket/Tests.antt =====
-- Runs of the query handler of web sockets.
use orynx.Prelude.{
  ℕ, ◌+◌, ◌≡◌, refl, true, false, List, [], ◌∷◌, Option, none, some, Text, codes, ℕ_discrete, inl,
  inr, arith,
}
use orynx.Prelude.Int.{pos}
use orynx.Provider.{GetResponse, code_ok}
use orynx.Provider.WebSocket.{
  sent, not_sent, unread, message, QueryHandler, Attempt, dial, connect, subscribe, send_payload,
  receive_from, failed_start, start, start_web_socket,
}
use orynx.Provider.WebSocket.Closed.{start_web_socket-live, read_errors, has_cancelled}

abbrev idle : QueryHandler ℕ ℕ ℕ
idle = record { data_handler = 0; conn = none; live = 0; responses = []; written = [] }

-- A data handler that subscribes with one message and counts what it handles.
abbrev subscription : ℕ → List ℕ → Option (List Text)
subscription s ids = some (codes "sub" ∷ [])

abbrev price : GetResponse ℕ ℕ ℕ
price = record {
  resolved = (1, record { value = 5; timestamp = 10; response_code = code_ok }) ∷ [];
  un_resolved = [];
}

abbrev count : ℕ → Text → ℕ × Option (GetResponse ℕ ℕ ℕ × List Text)
count s m = (s + 1, some (price, []))

-- A dial that fails, then a connection that reads one message before its second read error.
abbrev attempts : List Attempt
attempts =
    record { connects = false; writes = true; sending = λ i. sent; takes = true; turns = [] }
    ∷ record {
      connects = true;
      writes = true;
      sending = λ i. sent;
      takes = true;
      turns = unread ∷ message (codes "m") false ∷ unread ∷ [];
    }
    ∷ []

start_web_socket-live_example :
    (start_web_socket ℕ_discrete subscription count (pos 2) attempts (1 ∷ []) idle).live ≡ 0
unfolding read_errors has_cancelled
start_web_socket-live_example =
    start_web_socket-live ℕ_discrete subscription count (pos 2) attempts (1 ∷ []) idle
      (λ s. (codes "sub" ∷ [], refl))
      (inl refl, (inr (refl, (λ i. refl), inr (omega arith, omega arith)), tt))

-- Two connections whose subscription cannot be written stay open.
abbrev unwritten : Attempt
unwritten = record {
  connects = true;
  writes = true;
  sending = λ i. not_sent;
  takes = true;
  turns = [];
}

unwritten_leaks :
    (start_web_socket ℕ_discrete subscription count
      (pos 2)
      (unwritten ∷ unwritten ∷ [])
      (1 ∷ [])
      idle).live
    ≡ 2
unfolding start_web_socket start connect dial subscribe send_payload receive_from failed_start
unwritten_leaks = refl
