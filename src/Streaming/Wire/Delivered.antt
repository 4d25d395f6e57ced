-- ===== src/Streaming/Wire/Delivered.antt =====
-- What a client receives of everything that is written to a socket.
use z1mak_cv_queue.Prelude.{
  All, List, Option, String, [], ap, arith, false, none, refl, some, sym, true, ℕ, ◌∙◌, ◌∷◌, ◌≡◌,
}
use z1mak_cv_queue.Prelude.Int.{pos}
use z1mak_cv_queue.Js.{print}
use z1mak_cv_queue.Js.RoundTrip.{number-print, only_digits, print-only_digits}
use z1mak_cv_queue.Streaming.Wire.{
  Message, Received, Socket, concat, lines, read_events, read_lines, retry_line, send_keep_alive,
  send_sse, sse_text, take_field,
}
use z1mak_cv_queue.Streaming.Wire.Messages.{
  IsOneLine, after_message, body, body-read, concat_assoc, has_break, lines-concat, received_as,
}

pub digits-has_break : (s : String) → only_digits s ≡ true → has_break s ≡ false
digits-has_break String.[] h = refl
digits-has_break (String.◌∷◌ c s) h = ground (arith, digits-has_break s)

retry-read :
    (ms : ℕ) (rest id : String) (retry : Option ℕ)
    → read_lines (after_message id retry) (lines (concat (retry_line (some ms)) rest))
      ≡ read_lines (after_message id (some ms)) (lines rest)
unfolding read_lines take_field
retry-read ms rest id retry =
    let digits = print (pos ms) in
    rw
      (
        concat_assoc digits "\n" rest,
        lines-concat (concat "retry: " digits) rest
            (digits-has_break digits (print-only_digits ms)),
        number-print (pos ms),
      )
      refl

-- The time to wait that is known after a message.
abbrev pub new_retry : Option ℕ → Option ℕ → Option ℕ
new_retry none old = old
new_retry (some ms) old = some ms

retry_line-read :
    (o : Option ℕ) (rest id : String) (retry : Option ℕ)
    → read_lines (after_message id retry) (lines (concat (retry_line o) rest))
      ≡ read_lines (after_message id (new_retry o retry)) (lines rest)
retry_line-read none rest id retry = refl
retry_line-read (some ms) rest id retry = retry-read ms rest id retry

message-read :
    (m : Message) (rest id : String) (retry : Option ℕ)
    → IsOneLine m
    → read_lines (after_message id retry) (lines (concat (sse_text m) rest))
      ≡ received_as m (new_retry m.retry_ms retry)
        ∷ read_lines (after_message m.id (new_retry m.retry_ms retry)) (lines rest)
unfolding sse_text
message-read m rest id retry one = rw (concat_assoc (retry_line m.retry_ms) (body m) rest) (
    retry_line-read m.retry_ms (concat (body m) rest) id retry
    ∙ body-read m rest id (new_retry m.retry_ms retry) one)

-- What a handler does with the socket.
pub data Sent : Type 0 where
  message : Message → Sent
  keep_alive : Sent

abbrev pub send_all : List Sent → Socket → Socket
send_all [] w = w
send_all (message m ∷ l) w = send_all l ((send_sse m w).1)
send_all (keep_alive ∷ l) w = send_all l (send_keep_alive w)

abbrev pub text_of : List Sent → String
text_of [] = ""
text_of (message m ∷ l) = concat (sse_text m) (text_of l)
text_of (keep_alive ∷ l) = concat ": keep-alive\n\n" (text_of l)

-- The events in their order, each with the time to wait that is known by then.
abbrev pub events_of : Option ℕ → List Sent → List Received
events_of retry [] = []
events_of retry (keep_alive ∷ l) = events_of retry l
events_of retry (message m ∷ l) =
    received_as m (new_retry m.retry_ms retry) ∷ events_of (new_retry m.retry_ms retry) l

abbrev pub IsClean : Sent → Type 0
IsClean (message m) = IsOneLine m
IsClean keep_alive = Unit

concat-empty : (s : String) → concat s "" ≡ s
concat-empty String.[] = refl
concat-empty (String.◌∷◌ c s) = ap (λ x. String.◌∷◌ c x) (concat-empty s)

-- A socket that is open.
abbrev pub open_socket : String → Socket
open_socket t = record { written = t; is_destroyed = false }

written-send_all :
    (l : List Sent) (t : String) → (send_all l (open_socket t)).written ≡ concat t (text_of l)
unfolding send_sse send_keep_alive
written-send_all [] t = sym (concat-empty t)
written-send_all (message m ∷ l) t =
    written-send_all l (concat t (sse_text m)) ∙ concat_assoc t (sse_text m) (text_of l)
written-send_all (keep_alive ∷ l) t =
    written-send_all l (concat t ": keep-alive\n\n") ∙ concat_assoc t ": keep-alive\n\n" (text_of l)

text-read :
    (l : List Sent) (id : String) (retry : Option ℕ)
    → All IsClean l
    → read_lines (after_message id retry) (lines (text_of l)) ≡ events_of retry l
unfolding read_lines lines take_field
text-read [] id retry c = refl
text-read (message m ∷ l) id retry c =
    message-read m (text_of l) id retry c.0
    ∙ ap (λ r. received_as m (new_retry m.retry_ms retry) ∷ r)
        (text-read l m.id (new_retry m.retry_ms retry) c.1)
text-read (keep_alive ∷ l) id retry c = text-read l id retry c.1

-- What is sent over an open socket comes to the client as it was sent: an event for each message, in
-- their order, with its name, its JSON text and its id, and with the time to wait that the last message
-- with a retry has set; a keep-alive comes as no event. This is for ids and JSON texts that do
-- not break a line.
pub socket_delivers :
    (l : List Sent)
    → All IsClean l
    → read_events ((send_all l (open_socket "")).written) ≡ events_of none l
socket_delivers l clean = rw (written-send_all l "") (text-read l "" none clean)

-- A socket that the client has closed is written nothing.
closed_socket :
    (l : List Sent) (t : String)
    → send_all l (record { written = t; is_destroyed = true })
      ≡ record { written = t; is_destroyed = true }
unfolding send_sse send_keep_alive
closed_socket [] t = refl
closed_socket (message m ∷ l) t = closed_socket l t
closed_socket (keep_alive ∷ l) t = closed_socket l t
