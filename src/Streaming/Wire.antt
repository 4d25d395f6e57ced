-- ===== src/Streaming/Wire.antt =====
-- utils/sse.ts: how a message of the stream is written, and how a client reads it, by the
-- specification of EventSource in the HTML standard.
pub mod Messages
pub mod Delivered
pub mod Frames
use Prim.Native.Char.{Char, code}
use Prim.Native.String
use z1mak_cv_queue.Prelude.{
  Bool, List, Option, String, [], false, if◌then◌else◌, is_empty, none, some, str_eq, true, truthy,
  ℕ, ◌++◌, ◌==◌, ◌||◌, ◌∷◌,
}
use z1mak_cv_queue.Prelude.Int.{pos}
use z1mak_cv_queue.Js.{Number, finite, number_of, print}
use z1mak_cv_queue.Redis.{SseEvent, chunk, done, error, snapshot}
use z1mak_cv_queue.Scripts.History.Commands.{value}

-- `+` and template texts.
abbrev pub concat : String → String → String
concat String.[] t = t
concat (String.◌∷◌ c s) t = String.◌∷◌ c (concat s t)

pub record Message : Type 0 where
  pub id : String
  pub event : SseEvent
  pub json : String  -- `JSON.stringify(data)`
  pub retry_ms : Option ℕ

abbrev pub event_name : SseEvent → String
event_name chunk = "chunk"
event_name snapshot = "snapshot"
event_name done = "done"
event_name error = "error"

abbrev pub retry_line : Option ℕ → String
retry_line none = ""
retry_line (some ms) = concat "retry: " (concat (print (pos ms)) "\n")

-- The text of a message.
unfoldable pub sse_text : Message → String
sse_text m = concat (retry_line m.retry_ms) (
    concat "id: " (
      concat m.id (
        concat "\nevent: "
          (concat (event_name m.event) (concat "\ndata: " (concat m.json "\n\n"))))))

-- What was written to the socket of a reply.
pub record Socket : Type 0 where
  pub written : String
  pub is_destroyed : Bool

-- `sendSSE`; the wait for 'drain' changes nothing of this.
unfoldable pub send_sse : Message → Socket → Bool × Socket
send_sse m w =
    if w.is_destroyed
    then (false, w)
    else (true, record w { written = concat w.written (sse_text m) })

unfoldable pub send_keep_alive : Socket → Socket
send_keep_alive w =
    if w.is_destroyed then w else record w { written = concat w.written ": keep-alive\n\n" }

-- The lines of a text, each ended by a line feed or a carriage return; what follows the last end
-- is no line yet. The pair of both is outside the model.
abbrev pub is_break : Char → Bool
is_break c = code c == 10 || code c == 13

abbrev onto_line : Char → List String → List String
onto_line c [] = []
onto_line c (l ∷ ls) = String.◌∷◌ c l ∷ ls

unfoldable pub lines : String → List String
lines String.[] = []
lines (String.◌∷◌ c s) = let rest = lines s in if is_break c then "" ∷ rest else onto_line c rest

-- A line is a name, and after the first colon a value, without the space that may start it.
abbrev drop_space : String → String
drop_space String.[] = ""
drop_space (String.◌∷◌ c s) = if code c == 32 then s else String.◌∷◌ c s

abbrev pub split_line : String → String × String
split_line String.[] = ("", "")
split_line (String.◌∷◌ c s) =
    let (name, value) = split_line s in
    if code c == 58 then ("", drop_space s) else (String.◌∷◌ c name, value)

-- What the client keeps between lines, and what it gives to its listeners.
pub record Pending : Type 0 where
  pub data_lines : List String
  pub event_type : String
  pub last_id : String
  pub reconnect_ms : Option ℕ

pub record Received : Type 0 where
  pub received_type : String
  pub received_data : String
  pub last_event_id : String
  pub received_retry : Option ℕ

abbrev to_ms : Number → Option ℕ → Option ℕ
to_ms (finite (pos n)) old = some n
to_ms _ old = old

unfoldable pub take_field : String × String → Pending → Pending
take_field (name, value) p =
    if str_eq name "event"
    then record p { event_type = value }
    else if str_eq name "data"
    then record p { data_lines = p.data_lines ++ value ∷ [] }
    else if str_eq name "id"
    then record p { last_id = value }
    else if str_eq name "retry"
    then record p { reconnect_ms = to_ms (number_of value) p.reconnect_ms }
    else p

abbrev pub join_lines : List String → String
join_lines [] = ""
join_lines (l ∷ []) = l
join_lines (l ∷ (k ∷ ls)) = concat l (String.◌∷◌ "\n" (join_lines (k ∷ ls)))

abbrev pub event_of : Pending → Received
event_of p = record {
  received_type = if truthy p.event_type then p.event_type else "message";
  received_data = join_lines p.data_lines;
  last_event_id = p.last_id;
  received_retry = p.reconnect_ms;
}

abbrev pub no_fields : Pending → Pending
no_fields p = record p { data_lines = []; event_type = "" }

-- An empty line ends an event, which is dispatched if it has data.
unfoldable pub read_lines : Pending → List String → List Received
read_lines p [] = []
read_lines p (l ∷ ls) =
    let rest = read_lines (no_fields p) ls in
    let more = read_lines (take_field (split_line l) p) ls in
    if truthy l then more else if is_empty p.data_lines then rest else event_of p ∷ rest

abbrev pub fresh_client : Pending
fresh_client = record { data_lines = []; event_type = ""; last_id = ""; reconnect_ms = none }

abbrev pub read_events : String → List Received
read_events t = read_lines fresh_client (lines t)
