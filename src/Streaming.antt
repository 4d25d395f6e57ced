-- ===== src/Streaming.antt =====
-- routes/resume/streamingLogic.ts: how a client reads the stream of a job.
pub mod Snapshot
pub mod Resume
pub mod Live
pub mod Wire
use z1mak_cv_queue.Prelude.{
  Assoc, Bool, List, Option, String, [], append_text, false, if◌then◌else◌, is_empty, ltb, none,
  or_else, some, str_eq, true, truthy, ℕ, ◌||◌, ◌∷◌,
}
use z1mak_cv_queue.Models.{last}
use z1mak_cv_queue.Redis.{Entries, SseEvent, StreamEntry, chunk, done, entries, error, snapshot}
use z1mak_cv_queue.Worker.Job.{failed}

-- What the routes read of a row of the table cv_analyzes.
pub record ResultRow : Type 0 where
  pub row_status : String
  pub row_result : Option String
  pub row_error : Option String
  pub row_finished_at : Option String

-- What `sendSSE` writes, by the shape of its data. The id of a frame is that of the last entry that
-- it covers.
pub data Frame : Type 0 where
  snapshot_frame : ℕ → Option String → String → Option String → Option String → Frame
  ended_frame : ℕ → String → Frame  -- 'done' with a status
  entry_frame : ℕ → StreamEntry → Frame
  waiting_frame : String → Frame  -- a 'snapshot' without content, and a retry of 5000 ms
  result_frame : Assoc String → Frame  -- a 'snapshot' of a finished result
  result_done_frame : Assoc String → Frame
  row_frame : ResultRow → Frame  -- a 'snapshot' of a row
  row_done_frame : Frame  -- 'done' without data
  error_frame : String → String → Frame  -- 'error' with a code and a message

-- What was written to the reply, and whether `reply.raw.end()` was called.
pub record Reply : Type 0 where
  pub frames : List Frame
  pub is_ended : Bool

-- XREAD STREAMS key id: the entries above the id, in their order.
unfoldable pub read_after : ℕ → Entries → Entries
read_after last [] = []
read_after last ((i, e) ∷ l) =
    let rest = read_after last l in if ltb last i then (i, e) ∷ rest else rest

-- `const { data: content, ...rest } = parsed; content ? { content, ...rest } : rest`
abbrev pub sse_data : StreamEntry → StreamEntry
sse_data e = record e { data_text = if truthy (or_else e.data_text "") then e.data_text else none }

abbrev pub is_last_event : SseEvent → Bool
is_last_event done = true
is_last_event error = true
is_last_event chunk = false
is_last_event snapshot = false

-- The variables of the loop for a new connection.
pub record Summary : Type 0 where
  pub full_content : String
  pub status : String
  pub final_id : ℕ
  pub error_code : Option String
  pub error_message : Option String

-- A chunk without a text would add 'undefined'; the worker writes none.
unfoldable pub add_entry : Summary → SseEvent → StreamEntry → Summary
add_entry s chunk e = record s {
  full_content = append_text s.full_content (or_else e.data_text "undefined");
}
add_entry s done e = record s { status = "completed" }
add_entry s error e = record s { status = "failed"; error_code = e.code; error_message = e.message }
add_entry s snapshot e = s

unfoldable pub summarise : Summary → Entries → Summary
summarise s [] = s
summarise s ((i, e) ∷ l) = summarise (add_entry (record s { final_id = i }) e.type e) l

abbrev pub empty_summary : Summary
empty_summary = record {
  full_content = "";
  status = "in_progress";
  final_id = 0;
  error_code = none;
  error_message = none;
}

-- `fullContent || null`
abbrev pub content_of : String → Option String
content_of t = if truthy t then some t else none

-- The snapshot, and 'done' after it if the job is over.
unfoldable pub send_summary : Summary → Reply × (ℕ × Bool)
send_summary s =
    let failed = str_eq s.status "failed" in
    let frame =
      snapshot_frame s.final_id (content_of s.full_content) s.status
        (if failed then s.error_code else none) (if failed then s.error_message else none) in
    if str_eq s.status "in_progress"
    then (record { frames = frame ∷ []; is_ended = false }, (s.final_id, false))
    else (
      record { frames = frame ∷ ended_frame s.final_id s.status ∷ []; is_ended = true },
      (s.final_id, true),
    )

-- The loop over entries for a client that comes back: it stops at the entry that ends the stream.
unfoldable pub replay : ℕ → Entries → Reply × (ℕ × Bool)
replay last [] = (record { frames = []; is_ended = false }, (last, false))
replay last ((i, e) ∷ l) =
    let frame = entry_frame i (sse_data e) in
    let (r, o) = replay i l in
    if is_last_event e.type
    then (record { frames = frame ∷ []; is_ended = true }, (i, true))
    else (record r { frames = frame ∷ r.frames }, o)

unfoldable pub new_connection : Entries → Reply × (ℕ × Bool)
new_connection [] = (record { frames = []; is_ended = false }, (0, false))
new_connection (p ∷ l) = send_summary (summarise empty_summary (p ∷ l))

-- `streamHistory`, on the entries of the stream; `none` is a client without a last event id.
unfoldable pub stream_history : Option ℕ → Entries → Reply × (ℕ × Bool)
stream_history none entries = new_connection (read_after 0 entries)
stream_history (some last) entries = replay last (read_after last entries)

-- `trySendFinishedResultFromRedis`
unfoldable pub finished_from_redis : Assoc String → Option Reply
finished_from_redis result =
    if is_empty result
    then none
    else some
        (record { frames = result_frame result ∷ result_done_frame result ∷ []; is_ended = true })

-- `trySendFinishedResultFromDb`
unfoldable pub finished_from_db : Option ResultRow → Option Reply
finished_from_db none = none
finished_from_db (some r) =
    if str_eq r.row_status "completed" || str_eq r.row_status "failed"
    then some (record { frames = row_frame r ∷ row_done_frame ∷ []; is_ended = true })
    else none
