-- ===== src/Streaming/Live.antt =====
-- routes/resume/streamingLogic.ts: `handleActiveStreaming` and its live loop.
pub mod Delivery
use z1mak_cv_queue.Prelude.{
  Assoc, Bool, List, Option, String, [], false, if◌then◌else◌, is_empty, length, ltb, none, not,
  some, str_eq, take, true, ℕ, ◌&&◌, ◌++◌, ◌||◌, ◌∷◌,
}
use z1mak_cv_queue.Redis.{Entries}
use z1mak_cv_queue.Streaming.{Reply, read_after, replay, stream_history, waiting_frame}
use z1mak_cv_queue.Worker.Failed.{or_text, text_field}

-- What one round of the loop meets: the entries of the stream when XREAD returns, whether the stream
-- exists when EXISTS is asked, and whether the client has gone before the wait, after it, or while the
-- entries are sent.
pub record Round : Type 0 where
  pub entries : Entries
  pub exists : Bool
  pub gone_before : Bool
  pub gone_after : Bool
  pub left_at : Option ℕ  -- how many entries are sent before the client leaves, if it leaves then

-- The entries that reach the client, and whether `sendSSE` fails before the last.
abbrev pub reached : Option ℕ → Entries → Entries
reached none new = new
reached (some n) new = take n new

abbrev pub leaves_early : Option ℕ → Entries → Bool
leaves_early none new = false
leaves_early (some n) new = ltb n (length new)

-- The entries of a round: each is sent, up to the one that ends the stream. `rest` is the next round.
abbrev on_batch : Reply × (ℕ × Bool) → Reply → Reply
on_batch (sent, (last, over)) rest =
    if over then sent else record { frames = sent.frames ++ rest.frames; is_ended = rest.is_ended }

-- The loop, over the rounds that are observed of it.
unfoldable pub live : ℕ → List Round → Reply
live last [] = record { frames = []; is_ended = false }
live last (r ∷ rounds) =
    let new = read_after last r.entries in
    let batch = replay last (reached r.left_at new) in
    let idle = live last rounds in
    let rest = live batch.1.0 rounds in
    if r.gone_before || r.gone_after
    then record { frames = []; is_ended = false }
    else if is_empty new
    then (if r.exists then idle else record { frames = []; is_ended = true })
    else if leaves_early r.left_at new
    then record { frames = batch.0.frames; is_ended = true }
    else on_batch batch rest

-- `handleActiveStreaming`, on the meta hash, the entries of the stream at the start and the rounds;
-- `none` where there is neither a meta hash nor a stream.
unfoldable pub handle_active_streaming :
    Assoc String → Bool → Option ℕ → Entries → List Round → Option Reply
handle_active_streaming meta stream_exists last_event entries rounds =
    let streaming = str_eq (text_field "streaming" meta) "true" in
    let queued = str_eq (text_field "status" meta) "queued" in
    let (sent, (last, over)) = stream_history last_event entries in
    let rest = live last rounds in
    if is_empty meta && not stream_exists
    then none
    else if not streaming || (queued && not stream_exists)
    then some (record {
      frames = waiting_frame (or_text (text_field "status" meta) "queued") ∷ [];
      is_ended = true;
    })
    else if over
    then some sent
    else some (record { frames = sent.frames ++ rest.frames; is_ended = rest.is_ended })
