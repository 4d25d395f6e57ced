-- ===== src/Streaming/Snapshot.antt =====
-- What a client sees of a stream that has ended.
use text.Mathlib.TextLemmas.{append-nil, append_assoc, nil-append}
use z1mak_cv_queue.Prelude.{
  All, Bool, List, Option, String, [], append_text, arith, false, none, refl, some, sym, true, ℕ,
  ◌++◌, ◌<◌, ◌∙◌, ◌∷◌, ◌≡◌,
}
use z1mak_cv_queue.Models.{before}
use z1mak_cv_queue.Redis.{
  Entries, Redis, StreamEntry, chunk, entries, expire, job_stream, when, xadd,
}
use z1mak_cv_queue.Redis.Laws.{redis_laws}
use z1mak_cv_queue.Streaming.{
  Frame, Summary, add_entry, content_of, empty_summary, ended_frame, new_connection, read_after,
  send_summary, snapshot_frame, stream_history, summarise,
}
use z1mak_cv_queue.Worker.Execute.{
  Call, append_entry, chunk_entry, close_stream, code_or_unknown, concat, done_entry, end_stream,
  error_entry, execute_stream, stream_ttl_completed, stream_ttl_safety, write_chunks,
}
use z1mak_cv_queue.Worker.Execute.Stream.{chunk_entries, end_entry, messages, stream_written}
use z1mak_cv_queue.Worker.Types.{Err, JobData}

-- How a stream ends, as a client reads it.
abbrev pub final_status : Option Err → String
final_status none = "completed"
final_status (some e) = "failed"

abbrev pub final_code : Option Err → Option String
final_code none = none
final_code (some e) = some (code_or_unknown e.code)

abbrev pub final_message : Option Err → Option String
final_message none = none
final_message (some e) = some e.message

-- The summary of the chunks and of the entry that ends them.
IsSummary : List String → Option Err → String → Summary → Type 0
IsSummary chunks broke before s =
    (s.full_content ≡ append_text before (concat chunks))
    × (s.status ≡ final_status broke)
    × (s.error_code ≡ final_code broke)
    × (s.error_message ≡ final_message broke)

summarise-end :
    (retryable : Bool) (broke : Option Err) (s : Summary) (l : Entries)
    → s.error_code ≡ none
    → s.error_message ≡ none
    → messages l ≡ end_entry retryable broke ∷ []
    → IsSummary [] broke s.full_content (summarise s l)
unfolding IsSummary summarise add_entry
summarise-end b broke s [] c m h = cc
summarise-end b none s ((i, e) ∷ []) c m h =
    let same : e ≡ done_entry = cc in rw same (sym (append-nil s.full_content), refl, c, m)
summarise-end b (some x) s ((i, e) ∷ []) c m h =
    let same : e ≡ end_entry b (some x) = cc in
    rw same (sym (append-nil s.full_content), refl, refl, refl)
summarise-end b broke s (p ∷ q ∷ l) c m h = cc

summarise-chunks :
    (retryable : Bool) (broke : Option Err) (chunks : List String) (s : Summary) (l : Entries)
    → s.error_code ≡ none
    → s.error_message ≡ none
    → messages l ≡ chunk_entries chunks ++ end_entry retryable broke ∷ []
    → IsSummary chunks broke s.full_content (summarise s l)
unfolding IsSummary summarise add_entry
summarise-chunks b broke [] s l c m h = summarise-end b broke s l c m h
summarise-chunks b broke (t ∷ chunks) s [] c m h = cc
summarise-chunks b broke (t ∷ chunks) s ((i, e) ∷ l) c m h =
    let same : e ≡ chunk_entry t = cc in
    let rest : messages l ≡ chunk_entries chunks ++ end_entry b broke ∷ [] = cc in
    let s' = add_entry (record s { final_id = i }) chunk (chunk_entry t) in
    let (f, st, c', m') = summarise-chunks b broke chunks s' l c m rest in
    rw same (f ∙ append_assoc s.full_content t (concat chunks), st, c', m')

read_after-All : (l : Entries) → All (λ e. 0 < e.0) l → read_after 0 l ≡ l
unfolding read_after
read_after-All [] h = refl
read_after-All ((i, e) ∷ l) h = ground (arith, read_after-All l h.1)

-- The snapshot with the id of the last entry, and 'done'.
abbrev pub closing_frames : ℕ → List String → Option Err → List Frame
closing_frames id chunks broke =
    snapshot_frame id (content_of (concat chunks)) (final_status broke) (final_code broke)
      (final_message broke)
    ∷ ended_frame id (final_status broke)
    ∷ []

send-closing :
    (chunks : List String) (broke : Option Err) (s : Summary)
    → IsSummary chunks broke "" s
    → send_summary s ≡ (
      record { frames = closing_frames s.final_id chunks broke; is_ended = true },
      (s.final_id, true),
    )
unfolding send_summary IsSummary
send-closing chunks none s h = rw (h.0, nil-append (concat chunks), h.1)
send-closing chunks (some e) s h = rw (h.0, nil-append (concat chunks), h.1, h.2, h.3)

new_connection-closing :
    (retryable : Bool) (broke : Option Err) (chunks : List String) (l : Entries)
    → messages l ≡ chunk_entries chunks ++ end_entry retryable broke ∷ []
    → (id : ℕ) × (new_connection l
        ≡ (record { frames = closing_frames id chunks broke; is_ended = true }, (id, true)))
unfolding new_connection
new_connection-closing b broke [] [] h = cc
new_connection-closing b broke (t ∷ chunks) [] h = cc
new_connection-closing b broke chunks (p ∷ l) h =
    let s = summarise empty_summary (p ∷ l) in
    (
      s.final_id,
      send-closing chunks broke s
          (summarise-chunks b broke chunks empty_summary (p ∷ l) refl refl h),
    )

All-snoc :
    (l : Entries) (p : ℕ × StreamEntry)
    → All (λ e. 0 < e.0) l
    → 0 < p.0
    → All (λ e. 0 < e.0) (l ++ p ∷ [])
All-snoc [] p h k = (k, tt)
All-snoc (q ∷ l) p h k = (h.0, All-snoc l p h.1 k)

module _ (R : Redis) (job : JobData) where
  open R use {State}

  abbrev stream : State → Entries
  stream s = entries R s (job_stream job.job_id)

  Positive : State → Type 0
  Positive s = All (λ e. 0 < e.0) (stream s)

  append-Positive :
      (e : StreamEntry) (s : State) → Positive s → Positive (append_entry R job.job_id e s)
  unfolding append_entry Positive
  append-Positive e s h =
      let id = R.next_id s (job_stream job.job_id) in
      let same : stream (R.exec (job_stream job.job_id, xadd id e) s) ≡ stream s ++ (id, e) ∷ [] =
        simp redis_laws in
      rw same (All-snoc (stream s) (id, e) h (R.next_id-positive s (job_stream job.job_id)))

  expire-stream :
      (b : Bool) (ttl : ℕ) (s : State)
      → stream (when R b (job_stream job.job_id, expire ttl) s) ≡ stream s
  expire-stream b ttl s = simp redis_laws (ground arith)

  write-Positive :
      (first : Bool) (chunks : List String) (s : State)
      → Positive s
      → Positive (write_chunks R job.job_id first chunks s)
  unfolding write_chunks
  write-Positive first [] s h = h
  write-Positive first (t ∷ chunks) s h =
      let u = append_entry R job.job_id (chunk_entry t) s in
      let v = when R first (job_stream job.job_id, expire stream_ttl_safety) u in
      write-Positive false chunks v (
        unfold Positive in
        rw (expire-stream first stream_ttl_safety u) (append-Positive (chunk_entry t) s h))

  close-Positive :
      (e : StreamEntry) (s : State) → Positive s → Positive (close_stream R job.job_id e s)
  unfolding close_stream Positive when
  close-Positive e s h =
      let u = append_entry R job.job_id e s in
      rw (expire-stream true stream_ttl_completed u) (append-Positive e s h)

  end-Positive :
      (call : Call) (o : Option Err) (s : State)
      → Positive s
      → Positive (end_stream R job call o s).1
  unfolding end_stream
  end-Positive call none s h = close-Positive done_entry s h
  end-Positive call (some e) s h =
      close-Positive (error_entry (code_or_unknown e.code) e.message call.retryable) s h

  execute-Positive :
      (call : Call) (s : State) → Positive s → Positive (execute_stream R job call s).1
  unfolding execute_stream
  execute-Positive call s h =
      end-Positive call call.broke (write_chunks R job.job_id true call.chunks s)
        (write-Positive true call.chunks s h)

  -- A client that connects after a streaming call has ended, on a stream that was empty before, gets
  -- one snapshot and 'done': the snapshot holds the text of all chunks in their order, and says that
  -- the job is completed, or failed with the code and the message of the provider's error.
  pub reader_sees_result :
      (call : Call) (s : State)
      → stream s ≡ []
      → let t = (execute_stream R job call s).1 in
        (id : ℕ) × (stream_history none (stream t) ≡ (
          record { frames = closing_frames id call.chunks call.broke; is_ended = true },
          (id, true),
        ))
  unfolding stream_history Positive
  reader_sees_result call s fresh =
      let t = (execute_stream R job call s).1 in
      let all = read_after-All (stream t) (execute-Positive call s (rw fresh tt)) in
      let sent = stream_written R job call s in
      rw all
        (new_connection-closing call.retryable call.broke call.chunks (stream t) (rw fresh at sent))
