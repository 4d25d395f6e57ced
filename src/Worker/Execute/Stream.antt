-- ===== src/Worker/Execute/Stream.antt =====
-- What a streaming call leaves in the stream of its job.
use mathlib.Core.List.{append-nil, append_assoc}
use z1mak_cv_queue.Prelude.{
  Bool, List, Option, String, [], ap, arith, false, none, refl, some, sym, true, ℕ, ◌++◌, ◌∙◌, ◌∷◌,
  ◌≡◌,
}
use z1mak_cv_queue.Redis.{Entries, Redis, StreamEntry, entries, expire, job_stream, text, when}
use z1mak_cv_queue.Redis.Laws.{redis_laws}
use z1mak_cv_queue.Worker.Execute.{
  Call, append_entry, chunk_entry, close_stream, code_or_unknown, done_entry, end_stream,
  error_entry, execute_stream, stream_ttl_safety, write_chunks,
}
use z1mak_cv_queue.Worker.Types.{Err, JobData}

abbrev pub messages : Entries → List StreamEntry
messages [] = []
messages ((i, e) ∷ l) = e ∷ messages l

messages_append :
    (l : Entries) (i : ℕ) (e : StreamEntry) → messages (l ++ (i, e) ∷ []) ≡ messages l ++ e ∷ []
messages_append [] i e = refl
messages_append ((j, d) ∷ l) i e = ap (λ m. d ∷ m) (messages_append l i e)

abbrev pub chunk_entries : List String → List StreamEntry
chunk_entries [] = []
chunk_entries (t ∷ l) = chunk_entry t ∷ chunk_entries l

-- The entry that ends the stream.
abbrev pub end_entry : Bool → Option Err → StreamEntry
end_entry retryable none = done_entry
end_entry retryable (some e) = error_entry (code_or_unknown e.code) e.message retryable

module _ (R : Redis) (job : JobData) where
  open R use {State}

  abbrev pub sent : State → List StreamEntry
  sent s = messages (entries R s (job_stream job.job_id))

  sent-append :
      (e : StreamEntry) (s : State) → sent (append_entry R job.job_id e s) ≡ sent s ++ e ∷ []
  unfolding append_entry
  sent-append e s =
      ap messages (simp redis_laws)
      ∙ messages_append (entries R s (job_stream job.job_id)) (R.next_id s (job_stream job.job_id))
          e

  sent-first :
      (first : Bool) (ttl : ℕ) (s : State)
      → sent (when R first (job_stream job.job_id, expire ttl) s) ≡ sent s
  sent-first first ttl s = ap messages (simp redis_laws (ground arith))

  sent-write :
      (first : Bool) (chunks : List String) (s : State)
      → sent (write_chunks R job.job_id first chunks s) ≡ sent s ++ chunk_entries chunks
  unfolding write_chunks
  sent-write first [] s = sym (append-nil (sent s))
  sent-write first (text ∷ chunks) s =
      let e = chunk_entry text in
      let t = append_entry R job.job_id e s in
      sent-write false chunks (when R first (job_stream job.job_id, expire stream_ttl_safety) t)
      ∙ ap (λ l. l ++ chunk_entries chunks) (sent-first first stream_ttl_safety t ∙ sent-append e s)
      ∙ append_assoc (sent s) (e ∷ []) (chunk_entries chunks)

  sent-close :
      (e : StreamEntry) (s : State) → sent (close_stream R job.job_id e s) ≡ sent s ++ e ∷ []
  unfolding close_stream
  sent-close e s = ap messages (simp redis_laws) ∙ sent-append e s

  sent-end :
      (call : Call) (o : Option Err) (s : State)
      → sent (end_stream R job call o s).1 ≡ sent s ++ end_entry call.retryable o ∷ []
  unfolding end_stream
  sent-end call none s = sent-close done_entry s
  sent-end call (some e) s = sent-close (end_entry call.retryable (some e)) s

  -- A streaming call appends to the stream of its job one entry for each chunk, in the order of the
  -- chunks, and then one entry that ends the stream: done, or the error with its code and message.
  pub stream_written :
      (call : Call) (s : State)
      → sent (execute_stream R job call s).1
        ≡ (sent s ++ chunk_entries call.chunks) ++ end_entry call.retryable call.broke ∷ []
  unfolding execute_stream
  stream_written call s =
      sent-end call call.broke (write_chunks R job.job_id true call.chunks s)
      ∙ ap (λ l. l ++ end_entry call.retryable call.broke ∷ []) (sent-write true call.chunks s)
