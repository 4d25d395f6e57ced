-- ===== src/Streaming/Wire/Frames.antt =====
-- The calls of `sendSSE` in routes/resume: the message of each frame.
-- JSON.stringify and the ids of stream entries. Documented behaviour: neither has a line break, as
-- JSON escapes it.
use z1mak_cv_queue.Prelude.{All, List, Option, String, [], false, none, refl, some, ℕ, ◌∷◌, ◌≡◌}
use z1mak_cv_queue.Redis.{SseEvent, done, error, snapshot}
use z1mak_cv_queue.Streaming.{
  Frame, ended_frame, entry_frame, error_frame, result_done_frame, result_frame, row_done_frame,
  row_frame, snapshot_frame, waiting_frame,
}
use z1mak_cv_queue.Streaming.Wire.{Message, read_events}
use z1mak_cv_queue.Streaming.Wire.Delivered.{
  IsClean, Sent, events_of, message, open_socket, send_all, socket_delivers,
}
use z1mak_cv_queue.Streaming.Wire.Messages.{has_break}

pub record Json : Type 0 where
  pub stringify : Frame → String  -- of the data of a frame
  pub id_text : ℕ → String
  pub stringify-line : (f : Frame) → has_break (stringify f) ≡ false
  pub id_text-line : (i : ℕ) → has_break (id_text i) ≡ false

module _ (J : Json) (job : String) where
  abbrev frame_id : Frame → String
  frame_id (snapshot_frame i _ _ _ _) = J.id_text i
  frame_id (ended_frame i _) = J.id_text i
  frame_id (entry_frame i _) = J.id_text i
  frame_id (waiting_frame _) = "0"
  frame_id _ = job

  abbrev frame_event : Frame → SseEvent
  frame_event (snapshot_frame _ _ _ _ _) = snapshot
  frame_event (ended_frame _ _) = done
  frame_event (entry_frame _ e) = e.type
  frame_event (waiting_frame _) = snapshot
  frame_event (result_frame _) = snapshot
  frame_event (result_done_frame _) = done
  frame_event (row_frame _) = snapshot
  frame_event row_done_frame = done
  frame_event (error_frame _ _) = error

  abbrev frame_retry : Frame → Option ℕ
  frame_retry (waiting_frame _) = some 5000
  frame_retry _ = none

  unfoldable pub frame_message : Frame → Message
  frame_message f = record {
    id = frame_id f;
    event = frame_event f;
    json = J.stringify f;
    retry_ms = frame_retry f;
  }

  abbrev pub sent_frames : List Frame → List Sent
  sent_frames [] = []
  sent_frames (f ∷ fs) = message (frame_message f) ∷ sent_frames fs

  frame_id-line : (f : Frame) → has_break job ≡ false → has_break (frame_id f) ≡ false
  frame_id-line (snapshot_frame i _ _ _ _) h = J.id_text-line i
  frame_id-line (ended_frame i _) h = J.id_text-line i
  frame_id-line (entry_frame i _) h = J.id_text-line i
  frame_id-line (waiting_frame _) h = refl
  frame_id-line (result_frame _) h = h
  frame_id-line (result_done_frame _) h = h
  frame_id-line (row_frame _) h = h
  frame_id-line row_done_frame h = h
  frame_id-line (error_frame _ _) h = h

  sent_frames-IsClean : (fs : List Frame) → has_break job ≡ false → All IsClean (sent_frames fs)
  unfolding frame_message
  sent_frames-IsClean [] h = tt
  sent_frames-IsClean (f ∷ fs) h =
      ((frame_id-line f h, J.stringify-line f), sent_frames-IsClean fs h)

  -- What the client of an open connection receives, read by the specification of EventSource, is one
  -- event for each frame of the reply, in their order: its name and its JSON text, its id, which a
  -- client that comes back sends as the last one that it has seen, and the time to wait that the last
  -- frame with a retry has set. This is for a job id without a line break.
  pub reply_delivers :
      (fs : List Frame)
      → has_break job ≡ false
      → read_events ((send_all (sent_frames fs) (open_socket "")).written)
        ≡ events_of none (sent_frames fs)
  reply_delivers fs h = socket_delivers (sent_frames fs) (sent_frames-IsClean fs h)
