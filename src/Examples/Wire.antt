-- ===== src/Examples/Wire.antt =====
-- The text of a reply that tells a client to come back, and one of a job that failed.
use z1mak_cv_queue.Prelude.{List, [], none, refl, some, ◌∷◌, ◌≡◌}
use z1mak_cv_queue.Prelude.Int.{pos}
use z1mak_cv_queue.Js.{print}
use z1mak_cv_queue.Js.RoundTrip.{print-only_digits}
use z1mak_cv_queue.Streaming.{Frame, ended_frame, snapshot_frame, waiting_frame}
use z1mak_cv_queue.Streaming.Wire.{lines, read_events, read_lines, send_sse, sse_text, take_field}
use z1mak_cv_queue.Streaming.Wire.Delivered.{digits-has_break, events_of, open_socket, send_all}
use z1mak_cv_queue.Streaming.Wire.Frames.{Json, frame_message, reply_delivers, sent_frames}

abbrev json : Json
json = record {
  stringify = λ f. "{}";
  id_text = λ i. print (pos i);
  stringify-line = λ f. refl;
  id_text-line = λ i. digits-has_break (print (pos i)) (print-only_digits i);
}

waiting_text :
    sse_text (frame_message json "j1" (waiting_frame "queued"))
    ≡ "retry: 5000\nid: 0\nevent: snapshot\ndata: {}\n\n"
unfolding sse_text frame_message print
waiting_text = refl

abbrev failed_frames : List Frame
failed_frames = snapshot_frame 7 (some "a") "failed" none none ∷ ended_frame 7 "failed" ∷ []

failed_events :
    read_events ((send_all (sent_frames json "j1" failed_frames) (open_socket "")).written) ≡ (
      record {
        received_type = "snapshot";
        received_data = "{}";
        last_event_id = "7";
        received_retry = none;
      }
      ∷ record {
        received_type = "done";
        received_data = "{}";
        last_event_id = "7";
        received_retry = none;
      }
      ∷ [])
unfolding read_lines lines take_field send_sse sse_text frame_message print
failed_events = refl

reply_delivers_example :
    read_events ((send_all (sent_frames json "j1" failed_frames) (open_socket "")).written)
    ≡ events_of none (sent_frames json "j1" failed_frames)
reply_delivers_example = reply_delivers json "j1" failed_frames refl
