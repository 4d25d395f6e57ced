-- ===== src/Streaming/Resume.antt =====
-- What a client that comes back gets of a stream that is still written.
use text.Mathlib.TextLemmas.{append_assoc, nil-append}
use z1mak_cv_queue.Prelude.{
  Bool, Bool-cases, List, Option, String, [], ap, append_text, arith, false, if◌then◌else◌, inl,
  inr, lookup, ltb, none, not, or_else, refl, some, true, truthy, ℕ, ◌&&◌, ◌<◌, ◌∙◌, ◌∷◌, ◌≡◌, ◌≤◌,
}
use z1mak_cv_queue.Models.{last}
use z1mak_cv_queue.Redis.{Entries, StreamEntry}
use z1mak_cv_queue.Scripts.Acquire.{over}
use z1mak_cv_queue.Streaming.{
  Frame, ended_frame, entry_frame, error_frame, is_last_event, read_after, replay,
  result_done_frame, result_frame, row_done_frame, row_frame, snapshot_frame, sse_data,
  stream_history, waiting_frame,
}

-- The text of entries, and of the frames that carry them.
abbrev pub text_of : Entries → String
text_of [] = ""
text_of ((i, e) ∷ l) = append_text (or_else e.data_text "") (text_of l)

abbrev pub frame_text : Frame → String
frame_text (entry_frame i e) = or_else e.data_text ""
frame_text (snapshot_frame i t status c m) = or_else t ""
frame_text (ended_frame i status) = ""
frame_text (waiting_frame status) = ""
frame_text (result_frame r) = or_else (lookup "data" r) ""
frame_text (result_done_frame r) = ""
frame_text (row_frame r) = or_else r.row_result ""
frame_text row_done_frame = ""
frame_text (error_frame c m) = ""

abbrev pub frames_text : List Frame → String
frames_text [] = ""
frames_text (f ∷ l) = append_text (frame_text f) (frames_text l)

-- The ids of a stream grow, from above `m`.
abbrev pub Increasing : ℕ → Entries → Type 0
Increasing m [] = Unit
Increasing m ((i, e) ∷ l) = (m < i) × Increasing i l

-- No entry ends the stream.
abbrev pub is_running : Entries → Bool
is_running [] = true
is_running ((i, e) ∷ l) = not (is_last_event e.type) && is_running l

abbrev pub upto : ℕ → Entries → Entries
upto n [] = []
upto n ((i, e) ∷ l) = if ltb n i then [] else (i, e) ∷ upto n l

kept_text :
    (o : Option String) → or_else (if truthy (or_else o "") then o else none) "" ≡ or_else o ""
kept_text none = refl
kept_text (some String.[]) = refl
kept_text (some (String.◌∷◌ c s)) = refl

data_text-sse : (e : StreamEntry) → or_else (sse_data e).data_text "" ≡ or_else e.data_text ""
data_text-sse e = kept_text e.data_text

pub replay-text :
    (n : ℕ) (l : Entries)
    → is_running l ≡ true
    → (frames_text (replay n l).0.frames ≡ text_of l) × ((replay n l).1.1 ≡ false)
unfolding replay
replay-text n [] h = (refl, refl)
replay-text n ((i, e) ∷ l) h = ground (arith, replay-text i l, data_text-sse e)

pub read_after-above : (n m : ℕ) (l : Entries) → n ≤ m → Increasing m l → read_after n l ≡ l
unfolding read_after
read_after-above n m [] h k = refl
read_after-above n m ((i, e) ∷ l) h k =
    let rest = read_after-above n i l (omega (arith, h, k.0)) k.1 in ground (arith, rest, h, k.0)

-- What the client had seen, and what it gets now.
parts :
    (n m : ℕ) (l : Entries)
    → Increasing m l
    → append_text (text_of (upto n l)) (text_of (read_after n l)) ≡ text_of l
unfolding read_after
parts n m [] k = refl
parts n m ((i, e) ∷ l) k = elim (Bool-cases (ltb n i)) [
  | inl later ↦
      let all : read_after n l ≡ l = read_after-above n i l (ground arith) k.1 in
      rw (later, all) (nil-append _)
  | inr seen ↦ rw seen (
      append_assoc (or_else e.data_text "") (text_of (upto n l)) (text_of (read_after n l))
      ∙ ap (append_text (or_else e.data_text "")) (parts n i l k.1))
]

running-after : (n : ℕ) (l : Entries) → is_running l ≡ true → is_running (read_after n l) ≡ true
unfolding read_after
running-after n [] h = refl
running-after n ((i, e) ∷ l) h = ground (arith, running-after n l)

-- While a job is running, a client that comes back with the id of the last entry that it has seen
-- gets the rest of the text: what it had and what it gets now is the text of the whole stream, nothing
-- twice and nothing left out, and the reply stays open.
pub resumed_text :
    (n : ℕ) (l : Entries)
    → Increasing 0 l
    → is_running l ≡ true
    → let (r, (last, over)) = stream_history (some n) l in
      (append_text (text_of (upto n l)) (frames_text r.frames) ≡ text_of l) × (over ≡ false)
unfolding stream_history
resumed_text n l inc run =
    let (said, over) = replay-text n (read_after n l) (running-after n l run) in
    (rw said (parts n 0 l inc), over)
