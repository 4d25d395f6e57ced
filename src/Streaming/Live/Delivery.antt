-- ===== src/Streaming/Live/Delivery.antt =====
-- What a client that stays gets.
use text.Mathlib.TextLemmas.{append_assoc, nil-append}
use mathlib.Core.List.{append-nil as list-nil, append_assoc as list_assoc}
use z1mak_cv_queue.Prelude.{
  List, [], ap, append_text, arith, false, none, or_else, refl, sym, true, ℕ, ◌++◌, ◌∙◌, ◌∷◌, ◌≡◌,
  ◌≤◌,
}
use z1mak_cv_queue.Redis.{Entries}
use z1mak_cv_queue.Scripts.Acquire.{over}
use z1mak_cv_queue.Streaming.{Frame, read_after, replay}
use z1mak_cv_queue.Streaming.Live.{Round, live}
use z1mak_cv_queue.Streaming.Resume.{
  Increasing, frame_text, frames_text, is_running, read_after-above, replay-text, text_of,
}

-- The rounds of a stream to which the worker adds one batch after the other, while the client stays.
abbrev pub rounds_of : Entries → List Entries → List Round
rounds_of l [] = []
rounds_of l (b ∷ batches) =
    record {
      entries = l ++ b;
      exists = true;
      gone_before = false;
      gone_after = false;
      left_at = none;
    }
    ∷ rounds_of (l ++ b) batches

abbrev pub all_entries : List Entries → Entries
all_entries [] = []
all_entries (b ∷ batches) = b ++ all_entries batches

-- The last id of a stream whose ids start above `m`.
abbrev pub last_id : ℕ → Entries → ℕ
last_id m [] = m
last_id m ((i, e) ∷ l) = last_id i l

last_id-append : (m : ℕ) (l b : Entries) → last_id m (l ++ b) ≡ last_id (last_id m l) b
last_id-append m [] b = refl
last_id-append m ((i, e) ∷ l) b = last_id-append i l b

last_id-le : (m : ℕ) (l : Entries) → Increasing m l → m ≤ last_id m l
last_id-le m [] k = omega arith
last_id-le m ((i, e) ∷ l) k = omega (arith, k.0, last_id-le i l k.1)

Increasing-left : (m : ℕ) (l b : Entries) → Increasing m (l ++ b) → Increasing m l
Increasing-left m [] b k = tt
Increasing-left m ((i, e) ∷ l) b k = (k.0, Increasing-left i l b k.1)

-- Reading after the last id of the first part gives the second part.
read_after-append :
    (m : ℕ) (l b : Entries) → Increasing m (l ++ b) → read_after (last_id m l) (l ++ b) ≡ b
unfolding read_after
read_after-append m [] b k = read_after-above m m b (omega arith) k
read_after-append m ((i, e) ∷ l) b k =
    ground (arith, read_after-append i l b k.1, last_id-le i l (Increasing-left i l b k.1))

running-parts :
    (l b : Entries) → is_running (l ++ b) ≡ true → (is_running l ≡ true) × (is_running b ≡ true)
running-parts [] b h = (refl, h)
running-parts ((i, e) ∷ l) b h = ground (arith, running-parts l b)

text_of-append : (l b : Entries) → text_of (l ++ b) ≡ append_text (text_of l) (text_of b)
text_of-append [] b = sym (nil-append (text_of b))
text_of-append ((i, e) ∷ l) b =
    let said = or_else e.data_text "" in
    ap (append_text said) (text_of-append l b) ∙ sym (append_assoc said (text_of l) (text_of b))

frames_text-append :
    (l r : List Frame) → frames_text (l ++ r) ≡ append_text (frames_text l) (frames_text r)
frames_text-append [] r = sym (nil-append (frames_text r))
frames_text-append (f ∷ l) r =
    ap (append_text (frame_text f)) (frames_text-append l r)
    ∙ sym (append_assoc (frame_text f) (frames_text l) (frames_text r))

replay-last : (n : ℕ) (l : Entries) → is_running l ≡ true → (replay n l).1.0 ≡ last_id n l
unfolding replay
replay-last n [] h = refl
replay-last n ((i, e) ∷ l) h = ground (arith, replay-last i l)

-- While the worker adds batches of chunks to a stream and the client stays, the loop delivers the text
-- of all the batches, each entry once and in order, however the chunks fall into batches and however
-- many rounds bring nothing; and the reply stays open.
pub live_delivers :
    (m : ℕ) (l : Entries) (batches : List Entries)
    → Increasing m (l ++ all_entries batches)
    → is_running (all_entries batches) ≡ true
    → let r = live (last_id m l) (rounds_of l batches) in
      (frames_text r.frames ≡ text_of (all_entries batches)) × (r.is_ended ≡ false)
unfolding live
live_delivers m l [] inc run = (refl, refl)
live_delivers m l ([] ∷ batches) inc run =
    let same : l ++ [] ≡ l = list-nil l in
    let new = read_after-append m l [] (rw same (Increasing-left m l (all_entries batches) inc)) in
    let rest = live_delivers m l batches inc run in rw (new, same) rest
live_delivers m l ((p ∷ b) ∷ batches) inc run =
    let a = p ∷ b in
    let inc' : Increasing m ((l ++ a) ++ all_entries batches) =
      rw (list_assoc l a (all_entries batches)) inc in
    let new = read_after-append m l a (Increasing-left m (l ++ a) (all_entries batches) inc') in
    let (run_a, run_rest) = running-parts a (all_entries batches) run in
    let (said, over) = replay-text (last_id m l) a run_a in
    let last : (replay (last_id m l) a).1.0 ≡ last_id m (l ++ a) =
      replay-last (last_id m l) a run_a ∙ sym (last_id-append m l a) in
    let (rest, open_still) = live_delivers m (l ++ a) batches inc' run_rest in
    rw (new, over, last)
      (
        frames_text-append (replay (last_id m l) a).0.frames
              (live (last_id m (l ++ a)) (rounds_of (l ++ a) batches)).frames
            ∙ rw (said, rest) (sym (text_of-append a (all_entries batches))),
        open_still,
      )
