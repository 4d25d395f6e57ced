-- ===== src/Streaming/Wire/Messages.antt =====
-- How a client reads the text of one message.
use z1mak_cv_queue.Prelude.{
  Bool, Option, String, [], ap, arith, false, refl, true, truthy, ℕ, ◌||◌, ◌∙◌, ◌∷◌, ◌≡◌,
}
use z1mak_cv_queue.Redis.{SseEvent, chunk, done, error, snapshot}
use z1mak_cv_queue.Streaming.Wire.{
  Message, Pending, Received, concat, event_name, is_break, lines, read_lines, take_field,
}

pub concat_assoc : (s t u : String) → concat (concat s t) u ≡ concat s (concat t u)
concat_assoc String.[] t u = refl
concat_assoc (String.◌∷◌ c s) t u = ap (λ x. String.◌∷◌ c x) (concat_assoc s t u)

abbrev pub has_break : String → Bool
has_break String.[] = false
has_break (String.◌∷◌ c s) = is_break c || has_break s

-- A text without a break, and the end of the line after it, are one line.
pub lines-concat :
    (t s : String) → has_break t ≡ false → lines (concat t (String.◌∷◌ "\n" s)) ≡ t ∷ lines s
unfolding lines
lines-concat String.[] s h = refl
lines-concat (String.◌∷◌ c t) s h =
    let no_break : is_break c ≡ false = ground arith in
    rw (no_break, lines-concat t s (ground arith)) refl

-- An id and a JSON text that do not break a line.
abbrev pub IsOneLine : Message → Type 0
IsOneLine m = (has_break m.id ≡ false) × (has_break m.json ≡ false)

event_name-line : (e : SseEvent) → has_break (concat "event: " (event_name e)) ≡ false
event_name-line chunk = refl
event_name-line snapshot = refl
event_name-line done = refl
event_name-line error = refl

event_name-truthy : (e : SseEvent) → truthy (event_name e) ≡ true
event_name-truthy chunk = refl
event_name-truthy snapshot = refl
event_name-truthy done = refl
event_name-truthy error = refl

abbrev pub body : Message → String
body m = concat "id: " (
    concat m.id
      (concat "\nevent: " (concat (event_name m.event) (concat "\ndata: " (concat m.json "\n\n")))))

body-lines :
    (m : Message) (rest : String)
    → IsOneLine m
    → lines (concat (body m) rest)
      ≡ concat "id: " m.id
        ∷ concat "event: " (event_name m.event)
        ∷ concat "data: " m.json
        ∷ ""
        ∷ lines rest
body-lines m rest (id_line, json_line) =
    let name = event_name m.event in
    let last = concat m.json "\n\n" in
    rw
      (
        concat_assoc m.id (concat "\nevent: " (concat name (concat "\ndata: " last))) rest,
        concat_assoc name (concat "\ndata: " last) rest,
        concat_assoc m.json "\n\n" rest,
      )
      (lines-concat (concat "id: " m.id) _ id_line
        ∙ ap (λ l. concat "id: " m.id ∷ l)
            (lines-concat (concat "event: " name) _ (event_name-line m.event)
              ∙ ap (λ l. concat "event: " name ∷ l)
                  (lines-concat (concat "data: " m.json) _ json_line
                    ∙ ap (λ l. concat "data: " m.json ∷ l) (lines-concat "" rest refl))))

-- What the client keeps after a message with an id.
abbrev pub after_message : String → Option ℕ → Pending
after_message id retry = record {
  data_lines = [];
  event_type = "";
  last_id = id;
  reconnect_ms = retry;
}

abbrev pub received_as : Message → Option ℕ → Received
received_as m retry = record {
  received_type = event_name m.event;
  received_data = m.json;
  last_event_id = m.id;
  received_retry = retry;
}

pub body-read :
    (m : Message) (rest id : String) (retry : Option ℕ)
    → IsOneLine m
    → read_lines (after_message id retry) (lines (concat (body m) rest))
      ≡ received_as m retry ∷ read_lines (after_message m.id retry) (lines rest)
unfolding read_lines take_field
body-read m rest id retry one = rw (body-lines m rest one, event_name-truthy m.event) refl
