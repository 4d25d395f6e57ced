-- ===== src/Redis/Cells.antt =====
-- What a key of the server can hold, and the documented effect of each command on its key.
-- redis/keys.types.ts gives each key one type, so a cell keeps one field for each type that the
-- program uses; a key exists when some field of its cell is not empty.
use z1mak_cv_queue.Prelude.{
  Assoc, Bool, List, Option, String, [], false, if◌then◌else◌, insert, is_empty, is_some, ltb, none,
  not, or_else, some, str_eq, without, ℕ, ◌++◌, ◌||◌, ◌∷◌,
}
use z1mak_cv_queue.Prelude.Int.{pos, ℤ, ◌+ℤ◌}

-- utils/sse.ts: SSEEvent and StreamEntry. The worker writes an entry as JSON and the routes parse it
-- back; the model keeps the object.
pub data SseEvent : Type 0 where
  chunk snapshot done error : SseEvent

pub record StreamEntry : Type 0 where
  pub type : SseEvent
  pub data_text : Option String
  pub code : Option String
  pub message : Option String
  pub retryable : Option Bool

-- The id of an entry, by its rank in the order of ids; '0' is below all.
abbrev pub Entries : Type 0
Entries = List (ℕ × StreamEntry)

pub record Cell : Type 0 where
  pub count : Option ℤ  -- a counter: GET, INCRBY, SET
  pub text : Option String  -- any other plain value
  pub fields : Assoc String  -- a hash
  pub scores : Assoc ℕ  -- a sorted set: members with their scores
  pub members : List String  -- a set
  pub entries : Entries  -- a stream
  pub ttl : Option ℕ  -- seconds, counted from the last EXPIRE

abbrev pub absent : Cell
absent = record {
  count = none;
  text = none;
  fields = [];
  scores = [];
  members = [];
  entries = [];
  ttl = none;
}

abbrev pub exists : Cell → Bool
exists c =
    is_some c.count
    || (is_some c.text
        || (not (is_empty c.fields)
            || (not (is_empty c.scores) || (not (is_empty c.members) || not (is_empty c.entries)))))

-- ZREMRANGEBYSCORE key -inf now
unfoldable pub above : ℕ → Assoc ℕ → Assoc ℕ
above now [] = []
above now ((m, score) ∷ l) =
    let rest = above now l in if ltb now score then (m, score) ∷ rest else rest

-- HSET key f v …
unfoldable pub insert_all : Assoc String → Assoc String → Assoc String
insert_all [] m = m
insert_all ((k, v) ∷ l) m = insert_all l (insert k v m)

pub data Action : Type 0 where
  incrby : ℤ → Action
  set : ℤ → Action
  set_text : String → Action
  expire : ℕ → Action
  del : Action
  hset : Assoc String → Action
  zadd : ℕ → String → Action
  zrem : String → Action
  zremrangebyscore : ℕ → Action
  sadd : List String → Action
  xadd : ℕ → StreamEntry → Action

abbrev pub has_member : String → List String → Bool
has_member x [] = false
has_member x (y ∷ l) = str_eq x y || has_member x l

-- SADD: a member that is there already is left out.
abbrev pub add_members : List String → List String → List String
add_members [] l = l
add_members (x ∷ new) l = add_members new (if has_member x l then l else l ++ x ∷ [])

-- The documented effect of a command, one field at a time.
abbrev pub on_count : Action → Option ℤ → Option ℤ
on_count (incrby n) o = some (or_else o (pos 0) +ℤ n)
on_count (set n) o = some n
on_count (set_text t) o = none
on_count del o = none
on_count _ o = o

abbrev pub on_text : Action → Option String → Option String
on_text (set n) o = none
on_text (set_text t) o = some t
on_text del o = none
on_text _ o = o

abbrev pub on_fields : Action → Assoc String → Assoc String
on_fields (set n) m = []
on_fields (set_text t) m = []
on_fields del m = []
on_fields (hset l) m = insert_all l m
on_fields _ m = m

abbrev pub on_scores : Action → Assoc ℕ → Assoc ℕ
on_scores (set n) z = []
on_scores (set_text t) z = []
on_scores del z = []
on_scores (zadd score m) z = insert m score z
on_scores (zrem m) z = without m z
on_scores (zremrangebyscore now) z = above now z
on_scores _ z = z

abbrev pub on_members : Action → List String → List String
on_members (set n) l = []
on_members (set_text t) l = []
on_members del l = []
on_members (sadd new) l = add_members new l
on_members _ l = l

abbrev pub on_entries : Action → Entries → Entries
on_entries (set n) l = []
on_entries (set_text t) l = []
on_entries del l = []
on_entries (xadd id message) l = l ++ (id, message) ∷ []
on_entries _ l = l

-- SET and DEL drop the time to live; EXPIRE gives one to a key that exists; a sorted set that
-- becomes empty is gone, and its time to live with it.
abbrev on_ttl : Action → Cell → Bool → Option ℕ
on_ttl (set n) c after = none
on_ttl (set_text t) c after = none
on_ttl del c after = none
on_ttl (expire t) c after = if exists c then some t else none
on_ttl a c after = if after then c.ttl else none

unfoldable pub effect : Action → Cell → Cell
effect a c = record changed { ttl = on_ttl a c (exists changed) }
  where
    changed : Cell
    changed = record {
      count = on_count a c.count;
      text = on_text a c.text;
      fields = on_fields a c.fields;
      scores = on_scores a c.scores;
      members = on_members a c.members;
      entries = on_entries a c.entries;
      ttl = c.ttl;
    }
