-- ===== src/Redis.antt =====
-- redis/keys.ts and redis/keys.types.ts, and the part of the Redis server that the program relies
-- on, as an interface. The server is not code of this repository: `Redis` takes its state and its
-- commands as parameters, and the one law that each command changes the cell of its own key, as
-- its documentation says, and no other cell.
mod Keys
mod Cells
pub mod Laws
pub use Keys.*
unfoldable pub use Cells.*
use z1mak_cv_queue.Prelude.{
  All, Assoc, Bool, List, Option, String, [], if◌then◌else◌, ℕ, ◌<◌, ◌∷◌, ◌≡◌,
}
use z1mak_cv_queue.Prelude.Int.{ℤ}

abbrev pub Command : Type 0
Command = Key × Action

-- Documented behaviour: a command has its effect on its own key and leaves the others alone.
pub record Redis : Type 1 where
  pub State : Type 0
  pub cell : State → Key → Cell
  pub exec : Command → State → State
  -- XADD with the id '*': the server takes an id above those of the stream and above '0'.
  pub next_id : State → Key → ℕ
  pub next_id-positive : (s : State) (k : Key) → 0 < next_id s k
  pub next_id-above : (s : State) (k : Key) → All (λ e. e.0 < next_id s k) (cell s k).entries
  pub cell-exec :
      (k : Key) (a : Action) (s : State) (j : Key)
      → cell (exec (k, a) s) j ≡ (if key_eq k j then effect a (cell s j) else cell s j)

module _ (R : Redis) where
  open R use {State, cell, exec}

  -- What the reading commands return: GET, HGETALL, ZRANGE, SMEMBERS, XRANGE.
  unfoldable pub count : State → Key → Option ℤ
  count s k = (cell s k).count

  unfoldable pub text : State → Key → Option String
  text s k = (cell s k).text

  unfoldable pub fields : State → Key → Assoc String
  fields s k = (cell s k).fields

  unfoldable pub scores : State → Key → Assoc ℕ
  scores s k = (cell s k).scores

  unfoldable pub members : State → Key → List String
  members s k = (cell s k).members

  unfoldable pub entries : State → Key → Entries
  entries s k = (cell s k).entries

  -- A pipeline or a MULTI block sends its commands in order.
  unfoldable pub pipeline : List Command → State → State
  pipeline [] s = s
  pipeline (c ∷ cs) s = pipeline cs (exec c s)

  -- A command under an `if` of the source.
  unfoldable pub when : Bool → Command → State → State
  when b c s = if b then exec c s else s
