-- ===== src/Database.antt =====
-- db/client.ts: a connection from the pool, and a transaction around what its user does. PostgreSQL is a
-- parameter, with what its documentation says of transactions.
pub mod Atomic
use z1mak_cv_queue.Prelude.{Bool, Option, String, false, none, some, true, ℕ, ◌+◌, ◌-◌, ◌≡◌}

-- What a promise settles to.
pub data Attempt {ℓ} (A : Type ℓ) : Type ℓ where
  resolved : A → Attempt A
  threw : String → Attempt A

abbrev pub is_threw {ℓ} : {A : Type ℓ} → Attempt A → Bool
is_threw (resolved a) = false
is_threw (threw e) = true

-- One connection. A statement outside a transaction is one of its own.
pub record Postgres : Type 1 where
  pub Session : Type 0
  pub Db : Type 0
  pub Sql : Type 0
  pub Rows : Type 0
  pub set_config : String → Sql  -- the role 'authenticated' and the claims, for the transaction
  pub query : Sql → Session → Attempt Rows × Session
  pub begin : Session → Attempt (Unit {0}) × Session
  pub commit : Session → Attempt (Unit {0}) × Session
  pub rollback : Session → Attempt (Unit {0}) × Session
  pub committed : Session → Db  -- what other connections see
  pub visible : Session → Db  -- what this connection sees
  pub is_open : Session → Bool
  pub is_aborted : Session → Bool  -- the open transaction takes no more statements
  -- BEGIN opens a transaction where none is open, and commits nothing.
  pub begin-committed : (s : Session) → committed (begin s).1 ≡ committed s
  pub begin-open : (s : Session) → (begin s).0 ≡ resolved tt → is_open (begin s).1 ≡ true
  pub begin-clean :
      (s : Session) → is_open s ≡ false → (begin s).0 ≡ resolved tt → is_aborted (begin s).1 ≡ false
  -- A statement that goes through aborts nothing; one that fails does.
  pub query-clean :
      (q : Sql) (s : Session)
      → is_open s ≡ true
      → is_aborted s ≡ false
      → is_threw (query q s).0 ≡ false
      → is_aborted (query q s).1 ≡ false
  pub query-aborted :
      (q : Sql) (s : Session)
      → is_open s ≡ true
      → is_threw (query q s).0 ≡ true
      → is_aborted (query q s).1 ≡ true
  -- In a transaction a statement commits nothing, and leaves it open, also where it fails.
  pub query-committed :
      (q : Sql) (s : Session) → is_open s ≡ true → committed (query q s).1 ≡ committed s
  pub query-open : (q : Sql) (s : Session) → is_open s ≡ true → is_open (query q s).1 ≡ true
  -- COMMIT makes all of the transaction seen, or fails and makes none of it seen. Where the transaction
  -- is aborted, COMMIT rolls back, and does not fail for that.
  pub commit-resolved :
      (s : Session)
      → is_open s ≡ true
      → is_aborted s ≡ false
      → (commit s).0 ≡ resolved tt
      → committed (commit s).1 ≡ visible s
  pub commit-aborted :
      (s : Session) → is_open s ≡ true → is_aborted s ≡ true → committed (commit s).1 ≡ committed s
  pub commit-threw :
      (s : Session) (e : String) → (commit s).0 ≡ threw e → committed (commit s).1 ≡ committed s
  pub rollback-committed : (s : Session) → committed (rollback s).1 ≡ committed s
  -- Either ends the transaction, where it goes through.
  pub commit-closed : (s : Session) → (commit s).0 ≡ resolved tt → is_open (commit s).1 ≡ false
  pub rollback-closed :
      (s : Session) → (rollback s).0 ≡ resolved tt → is_open (rollback s).1 ≡ false

-- `pool`: the connections that are borrowed, and whether another can be had.
pub record Pool : Type 0 where
  pub borrowed : ℕ
  pub connect_error : Option String

-- What a user of a connection does: statements, one after the other, each of which may be rejected.
pub data Work {ℓ} (P : Postgres) (A : Type ℓ) : Type ℓ where
  ends : Attempt A → Work P A
  asks : P.Sql → (Attempt P.Rows → Work P A) → Work P A

module _ {ℓ} {A : Type ℓ} (P : Postgres) where
  open P use {Session, query, begin, commit, rollback}

  unfoldable pub do_work : Work P A → Session → Attempt A × Session
  do_work (ends result) s = (result, s)
  do_work (asks q next) s = let (answer, t) = query q s in do_work (next answer) t

  -- The `catch`: ROLLBACK, whose own error goes first.
  abbrev rejected_with : String → Attempt (Unit {0}) → Attempt A
  rejected_with e (resolved _) = threw e
  rejected_with e (threw e') = threw e'

  unfoldable pub roll_back : String → Session → Attempt A × Session
  roll_back e s = let (answer, t) = rollback s in (rejected_with e answer, t)

  unfoldable pub after_commit : A → Attempt (Unit {0}) × Session → Attempt A × Session
  unfolding roll_back
  after_commit a (resolved _, s) = (resolved a, s)
  after_commit a (threw e, s) = roll_back e s

  unfoldable pub after_work : Attempt A × Session → Attempt A × Session
  unfolding roll_back after_commit
  after_work (resolved a, s) = after_commit a (commit s)
  after_work (threw e, s) = roll_back e s

  unfoldable pub after_begin : Work P A → Attempt (Unit {0}) × Session → Attempt A × Session
  unfolding do_work roll_back after_work
  after_begin work (resolved _, s) = after_work (do_work work s)
  after_begin work (threw e, s) = roll_back e s

  -- `pool.connect()`, a body, and `client.release()` in `finally`
  abbrev pub connected :
      Option String → (Session → Attempt A × Session) → Pool → Session → Attempt A × Pool × Session
  connected (some e) body pool s = (threw e, pool, s)
  connected none body pool s =
      let taken = record pool { borrowed = pool.borrowed + 1 } in
      let (result, t) = body s in (result, record taken { borrowed = taken.borrowed - 1 }, t)

  unfoldable pub with_connection :
      (Session → Attempt A × Session) → Pool → Session → Attempt A × Pool × Session
  with_connection body pool s = connected pool.connect_error body pool s

  -- `withClient` and `withTransaction`
  unfoldable pub with_client : Work P A → Pool → Session → Attempt A × Pool × Session
  unfolding with_connection do_work
  with_client work = with_connection (do_work work)

  unfoldable pub with_transaction : Work P A → Pool → Session → Attempt A × Pool × Session
  unfolding with_connection after_begin
  with_transaction work = with_connection (λ s. after_begin work (begin s))

  -- `withUserContext`: the work follows the claims, if these are set.
  abbrev after_config : Work P A → Attempt P.Rows → Work P A
  after_config work (resolved rows) = work
  after_config work (threw e) = ends (threw e)

  unfoldable pub with_user_context : String → Work P A → Pool → Session → Attempt A × Pool × Session
  unfolding with_transaction
  with_user_context claims work = with_transaction (asks (P.set_config claims) (after_config work))
