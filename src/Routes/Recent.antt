-- ===== src/Routes/Recent.antt =====
-- GET /user/:userId/recent of routes/resume/resume.ts, and utils/queryUtils.ts. LIMIT and OFFSET are as
-- documented. The order of the rows is a parameter of each query: the database may choose another one
-- for the next query, where the ORDER BY leaves it a choice.
use z1mak_cv_queue.Prelude.{
  List, Option, String, [], ap, arith, drop, drop-nil, if◌then◌else◌, inl, inr, none, or_else, refl,
  some, suc, sym, take, take-nil, zero, ℕ, ◌*◌, ◌++◌, ◌+◌, ◌<◌, ◌∙◌, ◌∷◌, ◌≡◌, ◌⊎◌,
}
use z1mak_cv_queue.Prelude.Int.{ltb_ℤ, pos, pos_part, ℤ, ◌≤ℤ◌}
use z1mak_cv_queue.Js.{number_of, print}
use z1mak_cv_queue.Js.RoundTrip.{number-print}
use z1mak_cv_queue.Worker.Preflight.{finite_or}

-- `numberFromQuery`, of a text or of no value. What is no integer literal reads as not a number.
unfoldable pub number_from_query : Option String → ℤ → ℤ
number_from_query none fallback = fallback
number_from_query (some t) fallback = finite_or (number_of t) fallback

-- `Math.max(low, n)` and `Math.min(n, high)`; an integer is its own floor.
abbrev pub at_least : ℤ → ℤ → ℤ
at_least low n = if ltb_ℤ n low then low else n

abbrev pub at_most : ℤ → ℤ → ℤ
at_most high n = if ltb_ℤ high n then high else n

unfoldable pub page_limit : Option String → ℤ
unfolding number_from_query
page_limit limit = at_most (pos 100) (at_least (pos 1) (number_from_query limit (pos 20)))

unfoldable pub page_offset : Option String → ℤ
unfolding number_from_query
page_offset offset = at_least (pos 0) (number_from_query offset (pos 0))

-- The columns that the query reads, with the times as numbers.
pub record RecentRow : Type 0 where
  pub recent_id : String
  pub finished_at : Option ℕ
  pub created_at : ℕ
  pub status : String

-- `COALESCE(finished_at, created_at)`
abbrev pub recent_time : RecentRow → ℕ
recent_time r = or_else r.finished_at r.created_at

-- OFFSET and LIMIT, on the rows of the user in the order in which the database takes them.
unfoldable pub recent : Option String → Option String → List RecentRow → List RecentRow
unfolding page_limit page_offset
recent limit offset ordered =
    take (pos_part (page_limit limit)) (drop (pos_part (page_offset offset)) ordered)

-- The pages of a client that asks for one after the other, with one limit. Each query has an order of
-- its own.
unfoldable pub pages : ℕ → Option String → ℕ → (ℕ → List RecentRow) → List RecentRow
pages zero limit first orders = []
pages (suc n) limit first orders =
    recent limit (some (print (pos first))) (orders first)
    ++ pages n limit (first + pos_part (page_limit limit)) orders

abbrev Among : RecentRow → List RecentRow → Type 0
Among r [] = ⊥
Among r (q ∷ rows) = (r ≡ q) ⊎ Among r rows

abbrev Before : ℕ → List RecentRow → Type 0
Before t [] = Unit
Before t (r ∷ rows) = (recent_time r < t) × Before t rows

abbrev pub Descending : List RecentRow → Type 0
Descending [] = Unit
Descending (r ∷ rows) = Before (recent_time r) rows × Descending rows

-- An order that ORDER BY allows, of rows of which no two have the same time.
abbrev pub IsOrder : List RecentRow → List RecentRow → Type 0
IsOrder table ordered =
    ((r : RecentRow) → Among r ordered → Among r table)
    × ((r : RecentRow) → Among r table → Among r ordered)
    × Descending ordered

page_limit-bounds :
    (limit : Option String) → (pos 1 ≤ℤ page_limit limit) × (page_limit limit ≤ℤ pos 100)
unfolding page_limit
page_limit-bounds limit = ground arith

page_offset-print : (n : ℕ) → page_offset (some (print (pos n))) ≡ pos n
unfolding page_offset
page_offset-print n = rw (number-print (pos n)) (ground arith)

Before-Among :
    (t : ℕ) (rows : List RecentRow) (r : RecentRow)
    → Before t rows
    → Among r rows
    → recent_time r < t
Before-Among t [] r b m = elim m [ ]
Before-Among t (q ∷ rows) r b (inl e) = rw e (b.0)
Before-Among t (q ∷ rows) r b (inr m) = Before-Among t rows r b.1 m

-- The first rows are the same where either list has the first row of the other.
first-same :
    (x y : RecentRow) (l m : List RecentRow)
    → Before (recent_time x) l
    → Before (recent_time y) m
    → Among x (y ∷ m)
    → Among y (x ∷ l)
    → x ≡ y
first-same x y l m bl bm (inl e) h = e
first-same x y l m bl bm (inr k) (inl e) = sym e
first-same x y l m bl bm (inr k) (inr h) =
    let up = Before-Among (recent_time y) m x bm k in
    let down = Before-Among (recent_time x) l y bl h in absurd (omega arith)

-- A later row is not the first one.
later-Among :
    (x y r : RecentRow) (l m : List RecentRow)
    → x ≡ y
    → Before (recent_time x) l
    → Among r l
    → Among r (y ∷ m)
    → Among r m
later-Among x y r l m e b h (inl same) =
    let less : recent_time r < recent_time x = Before-Among (recent_time x) l r b h in
    let equal : recent_time r ≡ recent_time x = ap recent_time (same ∙ sym e) in
    absurd (omega arith)
later-Among x y r l m e b h (inr k) = k

order_unique :
    (l m : List RecentRow)
    → Descending l
    → Descending m
    → ((r : RecentRow) → Among r l → Among r m)
    → ((r : RecentRow) → Among r m → Among r l)
    → l ≡ m
order_unique [] [] dl dm f g = refl
order_unique [] (y ∷ m) dl dm f g = elim (g y (inl refl)) [ ]
order_unique (x ∷ l) [] dl dm f g = elim (f x (inl refl)) [ ]
order_unique (x ∷ l) (y ∷ m) dl dm f g =
    let e = first-same x y l m dl.0 dm.0 (f x (inl refl)) (g y (inl refl)) in
    let rest =
      order_unique l m dl.1 dm.1 (λ r h. later-Among x y r l m e dl.0 h (f r (inr h)))
        (λ r h. later-Among y x r m l (sym e) dm.0 h (g r (inr h))) in
    ap (λ z. z ∷ l) e ∙ ap (λ z. y ∷ z) rest

module _ {ℓ} {A : Type ℓ} where
  drop-drop : (n m : ℕ) (l : List A) → drop n (drop m l) ≡ drop (m + n) l
  drop-drop n zero l = let e : 0 + n ≡ n = omega arith in rw e
  drop-drop n (suc m) [] = rw (drop-nil n, drop-nil (suc m + n))
  drop-drop n (suc m) (x ∷ l) =
      let e : suc m + n ≡ suc (m + n) = omega arith in rw e (drop-drop n m l)

  take-more : (n m : ℕ) (l : List A) → take n l ++ take m (drop n l) ≡ take (n + m) l
  take-more zero m l = let e : 0 + m ≡ m = omega arith in rw e
  take-more (suc n) m [] = rw (take-nil m, take-nil (suc n + m))
  take-more (suc n) m (x ∷ l) =
      let e : suc n + m ≡ suc (n + m) = omega arith in rw e (ap (λ r. x ∷ r) (take-more n m l))

module _ (limit : Option String) where
  pages-take :
      (n first : ℕ) (ordered : List RecentRow) (orders : ℕ → List RecentRow)
      → ((k : ℕ) → orders k ≡ ordered)
      → pages n limit first orders ≡ take (n * pos_part (page_limit limit)) (drop first ordered)
  unfolding pages recent
  pages-take zero first ordered orders same =
      let e : 0 * pos_part (page_limit limit) ≡ 0 = omega arith in rw e
  pages-take (suc n) first ordered orders same =
      let most = pos_part (page_limit limit) in
      let e : suc n * most ≡ most + n * most = grind arith in
      rw
        (
          page_offset-print first,
          e,
          same first,
          pages-take n (first + most) ordered orders same,
          sym (drop-drop most first ordered),
        )
        (take-more most (n * most) (drop first ordered))

  -- A page has at least room for one row and for at most 100. While the table does not change, and no
  -- two rows of the user have the same time, the pages that a client gets one after the other, whatever
  -- the limit that it asks for, are together the first rows of the user from the latest on: none is
  -- left out and none comes twice.
  pub pages_cover :
      (n : ℕ) (table : List RecentRow) (orders : ℕ → List RecentRow)
      → ((k : ℕ) → IsOrder table (orders k))
      → (pos 1 ≤ℤ page_limit limit)
        × (page_limit limit ≤ℤ pos 100)
        × (pages n limit 0 orders ≡ take (n * pos_part (page_limit limit)) (orders 0))
        × Descending (orders 0)
  pages_cover n table orders h =
      let (low, high) = page_limit-bounds limit in
      let same : (k : ℕ) → orders k ≡ orders 0 = λ k.
        order_unique (orders k) (orders 0) (h k).2 (h 0).2 (λ r m. (h 0).1 r ((h k).0 r m))
          (λ r m. (h k).1 r ((h 0).0 r m)) in
      (low, high, pages-take n 0 (orders 0) orders same, (h 0).2)
