-- ===== src/Redis/Laws.antt =====
-- How each reading command sees what a writing command did.
use z1mak_cv_queue.Prelude.{Bool, arith, eq_refl, if◌then◌else◌, ◌&&◌, ◌≡◌}
use z1mak_cv_queue.Redis.{
  Action, Key, Redis, count, effect, entries, fields, key_eq, members, mode_eq_refl, on_count,
  on_entries, on_fields, on_members, on_scores, on_text, scores, text, when,
}

module _ (R : Redis) (k : Key) (a : Action) (s : R.State) (j : Key) where
  pub count-exec :
      count R (R.exec (k, a) s) j ≡ (if key_eq k j then on_count a (count R s j) else count R s j)
  unfolding count effect
  count-exec = ground (arith, R.cell-exec k a s j)

  pub text-exec :
      text R (R.exec (k, a) s) j ≡ (if key_eq k j then on_text a (text R s j) else text R s j)
  unfolding text effect
  text-exec = ground (arith, R.cell-exec k a s j)

  pub fields-exec :
      fields R (R.exec (k, a) s) j
      ≡ (if key_eq k j then on_fields a (fields R s j) else fields R s j)
  unfolding fields effect
  fields-exec = ground (arith, R.cell-exec k a s j)

  pub scores-exec :
      scores R (R.exec (k, a) s) j
      ≡ (if key_eq k j then on_scores a (scores R s j) else scores R s j)
  unfolding scores effect
  scores-exec = ground (arith, R.cell-exec k a s j)

  pub members-exec :
      members R (R.exec (k, a) s) j
      ≡ (if key_eq k j then on_members a (members R s j) else members R s j)
  unfolding members effect
  members-exec = ground (arith, R.cell-exec k a s j)

  pub entries-exec :
      entries R (R.exec (k, a) s) j
      ≡ (if key_eq k j then on_entries a (entries R s j) else entries R s j)
  unfolding entries effect
  entries-exec = ground (arith, R.cell-exec k a s j)

module _ (R : Redis) (b : Bool) (k : Key) (a : Action) (s : R.State) (j : Key) where
  pub cell-when :
      R.cell (when R b (k, a) s) j ≡ (if b && key_eq k j then effect a (R.cell s j) else R.cell s j)
  unfolding when
  cell-when = ground (arith, R.cell-exec k a s j)

  pub count-when :
      count R (when R b (k, a) s) j
      ≡ (if b && key_eq k j then on_count a (count R s j) else count R s j)
  unfolding when
  count-when = ground (arith, count-exec R k a s j)

  pub scores-when :
      scores R (when R b (k, a) s) j
      ≡ (if b && key_eq k j then on_scores a (scores R s j) else scores R s j)
  unfolding when
  scores-when = ground (arith, scores-exec R k a s j)

  pub fields-when :
      fields R (when R b (k, a) s) j
      ≡ (if b && key_eq k j then on_fields a (fields R s j) else fields R s j)
  unfolding when
  fields-when = ground (arith, fields-exec R k a s j)

  pub entries-when :
      entries R (when R b (k, a) s) j
      ≡ (if b && key_eq k j then on_entries a (entries R s j) else entries R s j)
  unfolding when
  entries-when = ground (arith, entries-exec R k a s j)

pub ruleset redis_laws = (
  count-exec, text-exec, fields-exec, scores-exec, members-exec, entries-exec, count-when,
  scores-when, fields-when, entries-when, eq_refl, mode_eq_refl,
)
