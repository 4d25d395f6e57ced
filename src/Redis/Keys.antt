-- ===== src/Redis/Keys.antt =====
-- redis/keys.ts: the keys of the program, one constructor for each template.
use z1mak_cv_queue.Prelude.{Bool, String, eq_refl, false, refl, str_eq, true, ◌&&◌, ◌≡◌}

-- 'hard' | 'lite'
pub data ModeType : Type 0 where
  hard lite : ModeType

abbrev pub mode_eq : ModeType → ModeType → Bool
mode_eq hard hard = true
mode_eq lite lite = true
mode_eq _ _ = false

pub mode_eq_refl : (m : ModeType) → mode_eq m m ≡ true
mode_eq_refl hard = refl
mode_eq_refl lite = refl

pub data Key : Type 0 where
  model_limits : String → Key
  model_ids : Key
  model_rpm : String → Key
  model_rpd : String → Key
  user_type_rpd : String → ModeType → String → Key
  user_active_jobs : String → Key
  job_meta : String → Key
  job_result : String → Key
  job_stream : String → Key
  user_limits : String → Key
  queue_waiting_model : String → Key
  worker_concurrency : ModeType → Key
  cron_lock : String → Key

abbrev pub key_eq : Key → Key → Bool
key_eq (model_limits a) (model_limits b) = str_eq a b
key_eq model_ids model_ids = true
key_eq (model_rpm a) (model_rpm b) = str_eq a b
key_eq (model_rpd a) (model_rpd b) = str_eq a b
key_eq (user_type_rpd a m c) (user_type_rpd b n d) = str_eq a b && (mode_eq m n && str_eq c d)
key_eq (user_active_jobs a) (user_active_jobs b) = str_eq a b
key_eq (job_meta a) (job_meta b) = str_eq a b
key_eq (job_result a) (job_result b) = str_eq a b
key_eq (job_stream a) (job_stream b) = str_eq a b
key_eq (user_limits a) (user_limits b) = str_eq a b
key_eq (queue_waiting_model a) (queue_waiting_model b) = str_eq a b
key_eq (worker_concurrency a) (worker_concurrency b) = mode_eq a b
key_eq (cron_lock a) (cron_lock b) = str_eq a b
key_eq _ _ = false

pub key_eq_refl : (k : Key) → key_eq k k ≡ true
key_eq_refl (user_type_rpd a m c) = rw (eq_refl a, mode_eq_refl m, eq_refl c)
key_eq_refl model_ids = refl
key_eq_refl (worker_concurrency m) = mode_eq_refl m
key_eq_refl (model_limits a) = eq_refl a
key_eq_refl (model_rpm a) = eq_refl a
key_eq_refl (model_rpd a) = eq_refl a
key_eq_refl (user_active_jobs a) = eq_refl a
key_eq_refl (job_meta a) = eq_refl a
key_eq_refl (job_result a) = eq_refl a
key_eq_refl (job_stream a) = eq_refl a
key_eq_refl (user_limits a) = eq_refl a
key_eq_refl (queue_waiting_model a) = eq_refl a
key_eq_refl (cron_lock a) = eq_refl a
