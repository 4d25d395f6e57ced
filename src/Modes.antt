-- ===== src/Modes.antt =====
-- types/mode.ts, utils/mode.ts and utils/getUserRpdLimitErrorCode.ts.
use z1mak_cv_queue.Prelude.{Bool, false, if◌then◌else◌, true, ◌&&◌}
use z1mak_cv_queue.Redis.{ModeType, hard, lite}

pub data EvaluationMode : Type 0 where
  general by_job : EvaluationMode

pub data Domain : Type 0 where
  it common : Domain

pub data Depth : Type 0 where
  standard deep : Depth

pub record Mode : Type 0 where
  pub evaluation_mode : EvaluationMode
  pub domain : Domain
  pub depth : Depth

abbrev tag_by_job : EvaluationMode → Bool
tag_by_job by_job = true
tag_by_job general = false

abbrev tag_deep : Depth → Bool
tag_deep deep = true
tag_deep standard = false

abbrev tag_common : Domain → Bool
tag_common common = true
tag_common it = false

unfoldable pub is_by_job : Mode → Bool
is_by_job mode = tag_by_job mode.evaluation_mode

unfoldable pub is_deep : Mode → Bool
is_deep mode = tag_deep mode.depth

unfoldable pub is_common_domain : Mode → Bool
is_common_domain mode = tag_common mode.domain

unfoldable pub is_hard_mode : Mode → Bool
unfolding is_by_job is_deep
is_hard_mode mode = is_by_job mode && is_deep mode

unfoldable pub get_mode_type : Mode → ModeType
unfolding is_hard_mode
get_mode_type mode = if is_hard_mode mode then hard else lite

-- 'user' | 'admin'
pub data Role : Type 0 where
  user admin : Role
