-- ===== src/Jobs/Rows.antt =====
-- Selecting rows after an update.
use mathlib.Core.Option
use printops.Prelude.{ℕ, ◌≡◌, List, [], ◌∷◌, arith, ◌==◌, if◌then◌else◌}
use printops.Jobs.{Job, get_job, update_job}

-- An update that keeps the identifier changes its row alone.
pub get_job-update_job :
    (jobs : List Job) (k i : ℕ) (f : Job → Job)
    → ((j : Job) → (f j).id ≡ j.id)
    → get_job (update_job jobs k f) i
      ≡ (if k == i then Option.map f (get_job jobs i) else get_job jobs i)
unfolding update_job
get_job-update_job [] k i f keeps = ground arith
get_job-update_job (j ∷ jobs) k i f keeps =
    ground (arith, keeps j, get_job-update_job jobs k i f keeps)
