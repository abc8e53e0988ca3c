-- ===== src/Service/Summary/Tests.antt =====
-- A summary of the sample world.
use ledger_x.Service.Summary.Coherent.{get_monthly_summary-Answers, Answers}
use ledger_x.Service.Summary.{summary_of, get_monthly_summary}
use ledger_x.Service.Samples.{sample_env, posted_world}
use ledger_x.Repo.World.{World}
use ledger_x.Prelude.{◌*◌, ℕ, ◌∷◌, refl, []}
use ledger_x.Service.Types.{utc, GoTime}

-- Month 0, and each month's first instant.
abbrev month_zero : GoTime
month_zero = utc (record { instant = 0; wall = 0 })

abbrev month_start : ℕ → ℕ
month_start k = k * 1000000

-- The summary is cached.
abbrev cached_world : World
cached_world = record posted_world {
  cache =
      record { account_id = 1; month = 0; summary = summary_of sample_env posted_world.db 1 0 }
      ∷ [];
}

get_monthly_summary-Answers_example :
    Answers sample_env month_start 1 month_zero posted_world.db
      (get_monthly_summary sample_env 1 month_zero cached_world)
get_monthly_summary-Answers_example =
    get_monthly_summary-Answers sample_env month_start 1 month_zero refl cached_world (refl, tt)
