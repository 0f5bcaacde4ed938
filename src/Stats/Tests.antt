-- ===== src/Stats/Tests.antt =====
-- The dashboard of backend/app/services/stats_service.py on concrete requests.
use registrator_ofid.Models.User.{faculty_id, has_role}
use registrator_ofid.Base.{◌+◌, ◌*◌, ◌≡◌, refl, ◌∷◌, []}
use registrator_ofid.Models.Status.{is_in, same}
use registrator_ofid.Models.Db.{Db}
use registrator_ofid.Samples.{
  down, down-StaysBelow, friday_noon, registrar, open_request, returned_request, sample_db,
}
use registrator_ofid.Calendar.{day_us}
use registrator_ofid.Stats.{Stats, dashboard_stats}
use registrator_ofid.Stats.Counted.{HasCounts, dashboard_stats-HasCounts}

abbrev queue : Db
queue = record sample_db { requests = open_request ∷ record returned_request { id = 10 } ∷ [] }

abbrev stats : Stats
stats = dashboard_stats down queue (friday_noon + 4 * day_us) registrar

shown : (stats.total ≡ 2) × (stats.still_open ≡ 2) × (stats.overdue ≡ 1) × (stats.due_soon ≡ 0)
unfolding dashboard_stats has_role faculty_id same is_in
shown = (refl, refl, refl, refl)

stats_example : HasCounts down queue (friday_noon + 4 * day_us) registrar stats
stats_example =
    dashboard_stats-HasCounts down queue (friday_noon + 4 * day_us) registrar down-StaysBelow
