-- ===== src/Api/Retention/DryRun.antt =====
-- What a dry run of the cleanup reports.
use computer_use_orchestrato.Prelude.{
  ℕ, ◌≡◌, refl, true, false, not, arith, select, count_if, length-select,
}
use computer_use_orchestrato.Api.Db.{Db}
use computer_use_orchestrato.Api.Retention.{
  Periods, purgeable, old_message, old_event, expired_artifact, soft_delete_expired_artifacts,
  cleanup_now, count_report, cleanup_retention,
}

count-soft_delete :
    (now : ℕ) (db : Db)
    → (soft_delete_expired_artifacts now false db).1 ≡ count_if (expired_artifact now) db.artifacts
unfolding soft_delete_expired_artifacts
count-soft_delete now db = ground arith

sessions-soft_delete :
    (now : ℕ) (db : Db) → (soft_delete_expired_artifacts now false db).0.sessions ≡ db.sessions
unfolding soft_delete_expired_artifacts
sessions-soft_delete now db = ground arith

-- A dry run changes nothing, and reports the counts that the real run reports.
pub cleanup_retention_dry :
    (p : Periods) (now : ℕ) (db : Db)
    → ((cleanup_retention p true now db).0 ≡ db)
      × ((cleanup_retention p true now db).1
          ≡ record ((cleanup_retention p false now db).1) { dry_run = true })
unfolding cleanup_retention count_report cleanup_now
cleanup_retention_dry p now db =
    let db₁ = record db { messages = select (λ m. not (old_message p now m)) db.messages } in
    let db₂ = record db₁ { events = select (λ e. not (old_event p now e)) db₁.events } in
    (
      refl,
      rw
          (
            count-soft_delete now db₂,
            sessions-soft_delete now db₂,
            length-select (purgeable p now) db.sessions,
          )
          refl,
    )
