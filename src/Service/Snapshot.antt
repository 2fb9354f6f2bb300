-- ===== src/Service/Snapshot.antt =====
-- The methods of `ServiceStateSnapshot` in apps/resticpal-service/src/state.rs.
pub mod Verified
use resticpal.Prelude.{
  Bool, true, false, not, ◌&&◌, ◌||◌, Option, none, some, is_some, if◌then◌else◌,
}
use resticpal.Time.{DateTime}
use resticpal.Config.{EffectiveConfig}
use resticpal.Service.{RepositoryIdentity, RepositoryIdentity-discrete, ServiceStateSnapshot}

abbrev pub identity_of : EffectiveConfig → RepositoryIdentity
identity_of config = record {
  url = config.repository.url;
  options = config.repository.options;
  secret_refs = config.repository.secret_refs;
}

-- `is_none_or(|verified| verified != identity)`.
abbrev pub differs : Option RepositoryIdentity → RepositoryIdentity → Bool
differs none identity = true
differs (some verified) identity = elim (RepositoryIdentity-discrete verified identity) [
  | yes _ ↦ false
  | no _ ↦ true
]

unfoldable pub repository_requires_validation : ServiceStateSnapshot → EffectiveConfig → Bool
repository_requires_validation snapshot config =
    is_some config.repository.url
    && (snapshot.repository_validation_required
        || differs snapshot.verified_repository (identity_of config))

unfoldable pub require_repository_validation : ServiceStateSnapshot → ServiceStateSnapshot
require_repository_validation snapshot = record snapshot {
  repository_validation_required = true;
  verified_repository = none;
  repository_verified_at = none;
}

unfoldable pub mark_repository_verified :
    ServiceStateSnapshot → EffectiveConfig → DateTime → ServiceStateSnapshot
mark_repository_verified snapshot config completed_at = record snapshot {
  repository_validation_required = false;
  verified_repository = some (identity_of config);
  repository_verified_at = some completed_at;
}

unfoldable pub repository_verified_at : ServiceStateSnapshot → EffectiveConfig → Option DateTime
repository_verified_at snapshot config =
    if not (repository_requires_validation snapshot config)
    then snapshot.repository_verified_at
    else none
