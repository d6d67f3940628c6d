-- ===== src/Infrastructure/Clients/Dsn.antt =====
-- What a validated DSN is turned into.
use pyfr_m8_verify.Base.{
  Text, ◌≡◌, if◌then◌else◌, ◌++◌, has, List, false, partition, some, arith, ap, true, ◌∙◌,
  partition-append, codes,
}
use pyfr_m8_verify.Settings.{
  new_database, DatabaseSettings, is_none, first_named, libpq_only_parameters,
}
use pyfr_m8_verify.Infrastructure.Clients.{async_dsn, separator, asyncpg, with_driver}
use pyfr_m8_verify.Errors.{ok}

-- What pydantic promises of a PostgresDsn: a scheme, in which there is no colon, then `://`.
pub record IsUrl (dsn : Text) : Type 0 where
  pub scheme : Text
  pub rest : Text
  pub splits : dsn ≡ scheme ++ (separator ++ rest)
  pub no_colon : has b':' scheme ≡ false

-- A DSN with its driver: as it was if its scheme names one, and everything behind `://` in any case.
abbrev pub driven : {dsn : Text} → IsUrl dsn → Text
driven {dsn} u = if has b'+' u.scheme then dsn else asyncpg ++ u.rest

pub accepted_dsn :
    (query_names : Text → List Text) (settings t : DatabaseSettings)
    → new_database query_names settings ≡ ok t
    → is_none (first_named libpq_only_parameters (query_names settings.dsn)) ≡ true
unfolding new_database
accepted_dsn query_names settings t h = ground arith

pub IsUrl-partition :
    (dsn : Text) (u : IsUrl dsn) → partition separator dsn ≡ some (u.scheme, u.rest)
IsUrl-partition dsn u =
    ap (partition separator) u.splits
    ∙ partition-append b':' (codes "//") u.scheme u.rest u.no_colon

-- For settings that DatabaseSettings accepts, `async_dsn` never raises: the check that is written
-- twice agrees. The answer is the DSN itself if its scheme names a driver, and otherwise the same user,
-- host, database and query under the asyncpg driver.
pub async_dsn-driven :
    (query_names : Text → List Text) (settings t : DatabaseSettings) (u : IsUrl settings.dsn)
    → new_database query_names settings ≡ ok t
    → async_dsn query_names settings.dsn ≡ ok (driven u)
unfolding async_dsn
async_dsn-driven query_names settings t u h =
    rw (accepted_dsn query_names settings t h)
      (rw (IsUrl-partition settings.dsn u, with_driver) (ground arith))
