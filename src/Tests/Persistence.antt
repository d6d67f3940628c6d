-- ===== src/Tests/Persistence.antt =====
-- infrastructure/cache/ over infrastructure/db/, with an empty cache.
use pyfr_m8_verify.Infrastructure.Database
use pyfr_m8_verify.Infrastructure.Cache.{
  get, save, read, parse, swallow, accept, miss, fill, invalidate, key,
}
use pyfr_m8_verify.Base.{Text, Option, some, none, ◌≡◌, refl, inl}
use pyfr_m8_verify.Domain.Order.{
  sku_ok, quantity_ok, currency_ok, new_money, amount_ok, new_order_line, new_order,
  total_must_match_lines, total_of, subtotal, mul, add, money_eq,
}
use pyfr_m8_verify.Base.{text_eq}
use pyfr_m8_verify.Infrastructure.Database.{
  Session, postgres_order_repository, load, corrupt_or, replace, as_violation, order_values,
  line_values, number_lines, to_domain, line_to_domain, lines_to_domain,
}
use pyfr_m8_verify.Tests.Cache.{redis_laws, json, redis, json_laws, validate}
use pyfr_m8_verify.Tests.Database.{
  Tables, tables, tables_laws, empty, breakfast-IsValidOrder, ended, added, of_order,
}
use pyfr_m8_verify.Infrastructure.Database.Adapter.{postgres_laws, read_as}
use pyfr_m8_verify.Infrastructure.Cache.Coherence.{IsCoherent}
use pyfr_m8_verify.Domain.Ports.{Bytes}
use pyfr_m8_verify.Errors.{ok}
use pyfr_m8_verify.Infrastructure.Database.RoundTrip.{two_places}
use pyfr_m8_verify.Tests.Orders.{breakfast}
use pyfr_m8_verify.Infrastructure.Cache.OverPostgres.{get-save}

abbrev cold : Text → Option Bytes
cold k = none

abbrev session : Session Tables
session = tables (ok tt)

cold-Coherent :
    IsCoherent json
      (postgres_order_repository session)
      redis
      60
      json_laws
      (postgres_laws session (tables_laws (ok tt)))
      redis_laws
      (empty, cold)
unfolding redis_laws
cold-Coherent = record { entries = λ n raw o h v. cc }

abbrev saved : Tables × (Text → Option Bytes)
saved = (save json (postgres_order_repository session) redis 60 breakfast (empty, cold)).1

saves : (save json (postgres_order_repository session) redis 60 breakfast (empty, cold)).0 ≡ ok tt
unfolding save pyfr_m8_verify.Infrastructure.Database.save tables redis
saves = refl

reads :
    (get json (postgres_order_repository session) redis 60 7 saved).0
    ≡ ok (some (two_places breakfast))
unfolding get pyfr_m8_verify.Infrastructure.Database.get save
    pyfr_m8_verify.Infrastructure.Database.save read parse swallow accept miss fill invalidate key
    json redis validate load corrupt_or replace tables ended added of_order as_violation
    order_values line_values number_lines to_domain line_to_domain lines_to_domain new_money
    amount_ok currency_ok new_order_line sku_ok quantity_ok new_order total_must_match_lines
    total_of subtotal mul add text_eq money_eq
reads = refl

get-save_example : some (two_places breakfast) ≡ some (two_places breakfast)
unfolding postgres_laws read_as tables_laws
get-save_example =
    get-save json session redis 60 json_laws (tables_laws (ok tt)) redis_laws breakfast empty cold
      (some (two_places breakfast)) breakfast-IsValidOrder cold-Coherent (inl refl) saves reads
