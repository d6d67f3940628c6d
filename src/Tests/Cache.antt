-- ===== src/Tests/Cache.antt =====
-- infrastructure/cache/order_repository.py over a dict, with a Redis that is another.
use pyfr_m8_verify.Tests.Orders.{breakfast}
use pyfr_m8_verify.Infrastructure.Cache.{
  Redis, OrderJson, key, read, get, save, parse, miss, swallow, accept,
}
use pyfr_m8_verify.Domain.Ports.{Bytes, OrderRepository}
use pyfr_m8_verify.Infrastructure.Cache.Laws.{OrderJsonLaws, RedisLaws}
use pyfr_m8_verify.Infrastructure.Cache.Coherence.{IsCoherent, get-answers, save-IsCoherent}
use pyfr_m8_verify.Base.{
  Text, List, lookup, some, Option, [], Bool-cases, ℕ, text_eq, ◌≡◌, ◌∷◌, inl, if◌then◌else◌, refl,
  none, arith, text_eq→eq, codes, inr, ◌++◌, text_eq_refl,
}
use pyfr_m8_verify.Errors.{Result, Exception, ok, raised, validation_error, other}
use pyfr_m8_verify.Domain.Order.{Order}
use pyfr_m8_verify.Infrastructure.Memory.{in_memory_laws, in_memory_order_repository}
use pyfr_m8_verify.Services.PlaceOrder.{get_order}

-- Redis, and a payload that reads as one order and that no order is written as.
unfoldable pub redis : Redis (Text → Option Bytes)
redis = record {
  get = λ k r. (ok (r k), r);
  set = λ k v t r. (ok tt, λ j. if text_eq j k then some v else r j);
  delete = λ k r. (ok tt, λ j. if text_eq j k then none else r j);
}

unfoldable pub validate : Bytes → Result Order
validate [] = raised validation_error
validate (n ∷ ns) = ok breakfast

unfoldable pub json : OrderJson
unfolding validate
json = record { dump = λ o. []; validate = validate; uuid_text = λ n. n ∷ [] }

validate-refuses : (raw : Bytes) (e : Exception) → validate raw ≡ raised e → e ≡ validation_error
unfolding validate
validate-refuses [] e h = ground arith
validate-refuses (n ∷ ns) e h = cc

pub json_laws : OrderJsonLaws json
unfolding json validate
json_laws = record { faithful = λ o p h. cc; refuses = validate-refuses; distinct = λ n m h. cc }

pub redis-reads :
    (k : Text) (r : Text → Option Bytes) (b : Bytes)
    → (redis.get k r).0 ≡ ok (some b)
    → r k ≡ some b
unfolding redis
redis-reads k r b h = ground arith

unfoldable pub redis_laws : RedisLaws redis
unfolding redis
redis_laws = record {
  view = λ r k. r k;
  get_reads = redis-reads;
  get_keeps = λ k r j b h. h;
  set_puts = λ k v t r j b h. elim (Bool-cases (text_eq j k)) [
    | inl e ↦ inl (text_eq→eq j k e, cc (rw e at h))
    | inr e ↦ inr (rw e at h)
  ];
  delete_keeps =
      λ k r j b h. elim (Bool-cases (text_eq j k)) [ inl e ↦ cc (rw e at h) | inr e ↦ rw e at h ];
  delete_drops = λ k r h. rw (text_eq_refl k) refl;
}

abbrev orders : List (ℕ × Order)
orders = (7, breakfast) ∷ []

-- A cache that holds the order.
abbrev warm : Text → Option Bytes
warm k = if text_eq k (codes "order:v1:" ++ (7 ∷ [])) then some (1 ∷ []) else none

warm_world :
    (n : ℕ) (raw : Bytes) (o : Order)
    → warm (codes "order:v1:" ++ (n ∷ [])) ≡ some raw
    → validate raw ≡ ok o
    → lookup n orders ≡ some o
unfolding lookup text_eq validate
warm_world n raw o h v = ground arith

abbrev Coherent : List (ℕ × Order) × (Text → Option Bytes) → Type 0
Coherent w =
    IsCoherent json in_memory_order_repository redis 60 json_laws in_memory_laws redis_laws w

warm-Coherent : Coherent (orders, warm)
unfolding json redis_laws in_memory_laws key
warm-Coherent = record { entries = λ n raw o h v. warm_world n raw o h v }

in_memory-get :
    (get json in_memory_order_repository redis 60 7 (orders, warm)).0 ≡ ok (some breakfast)
unfolding get read parse swallow accept miss key json redis validate get_order text_eq
in_memory-get = refl

get-answers_example : some breakfast ≡ in_memory_laws.stored orders 7
get-answers_example =
    get-answers json in_memory_order_repository redis 60 json_laws in_memory_laws redis_laws 7
      orders warm (some breakfast) warm-Coherent in_memory-get

save-IsCoherent_example :
    Coherent (save json in_memory_order_repository redis 60 breakfast (orders, warm)).1
unfolding redis
save-IsCoherent_example =
    save-IsCoherent json in_memory_order_repository redis 60 json_laws in_memory_laws redis_laws
      breakfast orders warm warm-Coherent (inr refl)

-- A repository that is down.
abbrev down : OrderRepository (List (ℕ × Order))
down = record { get = λ n d. (raised other, d); save = λ o d. (raised other, d) }

down-get : (get json down redis 60 8 (orders, warm)).0 ≡ raised other
unfolding get read parse swallow accept miss key json redis validate text_eq
down-get = refl
