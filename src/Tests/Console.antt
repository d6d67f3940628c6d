-- ===== src/Tests/Console.antt =====
-- config_check.py and seed.py. A URL of the tests is a scheme, a colon and what follows.
use pyfr_m8_verify.Base.{
  Text, Option, partition, ℕ, String, List, some, All, ◌∷◌, has, map, none, find, ◌≡◌, refl, [],
  false, codes, if◌then◌else◌, ◌++◌, subst, ltb, true, ◌+◌, inr, ap, partition-append, ◌∙◌, sym,
  assign, text_eq,
}
use pyfr_m8_verify.ConfigCheck.{UrlLibrary, user_of, Url, mask_url_credentials}
use pyfr_m8_verify.ConfigCheck.Hiding.{ReadsBack, mask_url_credentials-hides, user_of-has, masked}
use pyfr_m8_verify.Seed.{
  SeedEnvironment, seed, Reply, SeededOrder, seed_orders, seed_one, seed_known, create,
  record_order, finish, ensure_receipt,
}
use pyfr_m8_verify.Seed.Idempotent.{SeedLaws}
use pyfr_m8_verify.Seed.Rerun.{IsServed, seed-second_run, seed-recorded}
use pyfr_m8_verify.Errors.{ok}

abbrev url : Text → Text → Url
url scheme netloc = record {
  scheme = scheme;
  netloc = netloc;
  path = [];
  query = [];
  fragment = [];
}

abbrev parsed : Option (Text × Text) → Option Url
parsed none = none
parsed (some (scheme, netloc)) = some (url scheme netloc)

abbrev urls : UrlLibrary
urls = record {
  urlsplit = λ value. parsed (partition (b':' ∷ []) value);
  urlunsplit = λ parts. parts.scheme ++ (b':' ∷ parts.netloc);
}

mask_url_credentials-hides_example :
    mask_url_credentials urls (codes "redis:app:p@ss@cache") ≡ codes "redis:app:**********@cache"
unfolding partition has
mask_url_credentials-hides_example =
    mask_url_credentials-hides urls (codes "redis:app:p@ss@cache") (url (codes "redis") [])
      (codes "app") (codes "p@ss") (codes "cache") refl refl refl

url-of_parsed :
    (value : Text) (o : Option (Text × Text)) (parts : Url)
    → has b':' (user_of o value) ≡ false
    → parsed o ≡ some parts
    → (has b':' parts.scheme ≡ false) × (url parts.scheme parts.netloc ≡ parts)
unfolding user_of
url-of_parsed value none parts h e = cc
url-of_parsed value (some (a, b)) parts h e =
    subst (λ p. (has b':' p.scheme ≡ false) × (url p.scheme p.netloc ≡ p)) (some-injective e)
      (h, refl)
  where
    some-injective : {x y : Url} → some x ≡ some y → x ≡ y
    some-injective k = cc

urls-reads_back : ReadsBack urls
urls-reads_back value parts credentials host s r =
    let (h, e) = url-of_parsed value (partition (b':' ∷ []) value) parts (user_of-has value) s in
    let netloc = (masked urls parts credentials host).netloc in
    inr (
      ap parsed (partition-append b':' [] parts.scheme netloc h)
      ∙ ap {A = Url} (λ p. some (record p { netloc = netloc })) e)

-- The world of the seed: how many orders were asked for, and the state file. The service knows every
-- order once there is one.
abbrev World : Type 0
World = ℕ × Option (List (Text × Text))

abbrev reply : ℕ → Reply
reply status = record { status_code = status; id = ok (codes "o"); total = ok (codes "9.90 EUR") }

abbrev service : SeedEnvironment World
service = record {
  get = λ path (n, f). (ok (reply (if ltb 0 n then 200 else 404)), (n, f));
  post = λ path body (n, f). (ok (reply 201), (n + 1, f));
  read_state = λ (n, f). (ok f, (n, f));
  write_state = λ d (n, f). (ok tt, (n, some d));
}

ok-injective : {x y : Option (List (Text × Text))} → ok x ≡ ok y → y ≡ x
ok-injective e = cc

abbrev service_laws : SeedLaws service
service_laws = record {
  posts = λ s. s.0;
  file = λ s. s.1;
  get_keeps = λ p s. (refl, refl);
  post_keeps = λ p b s. refl;
  read_state = λ s o e. ok-injective e;
  read_keeps = λ s. (refl, refl);
  write_state = λ d s e. refl;
}

abbrev made : String → SeededOrder
made key = record {
  key = codes key;
  order_id = codes "o";
  total = codes "9.90 EUR";
  created = true;
}

abbrev seeded_orders : List SeededOrder
seeded_orders =
    made "espresso-beans"
    ∷ made "filter-papers"
    ∷ made "grinder"
    ∷ made "mixed-basket"
    ∷ made "bulk-order"
    ∷ []

abbrev seeded_world : World
seeded_world = (5, some (map (λ o. (o.key, o.order_id)) seeded_orders))

first_run : seed service (0, none) ≡ (ok seeded_orders, seeded_world)
unfolding seed seed_one seed_known find create record_order finish ensure_receipt assign text_eq
first_run = refl

seed-recorded_example :
    All
      (λ order.
        (id : Text) × (find order.0 (map (λ o. (o.key, o.order_id)) seeded_orders) ≡ some id))
      seed_orders
seed-recorded_example =
    seed-recorded service service_laws (0, none) seeded_world seeded_orders first_run

status_of :
    (n : ℕ) (r : Reply)
    → n ≡ 5
    → ok (reply (if ltb 0 n then 200 else 404)) ≡ ok r
    → r.status_code ≡ 200
status_of n r k e =
    ap (λ q. q.status_code) (sym (ok-reply e)) ∙ ap (λ m. if ltb 0 m then 200 else 404) k
  where
    ok-reply : {x y : Reply} → ok x ≡ ok y → x ≡ y
    ok-reply h = cc

service-IsServed : IsServed service service_laws seeded_world
service-IsServed key id h s r k e = status_of s.0 r k.0 e

seed-second_run_example :
    ((seed service seeded_world).1.0 ≡ 5) × ((seed service seeded_world).1.1 ≡ seeded_world.1)
seed-second_run_example =
    seed-second_run service service_laws (0, none) seeded_world seeded_orders first_run
      service-IsServed
