-- ===== src/Api/Middleware/Template.antt =====
-- The logged route is the template under its mount prefix, and the identifier is on every response.
use pyfr_m8_verify.Base.{
  Text, length, ◌++◌, some, ◌-◌, ◌≡◌, arith, ◌∷◌, text_eq_refl, length-append, take-append, [],
  le→leb, refl, List, ℕ, All, map, drop-append, codes, none,
}
use pyfr_m8_verify.Api.Middleware.{
  route_template, Message, stamp, correlate, last_status, access_log, start, Scope, body, Sent,
  correlation_of, fill,
}

length-app-sub : (p c : Text) → length (p ++ c) - length c ≡ length p
length-app-sub p c = omega (arith, length-append p c)

-- The scope in which a route's template matched a path.
abbrev pub matched : Text → Text → List (Text × Text) → Scope
matched inner path params = record {
  route = some inner;
  path = path;
  path_params = params;
  method = codes "GET";
  request_id = none;
}

-- A route mounted under a prefix is logged as that prefix and the route's own template, whatever the
-- matched values are, also when they repeat a part of the path.
pub route_template-prefix :
    (prefix inner : Text) (params : List (Text × Text))
    → route_template (matched inner (prefix ++ fill inner params) params) ≡ prefix ++ inner
unfolding route_template
route_template-prefix prefix inner params =
    let concrete = fill inner params in
    rw length-app-sub (
      rw (
        drop-append prefix concrete,
        text_eq_refl concrete,
        take-append prefix concrete,
        le→leb (length concrete) (length (prefix ++ concrete))
            (omega (arith, length-append prefix concrete)),
      ))

-- The message carries `correlation_id` if it starts a response.
abbrev pub IsStamped : Text → Message → Type 0
IsStamped correlation_id (start status request_id) = request_id ≡ some correlation_id
IsStamped correlation_id (body b) = Unit {0}

stamped : (t : Text) (ms : List Message) → All (IsStamped t) (map (stamp t) ms)
unfolding stamp
stamped t [] = tt
stamped t (start status request_id ∷ ms) = (refl, stamped t ms)
stamped t (body b ∷ ms) = (tt, stamped t ms)

-- Every response that starts carries the request's own identifier where that is not empty, whatever
-- the application put there, and whether or not it raised.
pub correlate-IsStamped :
    (scope : Scope) (fresh : Text) (sent : Sent) (c : ℕ) (cs : Text)
    → scope.request_id ≡ some (c ∷ cs)
    → All (IsStamped (c ∷ cs)) (correlate scope fresh sent).messages
unfolding correlate
correlate-IsStamped scope fresh sent c cs h =
    rw (h, correlation_of) (stamped (c ∷ cs) sent.messages)

keeps-status :
    (t : Text) (n : ℕ) (ms : List Message) → last_status n (map (stamp t) ms) ≡ last_status n ms
unfolding last_status stamp
keeps-status t n [] = refl
keeps-status t n (start status request_id ∷ ms) = keeps-status t status ms
keeps-status t n (body b ∷ ms) = keeps-status t n ms

-- Whichever of the two middlewares is outside, the access record is the same.
pub access_log-correlate :
    (excluded : List Text) (scope : Scope) (fresh : Text) (sent : Sent)
    → access_log excluded scope (correlate scope fresh sent) ≡ access_log excluded scope sent
unfolding access_log correlate
access_log-correlate excluded scope fresh sent = rw keeps-status
