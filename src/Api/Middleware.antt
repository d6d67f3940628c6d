-- ===== src/Api/Middleware.antt =====
-- api/middleware.py: the route template that is logged, the correlation identifier and the access log.
-- uuid4, the `str` of a matched value and the wrapped application are arguments.
pub mod Template
pub mod Filled
use pyfr_m8_verify.Base.{
  Text, Option, ℕ, List, codes, Bool, some, map, if◌then◌else◌, [], leb, take, ◌∷◌, false, none,
  length, text_eq, ◌&&◌, ◌-◌, ◌||◌, drop, ◌++◌, ends_with, ◌==◌, ◌+◌, partition, suc, find,
  sub_from, Matcher, sub,
}
use pyfr_m8_verify.Errors.{Result}

abbrev pub unmatched_route : Text
unmatched_route = codes "<unmatched>"

-- What the middleware reads of an ASGI scope: the matched route's own path, if one matched, and the
-- raw path, and the texts of the matched values.
pub record Scope : Type 0 where
  pub route : Option Text
  pub path : Text
  pub path_params : List (Text × Text)
  pub method : Text
  pub request_id : Option Text

-- The first of the two classes of _PATH_PARAM is for the first character of a name.
abbrev pub starts_name : ℕ → Bool
starts_name c = (leb b'a' c && leb c b'z') || (leb b'A' c && leb c b'Z') || (c == b'_')

abbrev pub is_name : ℕ → Bool
is_name c = starts_name c || (leb b'0' c && leb c b'9')

-- The longest name at the start of a text, and what follows it.
unfoldable pub split_name : Text → Text × Text
split_name [] = ([], [])
split_name (c ∷ s) =
    let (name, rest) = split_name s in if is_name c then (c ∷ name, rest) else ([], c ∷ s)

abbrev pub converted : Text → Option (Text × Text) → Option (Text × ℕ)
converted name none = none
converted name (some ([], rest)) = none
converted name (some (c ∷ converter, rest)) = some (name, length name + (length converter + 3))

-- (?::[^}]+)?\}, behind a name: the name, and how long the match is behind its first character.
abbrev pub param_end : Text → Text → Option (Text × ℕ)
param_end name [] = none
param_end name (c ∷ s) =
    if c == b'}'
    then some (name, length name + 1)
    else if c == b':'
    then converted name (partition (b'}' ∷ []) s)
    else none

abbrev pub named : Text × Text → Option (Text × ℕ)
named ([], rest) = none
named (c ∷ name, rest) = if starts_name c then param_end (c ∷ name) rest else none

-- _PATH_PARAM
unfoldable pub path_param : Text → Option (Text × ℕ)
unfolding split_name partition
path_param [] = none
path_param (c ∷ s) = if c == b'{' then named (split_name s) else none

abbrev pub value_or : Text → ℕ → Option Text → Text × ℕ
value_or whole n none = (take (suc n) whole, n)
value_or whole n (some value) = (value, n)

abbrev pub replaced : List (Text × Text) → Text → Option (Text × ℕ) → Option (Text × ℕ)
replaced params whole none = none
replaced params whole (some (name, n)) = some (value_or whole n (find name params))

unfoldable pub param_value : List (Text × Text) → Matcher
unfolding path_param find
param_value params whole = replaced params whole (path_param whole)

-- _fill
unfoldable pub fill : Text → List (Text × Text) → Text
unfolding param_value sub_from
fill template params = sub (param_value params) template

template_of : Scope → Option Text → Text
template_of scope none = unmatched_route
template_of scope (some inner) =
    let concrete = fill inner scope.path_params in
    if ends_with scope.path concrete
    then take (length scope.path - length concrete) scope.path ++ inner
    else inner

-- _route_template
unfoldable pub route_template : Scope → Text
unfolding ends_with fill template_of
route_template scope = template_of scope scope.route

-- `incoming or uuid4().hex`
unfoldable pub correlation_of : Option Text → Text → Text
correlation_of none fresh = fresh
correlation_of (some []) fresh = fresh
correlation_of (some (c ∷ cs)) fresh = c ∷ cs

-- The messages that an application sends: the start of a response, and the rest.
pub data Message : Type 0 where
  start : (status : ℕ) → (request_id : Option Text) → Message
  body : Text → Message

-- An application's messages, and whether it raised after them.
pub record Sent : Type 0 where
  pub messages : List Message
  pub outcome : Result (Unit {0})

unfoldable pub stamp : Text → Message → Message
stamp correlation_id (start status request_id) = start status (some correlation_id)
stamp correlation_id (body b) = body b

-- CorrelationIdMiddleware: every start of a response carries the identifier.
unfoldable pub correlate : Scope → Text → Sent → Sent
unfolding correlation_of stamp
correlate scope fresh sent = record sent {
  messages = map (stamp (correlation_of scope.request_id fresh)) sent.messages;
}

-- The status that the access log ends with: 500, until a response starts.
unfoldable pub last_status : ℕ → List Message → ℕ
last_status status_code [] = status_code
last_status status_code (start status request_id ∷ rest) = last_status status rest
last_status status_code (body b ∷ rest) = last_status status_code rest

pub record AccessRecord : Type 0 where
  pub method : Text
  pub route : Text
  pub status_code : ℕ

is_excluded : List Text → Text → Bool
is_excluded [] t = false
is_excluded (p ∷ ps) t = text_eq p t || is_excluded ps t

-- AccessLogMiddleware: the record written in its `finally`, if any.
unfoldable pub access_log : List Text → Scope → Sent → Option AccessRecord
unfolding is_excluded last_status
access_log excluded_paths scope sent =
    if is_excluded excluded_paths (route_template scope)
    then none
    else some (record {
      method = scope.method;
      route = route_template scope;
      status_code = last_status 500 sent.messages;
    })
