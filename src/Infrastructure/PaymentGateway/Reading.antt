-- ===== src/Infrastructure/PaymentGateway/Reading.antt =====
-- What a response of the provider says, and what is read of it.
use pyfr_m8_verify.Base.{
  true, false, ℕ, ◌≤◌, ◌≡◌, refl, inl, inr, none, some, arith, length, take, length-take-le, Text,
  Bool-cases, Option, leb, codes, leb→le, ◌==◌, [], ◌≢◌, ◌∙◌, all, ◌∷◌, ap, ==_iff, subst, sym,
  ◌++◌,
}
use pyfr_m8_verify.Errors.{
  Exception, HttpError, Result, ok, raised, http, value_error, domain, payment_declined,
  infrastructure, payment_unavailable, key_error, invalid_url,
}
use pyfr_m8_verify.Errors.Exec.{bind_result}
use pyfr_m8_verify.Domain.Ports.{Authorisation, new_authorisation, strip, is_space}
use pyfr_m8_verify.Json.{Json, str, obj, get_field, null, Fields}
use pyfr_m8_verify.Infrastructure.PaymentGateway.{
  authorisation_of, or_unreadable, read_authorisation, read_decline, unreadable, id_of, reason_of,
  read_answer, Response,
}
use pyfr_m8_verify.Domain.Ports.Stripped.{IsStripped, strip-IsStripped, all-append}

-- A body that `response.json()` reads, or refuses with a ValueError.
abbrev pub IsBody : Result Json → Type 0
IsBody (ok json) = Unit {0}
IsBody (raised e) = e ≡ value_error

abbrev pub NotObject : Json → Type 0
NotObject (obj fields) = ⊥
NotObject _ = Unit {0}

abbrev pub NotText : Json → Type 0
NotText (str t) = ⊥
NotText _ = Unit {0}

-- Why a response says nothing that the caller could be told.
pub data IsUnreadable (response : Response) : Type 0 where
  no_json : response.body ≡ raised value_error → IsUnreadable response
  no_object : (json : Json) → response.body ≡ ok json → NotObject json → IsUnreadable response
  no_id :
      (fields : Fields)
      → response.status_code ≢ 402
      → response.body ≡ ok (obj fields)
      → get_field (codes "id") fields ≡ none
      → IsUnreadable response
  no_text :
      (fields : Fields) (json : Json)
      → response.status_code ≢ 402
      → response.body ≡ ok (obj fields)
      → get_field (codes "id") fields ≡ some json
      → NotText json
      → IsUnreadable response
  blank :
      (fields : Fields) (raw : Text)
      → response.status_code ≢ 402
      → response.body ≡ ok (obj fields)
      → get_field (codes "id") fields ≡ some (str raw)
      → all is_space raw ≡ true
      → IsUnreadable response

-- The failures of an HTTP attempt that `authorise` expects.
pub data IsTransport : Exception → Type 0 where
  by_http : (e : HttpError) → IsTransport (http e)
  by_url : IsTransport invalid_url

-- The first 200 characters of the reason, or of "unknown" where there is none.
abbrev pub IsReason : (Json → Text) → Option Json → Text → Type 0
IsReason text_of none reason = reason ≡ take 200 (text_of (str (codes "unknown")))
IsReason text_of (some json) reason = reason ≡ take 200 (text_of json)

-- What the caller is told of how the attempts ended.
pub data IsAnswer (text_of : Json → Text) (order_id : ℕ)
    : Result Response → Result Authorisation → Type 0 where
  authorised :
      (response : Response) (fields : Fields) (raw : Text) (a : Authorisation)
      → response.status_code ≢ 402
      → response.body ≡ ok (obj fields)
      → get_field (codes "id") fields ≡ some (str raw)
      → IsStripped raw a.id
      → 1 ≤ length a.id
      → IsAnswer text_of order_id (ok response) (ok a)
  declined :
      (response : Response) (fields : Fields) (reason : Text)
      → response.status_code ≡ 402
      → response.body ≡ ok (obj fields)
      → IsReason text_of (get_field (codes "reason") fields) reason
      → length reason ≤ 200
      → IsAnswer text_of order_id (ok response) (raised (domain (payment_declined order_id reason)))
  unreadable_answer :
      (response : Response)
      → IsUnreadable response
      → IsAnswer text_of order_id (ok response) (raised (infrastructure payment_unavailable))
  no_response :
      (e : Exception)
      → IsTransport e
      → IsAnswer text_of order_id (raised e) (raised (infrastructure payment_unavailable))

empty : (t : Text) → leb 1 (length t) ≡ false → t ≡ []
empty [] h = refl
empty (c ∷ t) h = absurd (ground arith)

stripped-blank : (raw : Text) → strip raw ≡ [] → all is_space raw ≡ true
stripped-blank raw h =
    let s = strip-IsStripped raw in
    subst (λ t. all is_space t ≡ true) (sym (s.splits ∙ ap (λ t. s.before ++ (t ++ s.after)) h))
      (all-append is_space s.before s.after s.before_space s.after_space)

module _ (text_of : Json → Text) (n : ℕ) (response : Response) where
  with_text :
      (fields : Fields) (raw : Text)
      → response.status_code ≢ 402
      → response.body ≡ ok (obj fields)
      → get_field (codes "id") fields ≡ some (str raw)
      → IsAnswer text_of n (ok response) (or_unreadable (new_authorisation raw))
  unfolding or_unreadable unreadable new_authorisation
  with_text fields raw s b h = elim (Bool-cases (leb 1 (length (strip raw)))) [
    | inl e ↦ rw e (authorised response fields raw _ s b h (strip-IsStripped raw) (leb→le _ _ e))
    | inr e ↦ rw e (
        unreadable_answer response
          (blank fields raw s b h (stripped-blank raw (empty (strip raw) e))))
  ]

  with_id :
      (fields : Fields) (o : Option Json)
      → response.status_code ≢ 402
      → response.body ≡ ok (obj fields)
      → get_field (codes "id") fields ≡ o
      → IsAnswer text_of n (ok response) (
          or_unreadable
            (bind_result (elim o [ none ↦ raised key_error | some v ↦ ok v ]) authorisation_of))
  unfolding or_unreadable unreadable authorisation_of
  with_id fields none s b h = unreadable_answer response (no_id fields s b h)
  with_id fields (some (str raw)) s b h = with_text fields raw s b h
  with_id fields (some null) s b h = unreadable_answer response (no_text fields null s b h tt)
  with_id fields (some json) s b h = unreadable_answer response (no_text fields json s b h tt)

  authorises :
      (body : Result Json)
      → response.status_code ≢ 402
      → response.body ≡ body
      → IsBody body
      → IsAnswer text_of n (ok response) (or_unreadable (read_authorisation body))
  unfolding read_authorisation id_of or_unreadable unreadable
  authorises (ok (obj fields)) s b h = with_id fields (get_field (codes "id") fields) s b refl
  authorises (ok null) s b h = unreadable_answer response (no_object null b tt)
  authorises (ok json) s b h = unreadable_answer response (no_object json b tt)
  authorises (raised e) s b h = rw h (unreadable_answer response (no_json (b ∙ ap raised h)))

  with_reason :
      (fields : Fields) (o : Option Json)
      → response.status_code ≡ 402
      → response.body ≡ ok (obj fields)
      → get_field (codes "reason") fields ≡ o
      → IsAnswer text_of n (ok response) (
          or_unreadable (
            bind_result
              (elim o [ none ↦ ok (str (codes "unknown")) | some v ↦ ok v ])
              λ r. raised (domain (payment_declined n (take 200 (text_of r))))))
  unfolding or_unreadable unreadable
  with_reason fields none s b h = declined response fields _ s b (rw h refl) (length-take-le 200 _)
  with_reason fields (some v) s b h =
      declined response fields _ s b (rw h refl) (length-take-le 200 _)

  declines :
      (body : Result Json)
      → response.status_code ≡ 402
      → response.body ≡ body
      → IsBody body
      → IsAnswer text_of n (ok response) (or_unreadable (read_decline text_of n body))
  unfolding read_decline reason_of or_unreadable unreadable
  declines (ok (obj fields)) s b h = with_reason fields (get_field (codes "reason") fields) s b refl
  declines (ok null) s b h = unreadable_answer response (no_object null b tt)
  declines (ok json) s b h = unreadable_answer response (no_object json b tt)
  declines (raised e) s b h = rw h (unreadable_answer response (no_json (b ∙ ap raised h)))

  -- However the provider's body is malformed, reading it ends in an answer.
  pub read_answer-IsAnswer :
      IsBody response.body → IsAnswer text_of n (ok response) (read_answer text_of n response)
  unfolding read_answer
  read_answer-IsAnswer b = elim (Bool-cases (response.status_code == 402)) [
    | inl e ↦ rw e (declines response.body ((==_iff _ _).0 e) refl b)
    | inr e ↦ rw e (authorises response.body (different e) refl b)
  ]
    where
      different : (response.status_code == 402) ≡ false → response.status_code ≢ 402
      different e k = ground arith
