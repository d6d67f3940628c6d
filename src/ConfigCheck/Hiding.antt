-- ===== src/ConfigCheck/Hiding.antt =====
-- No password is printed.
use pyfr_m8_verify.Json.{
  null, boolean, nil, end, Json, number, str, arr, obj, Items, cons, Fields, field,
}
use pyfr_m8_verify.Base.{
  Text, has, ◌++◌, ℕ, ◌≡◌, ◌∷◌, false, some, true, ap, rpartition, arith, rpartition-append, [],
  refl, partition-append, partition, Option-cases, starts_with, inl, inr, none, Bool-cases, ◌∙◌,
  ◌==◌, sym, last_or, Option, ◌⊎◌, append_assoc,
}
use pyfr_m8_verify.ConfigCheck.{
  UrlLibrary, mask_url_credentials, Url, mask_text, mask_parts, mask_credentials, user_of, mask,
  mask_items, mask_fields,
}

abbrev pub with_password : Text → Text → Text → Text
with_password user password host = user ++ (b':' ∷ (password ++ (b'@' ∷ host)))

has-append : (c : ℕ) (a b : Text) → has c (a ++ (c ∷ b)) ≡ true
unfolding has
has-append c [] b = ground arith
has-append c (d ∷ a) b = ground (arith, has-append c a b)

netloc-split :
    (user password host : Text)
    → has b'@' host ≡ false
    → rpartition b'@' (with_password user password host) ≡ some (user ++ (b':' ∷ password), host)
netloc-split user password host h =
    rw (← append_assoc user (b':' ∷ password) (b'@' ∷ host))
      (rpartition-append b'@' (user ++ (b':' ∷ password)) host h)

pub user_of-has :
    (credentials : Text)
    → has b':' (user_of (partition (b':' ∷ []) credentials) credentials) ≡ false
unfolding has partition user_of starts_with
user_of-has [] = refl
user_of-has (c ∷ s) = elim (Option-cases (partition (b':' ∷ []) s)) [
  | inl e ↦ ground (arith, e, user_of-has s)
  | inr ((a, b), e) ↦ ground (arith, e, user_of-has s)
]

has_of_rpartition : (c : ℕ) (s : Text) → rpartition c s ≡ none → has c s ≡ false
unfolding has rpartition
has_of_rpartition c [] h = refl
has_of_rpartition c (d ∷ s) h = elim (Option-cases (rpartition c s)) [
  | inl e ↦ elim (Bool-cases (c == d)) [
    | inl t ↦ cc (rw (e, last_or, t) at h)
    | inr f ↦ rw f (has_of_rpartition c s e)
  ]
  | inr ((x, y), e) ↦ cc (rw (e, last_or) at h)
]

found-snd : {a b x y : Text} → ◌≡◌ {A = Option (Text × Text)} (some (x, y)) (some (a, b)) → b ≡ y
found-snd e = cc

rpartition-has : (c : ℕ) (s a b : Text) → rpartition c s ≡ some (a, b) → has c b ≡ false
unfolding rpartition
rpartition-has c [] a b h = cc
rpartition-has c (d ∷ s) a b h = elim (Option-cases (rpartition c s)) [
  | inl e ↦ elim (Bool-cases (c == d)) [
    | inl t ↦ rw (found-snd (rw (e, last_or, t) at h)) (has_of_rpartition c s e)
    | inr f ↦ cc (rw (e, last_or, f) at h)
  ]
  | inr ((x, y), e) ↦ rw (found-snd (rw (e, last_or) at h)) (rpartition-has c s x y e)
]

module _ (urls : UrlLibrary) where
  -- Of a URL that carries a password, whatever that is (it may hold `@` and `:` itself), what is
  -- printed has the mask in its place, and the user, the host and all other parts as they were: the
  -- password has no influence on it.
  pub mask_url_credentials-hides :
      (value : Text) (parts : Url) (user password host : Text)
      → urls.urlsplit value ≡ some (record parts { netloc = with_password user password host })
      → has b':' user ≡ false
      → has b'@' host ≡ false
      → mask_url_credentials urls value
        ≡ urls.urlunsplit (record parts { netloc = with_password user mask_text host })
  unfolding mask_url_credentials
  mask_url_credentials-hides value parts user password host s u h =
      rw (s, mask_parts)
        (rw (netloc-split user password host h, mask_credentials)
          (rw (has-append b':' user password, partition-append b':' [] user password u, user_of)
            refl))

  -- A URL with the mask in place of its password, from its user and password and its host and port.
  abbrev pub masked : Url → Text → Text → Url
  masked parts credentials host = record parts {
    netloc = with_password (user_of (partition (b':' ∷ []) credentials) credentials) mask_text host;
  }

  -- What `mask_url_credentials` can do: nothing, or put the mask where a password was.
  data IsMasked (value : Text) : Type 0 where
    same : mask_url_credentials urls value ≡ value → IsMasked value
    hidden :
        (parts : Url) (credentials host : Text)
        → urls.urlsplit value ≡ some parts
        → rpartition b'@' parts.netloc ≡ some (credentials, host)
        → mask_url_credentials urls value ≡ urls.urlunsplit (masked parts credentials host)
        → IsMasked value

  mask_url_credentials-IsMasked : (value : Text) → IsMasked value
  unfolding mask_url_credentials
  mask_url_credentials-IsMasked value = elim (Option-cases (urls.urlsplit value)) [
    | inl e ↦ same (rw (e, mask_parts))
    | inr (parts, e) ↦ elim (Option-cases (rpartition b'@' parts.netloc)) [
      | inl f ↦ same (rw (e, mask_parts) (rw (f, mask_credentials)))
      | inr ((credentials, host), f) ↦ elim (Bool-cases (has b':' credentials)) [
        | inl t ↦
            hidden parts credentials host e f (rw (e, mask_parts) (rw (f, mask_credentials) (rw t)))
        | inr n ↦ same (rw (e, mask_parts) (rw (f, mask_credentials) (rw n)))
      ]
    ]
  ]

  -- Of a URL that it wrote for one that it had read, urllib reads what it wrote, or refuses it.
  abbrev pub ReadsBack : Type 0
  ReadsBack =
      (value : Text) (parts : Url) (credentials host : Text)
      → urls.urlsplit value ≡ some parts
      → rpartition b'@' parts.netloc ≡ some (credentials, host)
      → (urls.urlsplit (urls.urlunsplit (masked parts credentials host)) ≡ none)
        ⊎ (urls.urlsplit (urls.urlunsplit (masked parts credentials host))
            ≡ some (masked parts credentials host))

  module _ (reads_back : ReadsBack) where
    unread : (value : Text) → urls.urlsplit value ≡ none → mask_url_credentials urls value ≡ value
    unfolding mask_url_credentials
    unread value e = rw (e, mask_parts)

    url_idem :
        (value : Text)
        → IsMasked value
        → mask_url_credentials urls (mask_url_credentials urls value)
          ≡ mask_url_credentials urls value
    url_idem value (same e) = ap (mask_url_credentials urls) e
    url_idem value (hidden parts credentials host s r e) =
        ap (mask_url_credentials urls) e
        ∙ again (reads_back value parts credentials host s r)
        ∙ sym e
      where
        again :
            (urls.urlsplit (urls.urlunsplit (masked parts credentials host)) ≡ none)
              ⊎ (urls.urlsplit (urls.urlunsplit (masked parts credentials host))
                  ≡ some (masked parts credentials host))
            → mask_url_credentials urls (urls.urlunsplit (masked parts credentials host))
              ≡ urls.urlunsplit (masked parts credentials host)
        again (inl n) = unread _ n
        again (inr o) =
            mask_url_credentials-hides _ parts
              (user_of (partition (b':' ∷ []) credentials) credentials) mask_text host o
              (user_of-has credentials) (rpartition-has b'@' parts.netloc credentials host r)

    mutual
      unfolding mask

      value_idem : (j : Json) → mask urls (mask urls j) ≡ mask urls j
      value_idem null = refl
      value_idem (boolean b) = refl
      value_idem (number n) = refl
      value_idem (str value) = ap str (url_idem value (mask_url_credentials-IsMasked value))
      value_idem (arr items) = ap arr (items_idem items)
      value_idem (obj fields) = ap obj (fields_idem fields)

      items_idem : (items : Items) → mask_items urls (mask_items urls items) ≡ mask_items urls items
      items_idem nil = refl
      items_idem (cons item rest) = cc (value_idem item, items_idem rest)

      fields_idem :
          (fields : Fields) → mask_fields urls (mask_fields urls fields) ≡ mask_fields urls fields
      fields_idem end = refl
      fields_idem (field key item rest) = cc (value_idem item, fields_idem rest)

    -- Where urllib reads back what it wrote for a URL that it had read, or refuses it, masking a
    -- configuration that is masked already changes nothing, at any depth.
    pub mask_idem : (j : Json) → mask urls (mask urls j) ≡ mask urls j
    mask_idem j = value_idem j
