-- ===== src/ConfigCheck.antt =====
-- config_check.py: the resolved configuration with its secrets masked. urllib's urlsplit and
-- urlunsplit are an argument; printing is not modelled.
pub mod Hiding
use pyfr_m8_verify.Base.{
  Text, Option, codes, some, if◌then◌else◌, rpartition, none, has, partition, ◌∷◌, [], ◌++◌,
}
use pyfr_m8_verify.Json.{
  Json, boolean, number, str, arr, obj, Items, cons, Fields, field, null, nil, end,
}

abbrev pub mask_text : Text
mask_text = codes "**********"

pub record Url : Type 0 where
  pub scheme : Text
  pub netloc : Text
  pub path : Text
  pub query : Text
  pub fragment : Text

-- `none` is the ValueError of a text that is no URL.
pub record UrlLibrary : Type 0 where
  pub urlsplit : Text → Option Url
  pub urlunsplit : Url → Text

-- credentials.partition(":")[0]
unfoldable pub user_of : Option (Text × Text) → Text → Text
user_of none credentials = credentials
user_of (some (user, password)) credentials = user

module _ (urls : UrlLibrary) where
  unfoldable pub mask_credentials : Text → Url → Option (Text × Text) → Text
  unfolding user_of
  mask_credentials value parts none = value
  mask_credentials value parts (some (credentials, host_port)) =
      if has b':' credentials
      then urls.urlunsplit (record parts {
        netloc =
            user_of (partition (b':' ∷ []) credentials) credentials
            ++ (b':' ∷ (mask_text ++ (b'@' ∷ host_port)));
      })
      else value

  unfoldable pub mask_parts : Text → Option Url → Text
  unfolding mask_credentials
  mask_parts value none = value
  mask_parts value (some parts) = mask_credentials value parts (rpartition b'@' parts.netloc)

  unfoldable pub mask_url_credentials : Text → Text
  unfolding mask_parts
  mask_url_credentials value = mask_parts value (urls.urlsplit value)

  unfoldable mutual
    pub mask : Json → Json
    mask null = null
    mask (boolean b) = boolean b
    mask (number n) = number n
    mask (str value) = str (mask_url_credentials value)
    mask (arr items) = arr (mask_items items)
    mask (obj fields) = obj (mask_fields fields)

    pub mask_items : Items → Items
    mask_items nil = nil
    mask_items (cons item rest) = cons (mask item) (mask_items rest)

    pub mask_fields : Fields → Fields
    mask_fields end = end
    mask_fields (field key item rest) = field key (mask item) (mask_fields rest)
