-- ===== src/Management/Bootstrap.antt =====
-- `BootstrapDescriptor::parse` of crates/resticpal-core/src/management.rs: what an enrollment link holds.
use resticpal.Prelude.{
  ◌*◌, Bool, not, ◌||◌, Option, none, some, List, [], ◌∷◌, String, ltb, is_empty, is_some,
  if◌then◌else◌, Result, ok, err, ◌>>=◌, ◌>>◌, reject_if,
}
use resticpal.Text.{codes, byte_len, has_break}
use resticpal.Config.Management.{Url, Urls, is_text}
use resticpal.Management.{Signatures, decode_array, valid_text, signed_transport_allowed}

pub record BootstrapDescriptor : Type 0 where
  pub endpoint_url : String
  pub token : String
  pub public_key : String
  pub key_id : String

pub data BootstrapError : Type 0 where
  invalid_bootstrap_url missing_bootstrap_fields : BootstrapError

-- What else the code asks of the url package: the pairs of a fragment, with their escapes resolved, and the
-- text of a URL without its fragment.
pub record Fragments : Type 0 where
  pub form_urlencoded : String → List (String × String)
  pub without_fragment : Url → String

-- The fields of a link, as far as they were read.
pub record LinkFields : Type 0 where
  pub token : Option String
  pub public_key : Option String
  pub key_id : Option String

abbrev pub no_fields : LinkFields
no_fields = record { token = none; public_key = none; key_id = none }

-- A URL that names a server without credentials in the text.
abbrev pub is_plain_url : Urls → Url → Bool
is_plain_url urls url = not (
    not (is_text url.scheme "http" || is_text url.scheme "https")
    || not (is_some url.host_str)
    || not (is_empty (codes url.username))
    || is_some url.password
    || not (signed_transport_allowed urls url))

-- `target.replace(value).is_some()` rejects the link.
abbrev once : Option String → LinkFields → Result BootstrapError LinkFields
once none fields = ok fields
once (some earlier) fields = err invalid_bootstrap_url

unfoldable pub read_field : String → String → LinkFields → Result BootstrapError LinkFields
read_field name value fields =
    if is_text name "token"
    then once fields.token
        (record { token = some value; public_key = fields.public_key; key_id = fields.key_id })
    else if is_text name "key"
    then once fields.public_key
        (record { token = fields.token; public_key = some value; key_id = fields.key_id })
    else if is_text name "key_id"
    then once fields.key_id
        (record { token = fields.token; public_key = fields.public_key; key_id = some value })
    else err invalid_bootstrap_url

unfoldable pub read_fields : List (String × String) → LinkFields → Result BootstrapError LinkFields
read_fields [] fields = ok fields
read_fields ((name, value) ∷ pairs) fields =
    read_field name value fields >>= λ read. read_fields pairs read

-- `Option::filter`.
abbrev pub filtered : (String → Bool) → Option String → Option String
filtered p none = none
filtered p (some value) = if p value then some value else none

abbrev complete :
    String
    → Option String
    → Option String
    → Option String
    → Result BootstrapError BootstrapDescriptor
complete endpoint_url (some token) (some public_key) (some key_id) = ok (record {
  endpoint_url = endpoint_url;
  token = token;
  public_key = public_key;
  key_id = key_id;
})
complete _ _ _ _ = err missing_bootstrap_fields

module _ (fragments : Fragments) (signatures : Signatures) where
  -- The last step: what was read must be well formed.
  unfoldable pub describe : Url → LinkFields → Result BootstrapError BootstrapDescriptor
  describe url fields =
      complete (fragments.without_fragment url)
        (filtered (λ value. valid_text value 4096) fields.token)
        (filtered (λ value. is_some (decode_array signatures 32 value)) fields.public_key)
        (filtered (λ value. valid_text value 256) fields.key_id)

  abbrev read_fragment : Url → Option String → Result BootstrapError BootstrapDescriptor
  read_fragment url none = err missing_bootstrap_fields
  read_fragment url (some fragment) = do
    fields ← read_fields (fragments.form_urlencoded fragment) no_fields
    describe url fields

  unfoldable pub parse_bootstrap : Urls → String → Result BootstrapError BootstrapDescriptor
  parse_bootstrap urls value = do
    reject_if (is_empty (codes value) || (ltb (16 * 1024) (byte_len value) || has_break value))
        invalid_bootstrap_url
    elim (urls.parse value) [
      | none ↦ err invalid_bootstrap_url
      | some url ↦
          reject_if (not (is_plain_url urls url)) invalid_bootstrap_url
          >> read_fragment url url.fragment
    ]
