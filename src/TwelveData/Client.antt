-- ===== src/TwelveData/Client.antt =====
-- `TwelveDataHttpClient.get` of providers/twelvedata_market_data.py: which responses are passed on, and which are
-- failures, and of what kind. What `int` makes of a text and `str.lower` are parameters.
use signapse_mdg.Base.{
  ◌≡◌, Bool, true, false, not, ◌&&◌, ◌||◌, Option, none, some, [], ◌∷◌, String, string_eq, nat_eq,
  ◌==◌, contains, any, arith, if◌then◌else◌,
}
use signapse_mdg.Time.Timeframe.{ℤ, pos, negsuc}

-- A value of JSON, as `_to_int` looks at it; a code that is a float is taken to be no 400.
pub data RawInt : Type 0 where
  integer : ℤ → RawInt
  text : String → RawInt
  other_value : RawInt

pub record ErrorPayload : Type 0 where
  pub status_error : Bool
  pub code : RawInt
  pub message : Option String

pub data Body : Type 0 where
  unreadable : Body
  other_json : Body
  dict : ErrorPayload → Body

pub record Response : Type 0 where
  pub is_batch_or_csv : Bool
  pub status_code : RawInt
  pub good : Bool
  pub body : Body

pub data Received : Type 0 where
  returned : Received
  no_data_error : Received
  key_error : Received
  twelvedata_error : Received
  json_error : Received

abbrev to_int : (String → Option ℤ) → RawInt → Option ℤ
to_int int (integer n) = some n
to_int int (text s) = int s
to_int int other_value = none

abbrev is_key_code : Option ℤ → Bool
is_key_code none = false
is_key_code (some (negsuc n)) = false
is_key_code (some (pos n)) = contains (401 ∷ 403 ∷ 429 ∷ []) n

abbrev is_400 : RawInt → Bool
is_400 (integer (pos n)) = n == 400
is_400 (integer (negsuc n)) = false
is_400 (text s) = false
is_400 other_value = false

-- `s.startswith(prefix)`
unfoldable pub starts_with : String → String → Bool
starts_with String.[] s = true
starts_with (String.◌∷◌ c prefix) String.[] = false
starts_with (String.◌∷◌ c prefix) (String.◌∷◌ d s) =
    String.◌∷◌ c "" == String.◌∷◌ d "" && starts_with prefix s

-- `token in s`
unfoldable pub occurs : String → String → Bool
unfolding starts_with
occurs token String.[] = starts_with token ""
occurs token (String.◌∷◌ c s) = starts_with token (String.◌∷◌ c s) || occurs token s

abbrev key_message : (String → String) → Option String → Bool
key_message lower none = false
key_message lower (some message) =
    any (λ token. occurs token (lower message)) ("api key" ∷ "rate limit" ∷ "quota" ∷ "credit" ∷ [])

abbrev no_data_message : (String → String) → Option String → Bool
no_data_message lower none = false
no_data_message lower (some message) =
    starts_with "no data is available on the specified dates" (lower message)

module _ (int : String → Option ℤ) (lower : String → String) where
  abbrev pub is_key_payload : Body → Bool
  is_key_payload unreadable = false
  is_key_payload other_json = false
  is_key_payload (dict p) = is_key_code (to_int int p.code) || key_message lower p.message

  abbrev pub is_key_related_error : Option ℤ → Body → Bool
  is_key_related_error status_code payload = is_key_code status_code || is_key_payload payload

  abbrev is_no_data_time_series_response : String → Body → Bool
  is_no_data_time_series_response relative_url unreadable = false
  is_no_data_time_series_response relative_url other_json = false
  is_no_data_time_series_response relative_url (dict p) =
      occurs "time_series" relative_url
      && p.status_error
      && is_400 p.code
      && no_data_message lower p.message

  abbrev pub says_error : Body → Bool
  says_error unreadable = false
  says_error other_json = false
  says_error (dict p) = p.status_error

  abbrev is_readable : Body → Bool
  is_readable unreadable = false
  is_readable other_json = true
  is_readable (dict p) = true

  -- `get`, once the session has answered.
  unfoldable pub get : String → Response → Received
  unfolding occurs starts_with
  get relative_url response =
      if response.is_batch_or_csv
      then returned
      else if not (is_readable response.body)
      then json_error
      else if is_no_data_time_series_response relative_url response.body
      then no_data_error
      else if is_key_related_error (to_int int response.status_code) response.body
      then key_error
      else if not response.good
      then twelvedata_error
      else if is_key_related_error none response.body
      then key_error
      else if says_error response.body
      then twelvedata_error
      else returned

  -- A response with a body of JSON that is passed on is good, its payload does not say that it is an error, and
  -- neither its status nor its payload is about the key.
  pub get-returned :
      (relative_url : String) (response : Response)
      → response.is_batch_or_csv ≡ false
      → get relative_url response ≡ returned
      → (response.good ≡ true)
        × (says_error response.body ≡ false)
        × (is_key_related_error (to_int int response.status_code) response.body ≡ false)
  unfolding get
  get-returned relative_url response h e = ground (arith, h, e)
