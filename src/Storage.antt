-- ===== src/Storage.antt =====
-- backend/storage.go: both object storages behind one interface, and the choice between them. The
-- clients of S3 and of Google Cloud Storage are parameters; an error is `none` or `false`. The
-- contexts and the reading of Amazon's configuration are left out.
mod Public
mod Escape
mod Tests
use Prim.Native.Char.{Char, char, code, IsScalar}
use Prim.Native.String.{String, [], ◌∷◌, ◌++◌}
use banana_talk.Prelude.{
  ℕ, ◌+◌, ◌/◌, ◌%◌, ◌<◌, Bool, true, false, ◌&&◌, ◌||◌, Option, none, some, ◌==◌, ◌==ℕ◌, leb, ltb,
  if◌then◌else◌, arith,
}
use banana_talk.Strconv.{small-IsScalar}

-- The interface `Storage`.
pub record Storage (Body : Type 0) : Type 1 where
  pub State : Type 0
  pub upload : (key content_type : String) → Body → (size : ℕ) → State → Option String × State
  pub sign : (key : String) → (ttl : ℕ) → State → Option String

pub record PutObject (Body : Type 0) : Type 0 where
  pub bucket : String
  pub key : String
  pub body : Body
  pub content_type : String
  pub content_length : Option ℕ

pub record S3Client (Body : Type 0) : Type 1 where
  pub State : Type 0
  pub put_object : PutObject Body → State → Bool × State
  pub presign_get_object : (bucket key : String) → (ttl : ℕ) → State → Option String

-- A writer of an object takes the body and is closed.
pub record GcsClient (Body : Type 0) : Type 1 where
  pub State : Type 0
  pub copy : (bucket key content_type : String) → Body → State → Bool × State
  pub close : (bucket key : String) → State → Bool × State
  pub signed_url : (bucket key : String) → (expires : ℕ) → State → Option String

-- The environment variables; a missing one is "".
pub record Settings : Type 0 where
  pub provider : String
  pub bucket : String
  pub public_url_base : String

ascii : ℕ → Char
ascii n = char (n % 128) (small-IsScalar (n % 128) (omega arith))

-- `strings.ToLower` on ASCII; no other letter becomes one of `s3` or `gcs`.
unfoldable pub to_lower : String → String
unfolding ascii
to_lower [] = []
to_lower (c ∷ s) =
    let rest = to_lower s in
    (if leb 65 (code c) && leb (code c) 90 then ascii (code c + 32) else c) ∷ rest

-- A character in front of a text, unless that would be slashes alone.
abbrev pub put_slash : Char → String → String
put_slash c [] = if code c ==ℕ 47 then [] else c ∷ []
put_slash c (d ∷ s) = c ∷ d ∷ s

-- `strings.TrimRight(s, "/")`
pub trim_slashes : String → String
trim_slashes [] = []
trim_slashes (c ∷ s) = put_slash c (trim_slashes s)

-- What `url.PathEscape` keeps: letters, digits and `-_.~$&+:=@`.
is_kept : ℕ → Bool
is_kept n =
    (leb 48 n && leb n 57)
    || (leb 65 n && leb n 90)
    || (leb 97 n && leb n 122)
    || n ==ℕ 45
    || n ==ℕ 95
    || n ==ℕ 46
    || n ==ℕ 126
    || n ==ℕ 36
    || n ==ℕ 38
    || n ==ℕ 43
    || n ==ℕ 58
    || n ==ℕ 61
    || n ==ℕ 64

hex_digit : ℕ → Char
unfolding ascii
hex_digit n = if ltb n 10 then ascii (48 + n) else ascii (55 + n)

-- One byte, as `%XX`, in front of a text.
escape_byte : ℕ → String → String
unfolding hex_digit
escape_byte n s = ascii 37 ∷ hex_digit (n / 16) ∷ hex_digit (n % 16) ∷ s

-- The bytes of a character in UTF-8.
escape_char : ℕ → String → String
unfolding escape_byte
escape_char n s =
    if ltb n 128
    then escape_byte n s
    else (if ltb n 2048
        then escape_byte (192 + n / 64) (escape_byte (128 + n % 64) s)
        else (if ltb n 65536
            then escape_byte (224 + n / 4096)
                (escape_byte (128 + n / 64 % 64) (escape_byte (128 + n % 64) s))
            else escape_byte (240 + n / 262144 % 8) (
                escape_byte (128 + n / 4096 % 64)
                  (escape_byte (128 + n / 64 % 64) (escape_byte (128 + n % 64) s)))))

-- `url.PathEscape`
pub path_escape : String → String
unfolding escape_char is_kept
path_escape [] = []
path_escape (c ∷ s) =
    let rest = path_escape s in if is_kept (code c) then c ∷ rest else escape_char (code c) rest

-- The address of an object below the public prefix.
abbrev pub public_url : String → String → String
public_url prefix key = prefix ++ "/" ++ key

module _ {Body : Type 0} where
  module _ (client : S3Client Body) (bucket prefix : String) where
    open client use {State}

    put_done : String → Bool × State → Option String × State
    put_done key (false, st) = (none, st)
    put_done key (true, st) =
        (some (if prefix == "" then "s3://" ++ bucket ++ "/" ++ key else public_url prefix key), st)

    s3_upload : String → String → Body → ℕ → State → Option String × State
    unfolding put_done
    s3_upload key content_type body size st = put_done key (
        client.put_object
          (record {
            bucket = bucket;
            key = key;
            body = body;
            content_type = content_type;
            content_length = if ltb 0 size then some size else none;
          })
          st)

    s3_sign : String → ℕ → State → Option String
    s3_sign key ttl st =
        if prefix == ""
        then client.presign_get_object bucket key ttl st
        else some (public_url prefix key)

    s3_storage : Storage Body
    unfolding s3_upload s3_sign
    s3_storage = record { State = State; upload = s3_upload; sign = s3_sign }

  -- `now` is the time at which a URL is signed.
  module _ (client : GcsClient Body) (now : client.State → ℕ) (bucket prefix : String) where
    open client use {State}

    closed : String → Bool × State → Option String × State
    unfolding path_escape
    closed key (false, st) = (none, st)
    closed key (true, st) = (
      some (
          if prefix == ""
          then "https://storage.googleapis.com/" ++ bucket ++ "/" ++ path_escape key
          else public_url prefix key),
      st,
    )

    copied : String → Bool × State → Option String × State
    unfolding closed
    copied key (false, st) = (none, (client.close bucket key st).1)
    copied key (true, st) = closed key (client.close bucket key st)

    gcs_upload : String → String → Body → ℕ → State → Option String × State
    unfolding copied
    gcs_upload key content_type body size st =
        copied key (client.copy bucket key content_type body st)

    gcs_sign : String → ℕ → State → Option String
    gcs_sign key ttl st =
        if prefix == ""
        then client.signed_url bucket key (now st + ttl) st
        else some (public_url prefix key)

    gcs_storage : Storage Body
    unfolding gcs_upload gcs_sign
    gcs_storage = record { State = State; upload = gcs_upload; sign = gcs_sign }

  s3_or_none : Settings → Option (S3Client Body) → Option (Storage Body)
  unfolding s3_storage
  s3_or_none c none = none
  s3_or_none c (some client) = some (s3_storage client c.bucket (trim_slashes c.public_url_base))

  gcs_or_none :
      Settings → Option ((client : GcsClient Body) × (client.State → ℕ)) → Option (Storage Body)
  unfolding gcs_storage
  gcs_or_none c none = none
  gcs_or_none c (some (client, now)) =
      some (gcs_storage client now c.bucket (trim_slashes c.public_url_base))

  -- `none` is a client that could not be made, or an error.
  unfoldable pub new_storage :
      Settings
      → Option (S3Client Body)
      → Option ((client : GcsClient Body) × (client.State → ℕ))
      → Option (Storage Body)
  unfolding s3_or_none gcs_or_none to_lower
  new_storage c s3 gcs =
      if c.bucket == ""
      then none
      else (if to_lower c.provider == "s3"
          then s3_or_none c s3
          else (if to_lower c.provider == "gcs" then gcs_or_none c gcs else none))
