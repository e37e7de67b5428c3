-- ===== src/Storage/Tests.antt =====
-- The object storages of backend/storage.go with clients that keep nothing.
use banana_talk.Prelude.{◌≡◌, ◌⊎◌, refl, true, false, none, some, ◌==◌}
use banana_talk.Storage.Public.{new_storage-public_url}
use banana_talk.Storage.{
  Storage, S3Client, Settings, trim_slashes, to_lower, ascii, public_url, s3_storage, s3_or_none,
  new_storage, path_escape, escape_char, escape_byte, hex_digit, is_kept,
}

abbrev kind_client : S3Client (Unit {0})
kind_client = record {
  State = Unit;
  put_object = λ put st. (true, st);
  presign_get_object = λ bucket key ttl st. none;
}

abbrev settings : Settings
settings = record { provider = "S3"; bucket = "shots"; public_url_base = "https://cdn.example//" }

chosen : Storage (Unit {0})
chosen = s3_storage kind_client "shots" "https://cdn.example"

chooses : new_storage settings (some kind_client) none ≡ some chosen
unfolding chosen new_storage s3_or_none to_lower ascii trim_slashes
chooses = refl

escapes : path_escape "reports/ä 1" ≡ "reports%2F%C3%A4%201"
unfolding path_escape escape_char escape_byte hex_digit ascii is_kept
escapes = refl

prefix_set : (trim_slashes settings.public_url_base == "") ≡ false
unfolding trim_slashes
prefix_set = refl

no_state : chosen.State
unfolding chosen s3_storage
no_state = tt

new_storage-public_url_example :
    (((chosen.upload "k.png" "image/png" tt 3 no_state).0 ≡ none)
      ⊎ ((chosen.upload "k.png" "image/png" tt 3 no_state).0
          ≡ some (public_url (trim_slashes settings.public_url_base) "k.png")))
    × (chosen.sign "k.png" 60 no_state
        ≡ some (public_url (trim_slashes settings.public_url_base) "k.png"))
new_storage-public_url_example =
    new_storage-public_url settings (some kind_client) none chooses prefix_set "k.png" "image/png"
      tt 3 60 no_state no_state
