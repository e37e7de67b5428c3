-- ===== src/Storage/Public.antt =====
-- What both storages of backend/storage.go promise for a bucket that is public.
use Prim.Native.String.{String}
use banana_talk.Prelude.{
  ℕ, ◌≡◌, refl, ap, subst, ◌⊎◌, inl, inr, Bool, true, false, Option, none, some, ◌==◌, Bool-cases,
}
use banana_talk.Storage.{
  Storage, S3Client, GcsClient, Settings, trim_slashes, to_lower, public_url, put_done, s3_upload,
  s3_sign, s3_storage, closed, copied, gcs_upload, gcs_sign, gcs_storage, s3_or_none, gcs_or_none,
  new_storage,
}

module _ {Body : Type 0} where
  -- An upload gives the public address or fails, and signing gives that address.
  abbrev IsPublic : Storage Body → String → Type 0
  IsPublic s prefix =
      (key content_type : String) (body : Body) (size ttl : ℕ) (st st' : s.State)
      → (((s.upload key content_type body size st).0 ≡ none)
          ⊎ ((s.upload key content_type body size st).0 ≡ some (public_url prefix key)))
        × (s.sign key ttl st' ≡ some (public_url prefix key))

  s3_storage-IsPublic :
      (client : S3Client Body) (bucket prefix : String)
      → (prefix == "") ≡ false
      → IsPublic (s3_storage client bucket prefix) prefix
  unfolding s3_storage s3_upload s3_sign put_done
  s3_storage-IsPublic client bucket prefix h key content_type body size ttl st st' =
      (go (client.put_object _ st), rw h refl)
    where
      go :
          (x : Bool × client.State)
          → ((put_done client bucket prefix key x).0 ≡ none)
            ⊎ ((put_done client bucket prefix key x).0 ≡ some (public_url prefix key))
      go (false, st1) = inl refl
      go (true, st1) = inr (rw h refl)

  gcs_storage-IsPublic :
      (client : GcsClient Body) (now : client.State → ℕ) (bucket prefix : String)
      → (prefix == "") ≡ false
      → IsPublic (gcs_storage client now bucket prefix) prefix
  unfolding gcs_storage gcs_upload gcs_sign copied closed
  gcs_storage-IsPublic client now bucket prefix h key content_type body size ttl st st' =
      (go (client.copy bucket key content_type body st), rw h refl)
    where
      ended :
          (x : Bool × client.State)
          → ((closed client now bucket prefix key x).0 ≡ none)
            ⊎ ((closed client now bucket prefix key x).0 ≡ some (public_url prefix key))
      ended (false, st1) = inl refl
      ended (true, st1) = inr (rw h refl)

      go :
          (x : Bool × client.State)
          → ((copied client now bucket prefix key x).0 ≡ none)
            ⊎ ((copied client now bucket prefix key x).0 ≡ some (public_url prefix key))
      go (false, st1) = inl refl
      go (true, st1) = ended (client.close bucket key st1)

  some_inj : {x y : Storage Body} → some x ≡ some y → x ≡ y
  some_inj {x} e = ap (elim [ none ↦ x | some z ↦ z ]) e

  none_ne : {x : Storage Body} → none ≡ some x → ⊥
  none_ne e = cc

  -- Whichever storage the settings choose, if STORAGE_PUBLIC_URL_BASE has more than slashes: an upload
  -- of a key fails or gives the base without its last slashes, a slash and the key, and signing the
  -- key, at any time, gives that same address.
  pub new_storage-public_url :
      (c : Settings) (s3 : Option (S3Client Body))
      (gcs : Option ((client : GcsClient Body) × (client.State → ℕ))) {s : Storage Body}
      → new_storage c s3 gcs ≡ some s
      → (trim_slashes c.public_url_base == "") ≡ false
      → (key content_type : String) (body : Body) (size ttl : ℕ) (st st' : s.State)
      → (((s.upload key content_type body size st).0 ≡ none)
          ⊎ ((s.upload key content_type body size st).0
              ≡ some (public_url (trim_slashes c.public_url_base) key)))
        × (s.sign key ttl st' ≡ some (public_url (trim_slashes c.public_url_base) key))
  unfolding new_storage s3_or_none gcs_or_none
  new_storage-public_url c s3 gcs {s} h base = elim (Bool-cases (c.bucket == "")) [
    | inl unset ↦ absurd (none_ne (rw unset at h))
    | inr set ↦ elim (Bool-cases (to_lower c.provider == "s3")) [
      | inl amazon ↦ from_s3 s3 (rw (set, amazon) at h)
      | inr other ↦ elim (Bool-cases (to_lower c.provider == "gcs")) [
        | inl google ↦ from_gcs gcs (rw (set, other, google) at h)
        | inr unknown ↦ absurd (none_ne (rw (set, other, unknown) at h))
      ]
    ]
  ]
    where
      from_s3 :
          (x : Option (S3Client Body))
          → s3_or_none c x ≡ some s
          → IsPublic s (trim_slashes c.public_url_base)
      from_s3 none e = absurd (cc e)
      from_s3 (some client) e =
          subst (λ z. IsPublic z (trim_slashes c.public_url_base)) (some_inj e)
            (s3_storage-IsPublic client c.bucket (trim_slashes c.public_url_base) base)

      from_gcs :
          (x : Option ((client : GcsClient Body) × (client.State → ℕ)))
          → gcs_or_none c x ≡ some s
          → IsPublic s (trim_slashes c.public_url_base)
      from_gcs none e = absurd (cc e)
      from_gcs (some (client, now)) e =
          subst (λ z. IsPublic z (trim_slashes c.public_url_base)) (some_inj e)
            (gcs_storage-IsPublic client now c.bucket (trim_slashes c.public_url_base) base)
