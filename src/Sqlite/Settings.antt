-- ===== src/Sqlite/Settings.antt =====
-- client/internal/sqlite/user_settings.go: what is read after a write.
use secure_messager_erlang.Prelude.{◌≡◌, ◌≢◌, sym, arith, [], ◌∷◌, Bytes}
use secure_messager_erlang.Outcome.{ok}
use secure_messager_erlang.Crypt.{KeyPair}
use secure_messager_erlang.Sqlite.{
  Storage, Setting, set_setting, get_setting, public_key, private_key, username, password, blob,
  key, run_twice, get_two, set_user_key_pair, get_user_key_pair, set_login_data, get_login_data,
}

-- What SQLite documents of the two statements on `user_settings`, where `key` is the primary key:
-- "INSERT OR REPLACE" leaves the new value at its key and the other rows as they are.
pub record SettingLaws {D : Type 0} (s : Storage D) : Type 0 where
  pub replaced :
      (d d' : D) (k : Setting) (v : Bytes)
      → s.exec d set_setting (key k ∷ blob v ∷ []) ≡ (d', ok tt)
      → s.query_row d' get_setting (key k ∷ []) ≡ ok (blob v)
  pub kept :
      (d d' : D) (k j : Setting) (v : Bytes)
      → k ≢ j
      → s.exec d set_setting (key k ∷ blob v ∷ []) ≡ (d', ok tt)
      → s.query_row d' get_setting (key j ∷ []) ≡ s.query_row d get_setting (key j ∷ [])
  pub scan-blob : (v : Bytes) → s.scan (blob v) ≡ ok v
  pub readable : (d : D) → s.prepare d get_setting ≡ ok tt

module _ {D : Type 0} (s : Storage D) (laws : SettingLaws s) where
  -- A successful pair of writes went through a database in between.
  run_twice_ok :
      (d d' : D) (k j : Setting) (a b : Bytes)
      → run_twice s d set_setting (key k ∷ blob a ∷ []) (key j ∷ blob b ∷ []) ≡ (d', ok tt)
      → (d1 : D) × (s.exec d set_setting (key k ∷ blob a ∷ []) ≡ (d1, ok tt))
        × (s.exec d1 set_setting (key j ∷ blob b ∷ []) ≡ (d', ok tt))
  run_twice_ok d d' k j a b h =
      let first = s.exec d set_setting (key k ∷ blob a ∷ []) in
      (first.0, ground arith, ground arith)

  get_two-run_twice :
      (d d' : D) (k j : Setting) (a b : Bytes)
      → k ≢ j
      → run_twice s d set_setting (key k ∷ blob a ∷ []) (key j ∷ blob b ∷ []) ≡ (d', ok tt)
      → get_two s d' k j ≡ ok (a, b)
  get_two-run_twice d d' k j a b other h =
      let (d1, first, second) = run_twice_ok d d' k j a b h in
      ground (
        arith,
        laws.replaced d d1 k a first,
        laws.kept d1 d' j k b (λ e. other (sym e)) second,
        laws.replaced d1 d' j b second,
        laws.scan-blob a,
        laws.scan-blob b,
        laws.readable d',
      )

  -- A key pair that was stored without an error is read again.
  pub get_user_key_pair-set_user_key_pair :
      (d d' : D) (k : KeyPair)
      → set_user_key_pair s d k ≡ (d', ok tt)
      → get_user_key_pair s d' ≡ ok k
  unfolding set_user_key_pair get_user_key_pair
  get_user_key_pair-set_user_key_pair d d' k h =
      ground (
        arith,
        get_two-run_twice d d' public_key private_key k.public_key k.private_key (λ e. cc) h,
      )

  -- So are the login data, and they leave the key pair as it is.
  pub get_login_data-set_login_data :
      (d d' : D) (user_id password_bytes : Bytes)
      → set_login_data s d user_id password_bytes ≡ (d', ok tt)
      → (get_login_data s d' ≡ ok (user_id, password_bytes))
        × (get_two s d' public_key private_key ≡ get_two s d public_key private_key)
  unfolding set_login_data get_login_data
  get_login_data-set_login_data d d' user_id password_bytes h =
      let (d1, first, second) = run_twice_ok d d' username password user_id password_bytes h in
      (
        get_two-run_twice d d' username password user_id password_bytes (λ e. cc) h,
        ground (
          arith,
          laws.kept d d1 username public_key user_id (λ e. cc) first,
          laws.kept d d1 username private_key user_id (λ e. cc) first,
          laws.kept d1 d' password public_key password_bytes (λ e. cc) second,
          laws.kept d1 d' password private_key password_bytes (λ e. cc) second,
          laws.readable d,
          laws.readable d',
        ),
      )
