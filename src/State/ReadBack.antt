-- ===== src/State/ReadBack.antt =====
-- The readers of the base and of the expected echoes, after their writers.
use remote_sandbox_cli.Base.{
  ◌≡◌, refl, ◌∙◌, Bool, true, false, Option, none, some, if◌then◌else◌, ◌==◌, Text, text_eq,
  eq_refl, eq→path, ℕ,
}
use remote_sandbox_cli.Base.Dict.{lookup, insert, erase, lookup-insert, lookup-erase}
use remote_sandbox_cli.Base.Result.{ok}
use remote_sandbox_cli.Paths.{normalize_relative_path}
use remote_sandbox_cli.Replica.{Side}
use remote_sandbox_cli.Journal.{EventKey, event_key_eq}
use remote_sandbox_cli.Manifest.{
  EntryFingerprint, FingerprintState, entry, missing, state_path, entry_fingerprint, state_eq,
  missing_entry,
}
use remote_sandbox_cli.Sqlite.{Connection, transaction}
use remote_sandbox_cli.State.Codec.{Payload, encode_fingerprint, encode_expected_echo}
use remote_sandbox_cli.State.Codec.RoundTrip.{decode-encode, rebuilt, decode_expected_echo-encode}
use remote_sandbox_cli.State.Tables.{Db}
use remote_sandbox_cli.State.Bases.{decode_base, get_base, upsert_base, delete_base}
use remote_sandbox_cli.State.Echoes.{
  decode_echo, set_expected_echo, consume_expected_echo, consume_if,
}

-- After a valid fingerprint has been written to the base, reading a path gives that fingerprint if it
-- is one of that path, and what it gave before if not.
pub get_base-upsert_base :
    (e : EntryFingerprint) (c : Connection Db) (p q : Text)
    → entry_fingerprint e ≡ ok e
    → normalize_relative_path p ≡ ok q
    → (get_base p (upsert_base e c).1).0 ≡ (if e.path == q then ok (entry e) else (get_base p c).0)
unfolding get_base upsert_base transaction
get_base-upsert_base e c p q valid n =
    rw (n, lookup-insert q e.path (encode_fingerprint e) c.db.base_entries) (go (e.path == q) refl)
  where
    go :
        (b : Bool)
        → (e.path == q) ≡ b
        → decode_base q (if b then some (encode_fingerprint e) else lookup q c.db.base_entries)
          ≡ (if b then ok (entry e) else decode_base q (lookup q c.db.base_entries))
    go true h = rw (← eq→path e.path q h, decode-encode e, valid)
    go false h = refl

-- After the base has lost a path, reading that path gives what the constructor of a missing entry
-- makes of its normal form, an error included, and reading another path what it gave before.
pub get_base-delete_base :
    (c : Connection Db) (p p' q q' : Text)
    → normalize_relative_path p ≡ ok q
    → normalize_relative_path p' ≡ ok q'
    → (get_base p' (delete_base p c).1).0
      ≡ (if q == q' then missing_entry (some q') else (get_base p' c).0)
unfolding get_base delete_base transaction
get_base-delete_base c p p' q q' n n' =
    rw (n, n', lookup-erase q' q c.db.base_entries) (go (q == q'))
  where
    go :
        (b : Bool)
        → decode_base q' (if b then none else lookup q' c.db.base_entries)
          ≡ (if b then missing_entry (some q') else decode_base q' (lookup q' c.db.base_entries))
    go true = refl
    go false = refl

encoded :
    (s : FingerprintState) (path : Text)
    → state_path s ≡ some path
    → (payload : Payload) × (encode_expected_echo s ≡ ok payload)
unfolding encode_expected_echo
encoded (entry e) path h = (encode_fingerprint e, refl)
encoded (missing none) path h = cc
encoded (missing (some q)) path h = (_, refl)

module _ (now : ℕ) (side : Side) (s : FingerprintState) (path : Text) (c : Connection Db)
    (at_path : state_path s ≡ some path) (valid : rebuilt s ≡ ok s) where
  abbrev announced : Payload → Connection Db
  announced payload = record c {
    db = record c.db { expected_echoes = insert (side, path) (payload, now) c.db.expected_echoes };
  }

  -- The connection once the echo has been consumed.
  abbrev without : Payload → Connection Db
  without payload = record c {
    db = record c.db {
      expected_echoes =
          erase (side, path) (insert (side, path) (payload, now) c.db.expected_echoes);
    };
  }

  set_expected_echo-announced :
      (payload : Payload)
      → encode_expected_echo s ≡ ok payload
      → set_expected_echo now side s c ≡ (ok tt, announced payload)
  unfolding set_expected_echo transaction
  set_expected_echo-announced payload h = rw (at_path, h)

  read_announced :
      (payload : Payload)
      → encode_expected_echo s ≡ ok payload
      → decode_echo path (lookup (side, path) (announced payload).db.expected_echoes) ≡ ok (some s)
  read_announced payload h = rw (
    lookup-insert (side, path) (side, path) (payload, now) c.db.expected_echoes,
    eq_refl {A = EventKey} (side, path),
    decode_expected_echo-encode s path payload at_path h,
    valid,
  )

  consume_at :
      (t : FingerprintState) (d : Connection Db) (found : Option FingerprintState)
      → state_path t ≡ some path
      → decode_echo path (lookup (side, path) d.db.expected_echoes) ≡ ok found
      → consume_expected_echo side t d ≡ transaction (consume_if side path t found) d
  unfolding consume_expected_echo transaction
  consume_at t d found ht h = rw (ht, h)

  consume_announced :
      (payload : Payload) (t : FingerprintState)
      → encode_expected_echo s ≡ ok payload
      → state_path t ≡ some path
      → consume_expected_echo side t (announced payload)
        ≡ (ok (s == t), (if s == t then without payload else announced payload))
  unfolding transaction
  consume_announced payload t h ht =
      consume_at t (announced payload) (some s) ht (read_announced payload h) ∙ go (s == t) refl
    where
      go :
          (b : Bool)
          → (s == t) ≡ b
          → transaction (consume_if side path t (some s)) (announced payload)
            ≡ (ok b, (if b then without payload else announced payload))
      go true e = rw e
      go false e = rw e

  consume_without :
      (payload : Payload) (t : FingerprintState)
      → state_path t ≡ some path
      → (consume_expected_echo side t (without payload)).0 ≡ ok false
  unfolding transaction
  consume_without payload t ht =
      rw
        (consume_at t (without payload) none ht (
          rw
            (
              lookup-erase (side, path) (side, path) (announced payload).db.expected_echoes,
              eq_refl {A = EventKey} (side, path),
            )
            refl))
        refl

  -- Let a state be announced for a side and its path, and let its constructor, given its fields,
  -- give it back unchanged, so that its path is its own normal form. Then consuming a state of that
  -- path succeeds exactly if it is the announced one; the announcement is then gone, and otherwise it
  -- stays. A second attempt with the same state fails in either case.
  pub consume-set_expected_echo :
      (t : FingerprintState)
      → state_path t ≡ some path
      → let c₁ = (set_expected_echo now side s c).1 in
        let after = consume_expected_echo side t c₁ in
        (after.0 ≡ ok (s == t))
        × (lookup (side, path) after.1.db.expected_echoes
            ≡ (if s == t then none else lookup (side, path) c₁.db.expected_echoes))
        × ((consume_expected_echo side t after.1).0 ≡ ok false)
  consume-set_expected_echo t ht =
      let (payload, h) = encoded s path at_path in
      rw (set_expected_echo-announced payload h, consume_announced payload t h ht)
        (refl, gone payload (s == t), again payload h (s == t) refl)
    where
      gone :
          (payload : Payload) (b : Bool)
          → lookup
              (side, path)
              (if b then without payload else announced payload).db.expected_echoes
            ≡ (if b then none else lookup (side, path) (announced payload).db.expected_echoes)
      gone payload true =
          rw
            (
              lookup-erase (side, path) (side, path) (announced payload).db.expected_echoes,
              eq_refl {A = EventKey} (side, path),
            )
            refl
      gone payload false = refl

      again :
          (payload : Payload)
          → encode_expected_echo s ≡ ok payload
          → (b : Bool) → (s == t) ≡ b
          → (consume_expected_echo side t (if b then without payload else announced payload)).0
            ≡ ok false
      again payload h true e = consume_without payload t ht
      again payload h false e = rw (consume_announced payload t h ht) (rw e refl)
