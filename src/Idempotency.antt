-- ===== src/Idempotency.antt =====
-- app/services/idempotency_service.py: one answer for all requests under one key. What json.dumps
-- makes of a response body is passed in as a text.
pub mod Replay
use Prim.Native.String as Text
use appointment_voice_saas.Common.{
  ℕ, ◌+◌, ◌*◌, String, Option, none, some, List, [], ◌∷◌, ◌++◌, Bool, true, false, not, ◌&&◌, ◌||◌,
  ltb, any_of, find_by, filter_by, length, same_text, is_space, strip_of, if◌then◌else◌,
}
use appointment_voice_saas.Tables.{Db, IdempotencyRecord}
use appointment_voice_saas.Errors.{
  Error, Result, ok, err, bad_request, conflict, integrity_error, idempotency_records_scope_key_key,
}
use appointment_voice_saas.Session.{
  Session, Action, pure, raise, query, modify, fresh_id, commit, ◌>>=◌, ◌>>◌,
}
use appointment_voice_saas.Env.{Env}

-- timedelta(seconds=n)
abbrev pub seconds : ℕ → ℕ
seconds n = n * 1000000

abbrev pub joined : String → String → String
joined scope text = Text.◌++◌ scope (Text.◌++◌ ":" text)

-- `if not normalized_key: raise BadRequestError`
abbrev pub scope_key_of : Env → String → String → Result String
scope_key_of env scope String.[] = err (bad_request "Idempotency-Key header is required")
scope_key_of env scope (String.◌∷◌ c key) =
    ok (joined scope (env.sha256 (joined scope (String.◌∷◌ c key))))

unfoldable pub build_scope_key : Env → String → String → Result String
build_scope_key env scope idempotency_key =
    scope_key_of env scope (strip_of is_space idempotency_key)

abbrev pub idempotency_lock_key : String → String
idempotency_lock_key scope_key = Text.◌++◌ "idempotency:processing:" scope_key

-- SET key NX EX: a key that has run out counts as unset.
abbrev pub is_locked_now : Env → String → Session → Bool
is_locked_now env key s =
    any_of (λ (lock : String × ℕ). same_text lock.0 key && ltb env.now lock.1) s.locks

abbrev pub without_lock : String → List (String × ℕ) → List (String × ℕ)
without_lock key locks = filter_by (λ (lock : String × ℕ). not (same_text lock.0 key)) locks

unfoldable pub try_acquire_idempotency_lock : Env → String → Action Bool
try_acquire_idempotency_lock env scope_key s =
    let key = idempotency_lock_key scope_key in
    if is_locked_now env key s
    then pure false s
    else pure true (record s {
      locks =
          (key, env.now + seconds env.idempotency_processing_lock_ttl_seconds)
          ∷ without_lock key s.locks;
    })

unfoldable pub release_idempotency_lock : String → Action (Unit {0})
release_idempotency_lock scope_key s =
    pure tt (record s { locks = without_lock (idempotency_lock_key scope_key) s.locks })

abbrev pub is_live : Env → String → IdempotencyRecord → Bool
is_live env scope_key r = same_text r.scope_key scope_key && ltb env.now r.expires_at

unfoldable pub get_cached_response : Env → Db → String → Option IdempotencyRecord
get_cached_response env db scope_key = find_by (is_live env scope_key) db.idempotency_records

abbrev pub add_response : IdempotencyRecord → Db → Db
add_response row db = record db { idempotency_records = row ∷ db.idempotency_records }

-- The rows of other requests, which the queries of the next transaction see.
abbrev pub with_raced_responses : Env → Db → Db
with_raced_responses env db = record db {
  idempotency_records = db.idempotency_records ++ env.raced_responses;
}

-- `if existing_record is None: raise`
abbrev pub or_integrity_error : Option IdempotencyRecord → Action IdempotencyRecord
or_integrity_error none = raise (integrity_error idempotency_records_scope_key_key)
or_integrity_error (some existing_record) = pure existing_record

unfoldable pub stored_before : Env → String → Action IdempotencyRecord
unfolding get_cached_response
stored_before env scope_key s =
    let after = with_raced_responses env s.committed in
    or_integrity_error (get_cached_response env after scope_key)
      (record s { db = after; committed = after })

-- db.add(record); try: db.commit(); except IntegrityError: ...
unfoldable pub insert_response : Env → IdempotencyRecord → Action IdempotencyRecord
unfolding stored_before
insert_response env row s =
    let taken = λ (r : IdempotencyRecord). same_text r.scope_key row.scope_key in
    if any_of taken env.raced_responses || any_of taken s.db.idempotency_records
    then stored_before env row.scope_key s
    else (let after = add_response row s.db in
        pure row (record s { db = after; committed = after }))

unfoldable pub store_response : Env → String → ℕ → String → Action IdempotencyRecord
unfolding insert_response
store_response env scope_key status_code response_body = do
  id ← fresh_id
  insert_response env (record {
    id = id;
    scope_key = scope_key;
    status_code = status_code;
    response_body = response_body;
    expires_at = env.now + seconds env.idempotency_ttl_seconds;
  })

abbrev pub after_lock : Option IdempotencyRecord → Action (Option IdempotencyRecord × Bool)
after_lock none = raise (conflict "Duplicate request is already in progress")
after_lock (some cached_record) = pure (some cached_record, false)

abbrev pub begin_uncached : Env → String → Action (Option IdempotencyRecord × Bool)
begin_uncached env scope_key = do
  acquired ← try_acquire_idempotency_lock env scope_key
  if acquired
      then pure (none, true)
      else query (λ db. get_cached_response env db scope_key) >>= after_lock

abbrev pub begin_found :
    Env → String → Option IdempotencyRecord → Action (Option IdempotencyRecord × Bool)
begin_found env scope_key none = begin_uncached env scope_key
begin_found env scope_key (some cached_record) = pure (some cached_record, false)

unfoldable pub begin_idempotent_request : Env → String → Action (Option IdempotencyRecord × Bool)
unfolding get_cached_response try_acquire_idempotency_lock
begin_idempotent_request env scope_key = do
  cached_record ← query (λ db. get_cached_response env db scope_key)
  begin_found env scope_key cached_record

unfoldable pub cleanup_expired_idempotency_records : Env → Action ℕ
cleanup_expired_idempotency_records env = do
  expired ←
      query (λ db.
        filter_by (λ (r : IdempotencyRecord). ltb r.expires_at env.now) db.idempotency_records)
  modify (λ db. record db {
    idempotency_records =
        filter_by (λ (r : IdempotencyRecord). not (ltb r.expires_at env.now))
          db.idempotency_records;
  })
  commit
  pure (length expired)
