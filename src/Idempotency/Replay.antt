-- ===== src/Idempotency/Replay.antt =====
-- Requests that come again.
use appointment_voice_saas.Common.{
  ℕ, ◌+◌, ◌≤◌, ◌<◌, String, Option, none, some, List, [], ◌∷◌, Bool, true, false, ◌||◌, any_of,
  find_by, same_text, same_text_refl, ◌≡◌, refl, ◌∙◌, Bool-cases, inl, inr, arith,
}
use appointment_voice_saas.Tables.{Db, IdempotencyRecord}
use appointment_voice_saas.Errors.{Error, Result, ok, err}
use appointment_voice_saas.Session.{Session, ◌>>=◌}
use appointment_voice_saas.Env.{Env}
use appointment_voice_saas.Idempotency.{
  seconds, is_live, get_cached_response, with_raced_responses, or_integrity_error, stored_before,
  insert_response, store_response, begin_idempotent_request,
}

module _ (env : Env) (later : ℕ) (key : String) (on : env.now ≤ later) where
  abbrev later_env : Env
  later_env = record env { now = later }

  ok_some : {x r : IdempotencyRecord} → ok x ≡ ok r → some x ≡ some r
  ok_some e = cc

  unsome : {x r : IdempotencyRecord} → some x ≡ some r → x.expires_at ≡ r.expires_at
  unsome e = cc

  -- The record that is found now is found later, if it lives on.
  found_later :
      (rows : List IdempotencyRecord) (r : IdempotencyRecord)
      → find_by (is_live env key) rows ≡ some r
      → later < r.expires_at
      → find_by (is_live later_env key) rows ≡ some r
  found_later [] r h lives = cc
  found_later (x ∷ rows) r h lives = elim (Bool-cases (is_live env key x)) [
    | inl hit ↦
        let same : some x ≡ some r = rw hit at h in
        let its_end : x.expires_at ≡ r.expires_at = unsome same in
        let then_too : is_live later_env key x ≡ true = ground (arith, hit, its_end, lives) in
        rw then_too same
    | inr miss ↦
        let then_too : is_live later_env key x ≡ false = ground arith in
        rw then_too (found_later rows r (rw miss at h) lives)
  ]

  -- What a call that returns a record has left for a request that comes later.
  record Kept (p : Result IdempotencyRecord × Session) : Type 0 where
    kept :
        (r : IdempotencyRecord)
        → p.0 ≡ ok r
        → later < r.expires_at
        → get_cached_response later_env p.1.db key ≡ some r

  Kept-or_integrity_error :
      (o : Option IdempotencyRecord) (s : Session)
      → get_cached_response env s.db key ≡ o
      → Kept (or_integrity_error o s)
  unfolding get_cached_response ◌>>=◌
  Kept-or_integrity_error none s h = record { kept = λ r e lives. absurd (raised e) }
    where
      raised : {e : Error} {r : IdempotencyRecord} → err e ≡ ok r → ⊥
      raised q = cc
  Kept-or_integrity_error (some x) s h = record {
    kept = λ r e lives. found_later s.db.idempotency_records r (h ∙ ok_some e) lives;
  }

Kept-insert_response :
    (env : Env) (later : ℕ) (on : env.now ≤ later) (row : IdempotencyRecord) (s : Session)
    → Kept env later row.scope_key on (insert_response env row s)
unfolding insert_response stored_before get_cached_response ◌>>=◌
Kept-insert_response env later on row s =
    let taken : IdempotencyRecord → Bool = λ r. same_text r.scope_key row.scope_key in
    elim (Bool-cases (any_of taken env.raced_responses || any_of taken s.db.idempotency_records)) [
      | inl there ↦
          let after : Db = with_raced_responses env s.committed in
          rw there (
            Kept-or_integrity_error env later row.scope_key on _
              (record s { db = after; committed = after }) refl)
      | inr free ↦ rw free (record {
        kept = λ r e lives.
            let its_end =
              unsome env later row.scope_key on (ok_some env later row.scope_key on e) in
            let live : is_live (record env { now = later }) row.scope_key row ≡ true =
              ground (arith, same_text_refl row.scope_key, its_end, lives) in
            rw live (ok_some env later row.scope_key on e);
      })
    ]

-- Once a response has been stored under a key, or one that was stored before it was found there, a
-- request under that key that comes before that response runs out gets it, takes no lock and changes
-- nothing, whatever response it would have made itself.
pub begin_idempotent_request-store_response :
    (env : Env) (later : ℕ) (scope_key : String) (status_code : ℕ) (response_body : String)
    (s : Session) (r : IdempotencyRecord)
    → (store_response env scope_key status_code response_body s).0 ≡ ok r
    → env.now ≤ later
    → later < r.expires_at
    → let after = (store_response env scope_key status_code response_body s).1 in
      begin_idempotent_request (record env { now = later }) scope_key after
      ≡ (ok (some r, false), after)
unfolding store_response begin_idempotent_request ◌>>=◌
begin_idempotent_request-store_response env later scope_key status_code response_body s r stored on
      lives =
    let row : IdempotencyRecord = record {
      id = s.next_id;
      scope_key = scope_key;
      status_code = status_code;
      response_body = response_body;
      expires_at = env.now + seconds env.idempotency_ttl_seconds;
    } in
    let cached =
      (Kept-insert_response env later on row (record s { next_id = s.next_id + 1 })).kept r stored
        lives in
    rw cached
