-- ===== src/Tests/Requests.antt =====
-- Two requests under one key.
use appointment_voice_saas.Common.{◌+◌, some, [], ◌∷◌, false, ◌≡◌, refl, arith}
use appointment_voice_saas.Tables.{Db, IdempotencyRecord}
use appointment_voice_saas.Errors.{ok, err, integrity_error, idempotency_records_scope_key_key}
use appointment_voice_saas.Session.{◌>>=◌}
use appointment_voice_saas.Idempotency.{
  seconds, get_cached_response, insert_response, stored_before, store_response,
  begin_idempotent_request,
}
use appointment_voice_saas.Idempotency.Replay.{begin_idempotent_request-store_response}
use appointment_voice_saas.Tests.Samples.{env, session, tables, at}

abbrev accepted : IdempotencyRecord
accepted = record {
  id = 10;
  scope_key = "webhooks:1";
  status_code = 200;
  response_body = "{}";
  expires_at = at 8 0 + seconds 86400;
}

accepted_stored : (store_response env "webhooks:1" 200 "{}" session).0 ≡ ok accepted
unfolding store_response insert_response ◌>>=◌
accepted_stored = refl

begin_idempotent_request-store_response_example :
    let after = (store_response env "webhooks:1" 200 "{}" session).1 in
    begin_idempotent_request (record env { now = at 9 0 }) "webhooks:1" after
    ≡ (ok (some accepted, false), after)
begin_idempotent_request-store_response_example =
    begin_idempotent_request-store_response env (at 9 0) "webhooks:1" 200 "{}" session accepted
      accepted_stored (omega arith) (omega arith)

-- A record that has run out and was not cleaned up yet is in the way of the next response.
abbrev run_out : Db
run_out = record tables { idempotency_records = record accepted { expires_at = at 7 0 } ∷ [] }

second_response_lost :
    (store_response env "webhooks:1" 200 "{}"
      (record session { db = run_out; committed = run_out })).0
    ≡ err (integrity_error idempotency_records_scope_key_key)
unfolding store_response insert_response stored_before get_cached_response ◌>>=◌
second_response_lost = refl
