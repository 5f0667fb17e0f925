-- ===== src/Outbox/Fate.antt =====
-- What becomes of a message, without the table that it is kept in: the abstract side of
-- `send_notification_in_worker`.
use mathlib.Core.Path.{subst}
use appointment_voice_saas.Common.{
  ℕ, ◌+◌, String, Option, some, List, [], ◌∷◌, ◌≡◌, refl, sym, ◌∙◌, leb, find_by,
  find_by-update_where, find_by_holds, update_where, ==_iff, ap, if◌then◌else◌, Bool-cases, inl,
  inr,
}
use appointment_voice_saas.Tables.{Db, NotificationOutbox, NotificationStatus}
use appointment_voice_saas.Session.{Session, pure, ◌>>=◌}
use appointment_voice_saas.Env.{Env}
use appointment_voice_saas.Outbox.Delivery.{
  SmsSendResult, SmsProvider, notification_is_pending, is_notification, sent_row, unsent_row,
  is_last_attempt, record_result, deliver, send_notification_in_worker,
}

-- The number of attempts made, and how it stands.
pub data Fate : Type 0 where
  waiting given_up : ℕ → Fate
  delivered : ℕ → Option String → Fate

-- A waiting message is tried; the third failure is the last. A settled one is left alone.
abbrev pub next_fate : SmsSendResult → Fate → Fate
next_fate result (waiting n) =
    if result.success
    then delivered (n + 1) result.provider_message_id
    else if leb 3 (n + 1)
    then given_up (n + 1)
    else waiting (n + 1)
next_fate result (given_up n) = given_up n
next_fate result (delivered n message_id) = delivered n message_id

abbrev pub fate_by : NotificationStatus → NotificationOutbox → Fate
fate_by NotificationStatus.pending n = waiting n.attempts
fate_by NotificationStatus.sent n = delivered n.attempts n.provider_message_id
fate_by NotificationStatus.failed n = given_up n.attempts

abbrev pub fate_of : NotificationOutbox → Fate
fate_of n = fate_by n.status n

-- The row of the message in a table is the one that stands for this fate, phone and text.
pub record Stands (i : ℕ) (phone body : String) (fate : Fate) (db : Db) : Type 0 where
  pub row : NotificationOutbox
  pub found : find_by (is_notification i) db.outbox ≡ some row
  pub its_phone : row.recipient_phone ≡ phone
  pub its_body : row.body ≡ body
  pub its_fate : fate_of row ≡ fate

-- The worker's runs for one message, one for each provider's answer. A run that raises is tried
-- again in a new session.
abbrev pub runs : Env → ℕ → List SmsProvider → Session → Session
runs env i [] s = s
runs env i (sms_provider ∷ rest) s =
    let after = (send_notification_in_worker env sms_provider i s).1 in
    runs env i rest (record after { db = after.committed })

abbrev pub fates : List SmsProvider → String → String → Fate → Fate
fates [] phone body fate = fate
fates (sms_provider ∷ rest) phone body fate =
    fates rest phone body (next_fate (sms_provider phone body) fate)

module _ (env : Env) (i : ℕ) (phone body : String) (s : Session) (row : NotificationOutbox)
    (found : find_by (is_notification i) s.db.outbox ≡ some row)
    (its_phone : row.recipient_phone ≡ phone) (its_body : row.body ≡ body) where
  changed :
      (f : NotificationOutbox → NotificationOutbox)
      → ((n : NotificationOutbox) → (f n).id ≡ n.id)
      → find_by (is_notification i) (update_where (is_notification row.id) f s.db.outbox)
        ≡ some (f row)
  changed f keeps =
      let same : row.id ≡ i =
        (==_iff row.id i).0 (find_by_holds (is_notification i) s.db.outbox row found) in
      subst
        (λ (k : ℕ).
          find_by (is_notification i) (update_where (is_notification k) f s.db.outbox)
          ≡ some (f row))
        (sym same)
        (find_by-update_where (is_notification i) f s.db.outbox row (λ n. rw (keeps n)) found)

  Stands-record_result :
      (result : SmsSendResult)
      → row.status ≡ NotificationStatus.pending
      → Stands i phone body
          (next_fate result (waiting row.attempts))
          (record_result env row result s).1.committed
  unfolding record_result ◌>>=◌
  Stands-record_result result pending = elim (Bool-cases result.success) [
    | inl sent ↦ rw sent (record {
      row = sent_row env result row;
      found = changed (sent_row env result) (λ n. refl);
      its_phone = its_phone;
      its_body = its_body;
      its_fate = refl;
    })
    | inr unsent ↦ rw unsent (elim (Bool-cases (is_last_attempt row)) [
      | inl last ↦ rw last (record {
        row = unsent_row result row;
        found = changed (unsent_row result) (λ n. refl);
        its_phone = its_phone;
        its_body = its_body;
        its_fate = rw last refl;
      })
      | inr more ↦ rw more (record {
        row = unsent_row result row;
        found = changed (unsent_row result) (λ n. refl);
        its_phone = its_phone;
        its_body = its_body;
        its_fate = rw (more, pending) refl;
      })
    ])
  ]

  kept :
      (fate : Fate) → fate_of row ≡ fate → s.db ≡ s.committed → Stands i phone body fate s.committed
  kept fate its_fate clean =
      subst (λ (db : Db). Stands i phone body fate db) clean
        (record {
          row = row;
          found = found;
          its_phone = its_phone;
          its_body = its_body;
          its_fate = its_fate;
        })

  Stands-by_status :
      (result : SmsSendResult) (status : NotificationStatus)
      → row.status ≡ status
      → s.db ≡ s.committed
      → Stands i phone body
          (next_fate result (fate_by status row))
          ((if notification_is_pending status then record_result env row result else pure tt)
            s).1.committed
  unfolding ◌>>=◌
  Stands-by_status result NotificationStatus.pending standing clean =
      Stands-record_result result standing
  Stands-by_status result NotificationStatus.sent standing clean =
      kept _ (ap (λ (t : NotificationStatus). fate_by t row) standing) clean
  Stands-by_status result NotificationStatus.failed standing clean =
      kept _ (ap (λ (t : NotificationStatus). fate_by t row) standing) clean

  Stands-deliver :
      (sms_provider : SmsProvider)
      → s.db ≡ s.committed
      → Stands i phone body
          (next_fate (sms_provider phone body) (fate_of row))
          (deliver env sms_provider (some row) s).1.committed
  unfolding deliver
  Stands-deliver sms_provider clean =
      subst
        (λ (result : SmsSendResult).
          Stands i phone body (next_fate result (fate_of row))
            (deliver env sms_provider (some row) s).1.committed)
        (ap (λ (to : String). sms_provider to row.body) its_phone
          ∙ ap (λ (text : String). sms_provider phone text) its_body)
        (Stands-by_status (sms_provider row.recipient_phone row.body) row.status refl clean)

pub Stands-send_notification_in_worker :
    (env : Env) (sms_provider : SmsProvider) (i : ℕ) (phone body : String) (fate : Fate)
    (s : Session)
    → s.db ≡ s.committed
    → Stands i phone body fate s.committed
    → Stands i phone body
        (next_fate (sms_provider phone body) fate)
        (send_notification_in_worker env sms_provider i s).1.committed
unfolding send_notification_in_worker ◌>>=◌
Stands-send_notification_in_worker env sms_provider i phone body fate s clean h =
    let found : find_by (is_notification i) s.db.outbox ≡ some h.row = rw clean h.found in
    let step =
      Stands-deliver env i phone body s h.row found h.its_phone h.its_body sms_provider clean in
    rw (found, ← h.its_fate) step

-- The runs of the worker for one message, whatever the provider answers and however often a run is
-- made, leave it with the fate that the answers lead to: it is tried until an answer is a success
-- or the third failure, and never again.
pub Stands-runs :
    (env : Env) (i : ℕ) (sends : List SmsProvider) (phone body : String) (fate : Fate) (s : Session)
    → s.db ≡ s.committed
    → Stands i phone body fate s.committed
    → Stands i phone body (fates sends phone body fate) (runs env i sends s).committed
Stands-runs env i [] phone body fate s clean h = h
Stands-runs env i (sms_provider ∷ rest) phone body fate s clean h =
    let after : Session = (send_notification_in_worker env sms_provider i s).1 in
    Stands-runs env i rest phone body (next_fate (sms_provider phone body) fate)
      (record after { db = after.committed }) refl
      (Stands-send_notification_in_worker env sms_provider i phone body fate s clean h)
