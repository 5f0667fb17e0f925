-- ===== src/Waitlist/Expiry.antt =====
-- app/services/waitlist_service.py: offers that nobody has answered in time.
pub mod Offers
use appointment_voice_saas.Common.{
  ℕ, ◌+◌, Option, none, some, List, [], ◌∷◌, ◌++◌, Bool, true, false, not, ◌&&◌, leb, length,
  filter_by,
}
use appointment_voice_saas.Tables.{
  Db, WaitlistEntry, WaitlistEntryStatus, NotificationOutbox, is_offered, minutes,
}
use appointment_voice_saas.Lookups.{
  require_business, require_customer_in_business, require_service_in_business,
}
use appointment_voice_saas.Session.{Action, pure, read, query, modify, commit, ◌>>=◌, ◌>>◌}
use appointment_voice_saas.Env.{Env}
use appointment_voice_saas.Outbox.{enqueue_waitlist_offer, enqueue_all}
use appointment_voice_saas.Waitlist.{find_matching_waitlist_entries, offer_entry}
use appointment_voice_saas.Waitlist.Entries.{update_entry, with_status}

-- The filter of `_lock_stale_offered_entries`, which skips rows that another transaction has locked.
abbrev pub is_stale_offer : Env → WaitlistEntry → Bool
is_stale_offer env e =
    is_offered e.status
    && leb (e.updated_at + minutes env.waitlist_offer_timeout_minutes) env.now
    && not (env.is_locked e.id)

-- candidates[0], offered the slot of the expired entry
abbrev pub offer_next : Env → WaitlistEntry → List WaitlistEntry → Action (List NotificationOutbox)
offer_next env expired_entry [] = pure []
offer_next env expired_entry (next_entry ∷ others) = do
  modify (offer_entry env next_entry.id expired_entry.offered_for_staff_id)
  business ← read (λ db. require_business db next_entry.business_id next_entry.tenant_id)
  customer ← read (λ db.
      require_customer_in_business db next_entry.customer_id next_entry.business_id
        next_entry.tenant_id)
  service ← read (λ db.
      require_service_in_business db next_entry.service_id next_entry.business_id
        next_entry.tenant_id)
  intent ← enqueue_waitlist_offer env next_entry business customer service
  pure (intent ∷ [])

-- _escalate_to_next_waiting_entry
unfoldable pub escalate_to_next_waiting_entry :
    Env → WaitlistEntry → Action (List NotificationOutbox)
escalate_to_next_waiting_entry env expired_entry = do
  candidates ← query (λ db.
      find_matching_waitlist_entries env db expired_entry.business_id expired_entry.tenant_id
        expired_entry.service_id expired_entry.desired_date expired_entry.offered_for_staff_id true)
  offer_next env expired_entry candidates

unfoldable pub expire_offers : Env → List WaitlistEntry → Action (List NotificationOutbox)
unfolding escalate_to_next_waiting_entry
expire_offers env [] = pure []
expire_offers env (entry ∷ rest) = do
  modify (update_entry entry.id (with_status env WaitlistEntryStatus.expired))
  intents ← escalate_to_next_waiting_entry env entry
  later ← expire_offers env rest
  pure (intents ++ later)

-- if not stale_entries: return 0
abbrev pub expire_found : Env → List WaitlistEntry → Action ℕ
expire_found env [] = pure 0
expire_found env (entry ∷ rest) = do
  intents ← expire_offers env (entry ∷ rest)
  commit
  enqueue_all intents
  pure (length (entry ∷ rest))

unfoldable pub expire_stale_waitlist_offers : Env → Action ℕ
unfolding expire_offers
expire_stale_waitlist_offers env = do
  stale_entries ← query (λ db. filter_by (is_stale_offer env) db.waitlist)
  expire_found env stale_entries
