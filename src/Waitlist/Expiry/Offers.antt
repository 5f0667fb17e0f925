-- ===== src/Waitlist/Expiry/Offers.antt =====
-- The messages of a sweep over the unanswered offers, and their jobs.
use mathlib.Core.Path.{subst}
use mathlib.Core.List.{append_assoc, append-nil}
use appointment_voice_saas.Common.{
  ℕ, zero, suc, ◌+◌, ◌≤◌, ◌<◌, ◌⊎◌, inl, inr, Bool, true, false, take, Option, List, [], ◌∷◌, ◌++◌,
  map, ◌≡◌, refl, sym, ◌∙◌, ap, length, length-append, filter_by, arith,
}
use appointment_voice_saas.Tables.{
  Db, WaitlistEntry, WaitlistEntryStatus, NotificationOutbox, Business, Customer, Service,
}
use appointment_voice_saas.Errors.{Error, Result, ok, err, redis_error}
use appointment_voice_saas.Session.{
  Session, JobRequest, send_notification, pure, commit, ◌>>=◌, continue,
}
use appointment_voice_saas.Session.Atomic.{Same}
use appointment_voice_saas.Session.Raises.{after_read, after_modify}
use appointment_voice_saas.Env.{Env}
use appointment_voice_saas.Outbox.{
  insert_intent, enqueue_waitlist_offer, enqueue_all, enqueue_send_notification_job,
}
use appointment_voice_saas.Waitlist.{offer_entry}
use appointment_voice_saas.Waitlist.Entries.{update_entry, with_status}
use appointment_voice_saas.Waitlist.Expiry.{
  is_stale_offer, offer_next, escalate_to_next_waiting_entry, expire_offers, expire_found,
  expire_stale_waitlist_offers,
}

-- These rows, each put in front of the ones before it.
abbrev pub added_in_turn :
    List NotificationOutbox → List NotificationOutbox → List NotificationOutbox
added_in_turn [] rows = rows
added_in_turn (intent ∷ rest) rows = added_in_turn rest (intent ∷ rows)

added_in_turn-append :
    (xs ys rows : List NotificationOutbox)
    → added_in_turn (xs ++ ys) rows ≡ added_in_turn ys (added_in_turn xs rows)
added_in_turn-append [] ys rows = refl
added_in_turn-append (x ∷ xs) ys rows = added_in_turn-append xs ys (x ∷ rows)

-- From `s` to `t`, `most` messages at most have been added, and nothing else that stays.
record Posts (most : ℕ) (s : Session) (intents : List NotificationOutbox) (t : Session)
    : Type 0 where
  added : t.db.outbox ≡ added_in_turn intents s.db.outbox
  few : length intents ≤ most
  apart : Same s t

-- The same of a result; one that raises leaves nothing that stays.
abbrev Posted : ℕ → Session → Result (List NotificationOutbox) × Session → Type 0
Posted most s (ok intents, t) = Posts most s intents t
Posted most s (err e, t) = Same s t

record Settled (most : ℕ) (s : Session) (p : Result (List NotificationOutbox) × Session)
    : Type 0 where
  settled : Posted most s p

Settled-offer :
    (env : Env) (next : WaitlistEntry) (staff : Option ℕ) (s : Session) (b : Business)
    (c : Customer) (v : Service)
    → Settled 1 s (
        (enqueue_waitlist_offer env next b c v >>= λ intent. pure (intent ∷ []))
          (record s { db = offer_entry env next.id staff s.db }))
unfolding ◌>>=◌ enqueue_waitlist_offer insert_intent
Settled-offer env next staff s b c v = record {
  settled = record { added = refl; few = omega arith; apart = (refl, refl) };
}

Settled-offer_next :
    (env : Env) (e : WaitlistEntry) (candidates : List WaitlistEntry) (s : Session)
    → Settled 1 s (offer_next env e candidates s)
Settled-offer_next env e [] s =
    unfold ◌>>=◌ in
    record { settled = record { added = refl; few = omega arith; apart = (refl, refl) } }
Settled-offer_next env e (next ∷ others) s = after_modify (Settled 1 s) _ _ s (
    after_read (Settled 1 s) _ _ _
      (λ business _.
        after_read (Settled 1 s) _ _ _
          (λ customer _.
            after_read (Settled 1 s) _ _ _
              (λ service _.
                Settled-offer env next e.offered_for_staff_id s business customer service)
              (λ e. record { settled = (refl, refl) }))
          (λ e. record { settled = (refl, refl) }))
      (λ e. record { settled = (refl, refl) }))

Posted-join :
    (k j : ℕ) (s t : Session) (first : List NotificationOutbox)
    (later : Result (List NotificationOutbox) × Session)
    → Posts k s first t
    → Posted j t later
    → Posted (k + j) s (continue later.0 (λ more. pure (first ++ more)) later.1)
unfolding ◌>>=◌
Posted-join k j s t first (ok more, u) p q = record {
  added =
      q.added ∙ ap (added_in_turn more) p.added ∙ sym (added_in_turn-append first more s.db.outbox);
  few = omega (arith, length-append first more, p.few, q.few);
  apart = (q.apart.0 ∙ p.apart.0, q.apart.1 ∙ p.apart.1);
}
Posted-join k j s t first (err e, u) p q = (q.0 ∙ p.apart.0, q.1 ∙ p.apart.1)

Posted-expire_offers :
    (env : Env) (entries : List WaitlistEntry) (s : Session)
    → Posted (length entries) s (expire_offers env entries s)
unfolding expire_offers escalate_to_next_waiting_entry ◌>>=◌
Posted-expire_offers env [] s = record { added = refl; few = omega arith; apart = (refl, refl) }
Posted-expire_offers env (entry ∷ rest) s =
    let expired : Session = record s {
      db = update_entry entry.id (with_status env WaitlistEntryStatus.expired) s.db;
    } in
    by_first (escalate_to_next_waiting_entry env entry expired)
      (from_start (escalate_to_next_waiting_entry env entry expired)
        (Settled-offer_next env entry _ expired).settled)
      (λ t. Posted-expire_offers env rest t)
  where
    one_more : 1 + length rest ≡ length (entry ∷ rest)
    one_more = omega arith

    from_start :
        (p : Result (List NotificationOutbox) × Session)
        → Posted 1
            (record s {
              db = update_entry entry.id (with_status env WaitlistEntryStatus.expired) s.db;
            })
            p
        → Posted 1 s p
    from_start (ok intents, t) h = record { added = h.added; few = h.few; apart = h.apart }
    from_start (err e, t) h = h

    by_first :
        (p : Result (List NotificationOutbox) × Session)
        → Posted 1 s p
        → ((t : Session) → Posted (length rest) t (expire_offers env rest t))
        → Posted (length (entry ∷ rest)) s (
            continue p.0
              (λ intents. expire_offers env rest >>= λ later. pure (intents ++ later))
              p.1)
    by_first (ok intents, t) posted then =
        subst
          (λ (k : ℕ). Posted k s ((expire_offers env rest >>= λ later. pure (intents ++ later)) t))
          one_more
          (Posted-join 1 (length rest) s t intents (expire_offers env rest t) posted (then t))
    by_first (err e, t) same then = same

abbrev pub jobs_for : List NotificationOutbox → List JobRequest
jobs_for intents = map send_notification (map (λ (m : NotificationOutbox). m.id) intents)

-- The pushes of these messages: all of them, or those before the first that Redis refuses.
abbrev Pushed : List NotificationOutbox → Session → Result (Unit {0}) × Session → Type 0
Pushed intents s (ok u, t) = (t.committed ≡ s.committed) × (t.queued ≡ s.queued ++ jobs_for intents)
Pushed intents s (err e, t) =
    (t.committed ≡ s.committed)
    × (e ≡ redis_error)
    × ((k : ℕ) × (k < length intents) × (t.queued ≡ s.queued ++ jobs_for (take k intents)))

Pushed-one_more :
    (intent : NotificationOutbox) (rest : List NotificationOutbox) (s : Session)
    (p : Result (Unit {0}) × Session)
    → Pushed rest (record s { queued = s.queued ++ send_notification intent.id ∷ [] }) p
    → Pushed (intent ∷ rest) s p
Pushed-one_more intent rest s (ok u, t) (same, jobs) =
    (same, jobs ∙ append_assoc s.queued (send_notification intent.id ∷ []) (jobs_for rest))
Pushed-one_more intent rest s (err e, t) (same, refused, (k, some_left, jobs)) = (
  same,
  refused,
  (
    suc k,
    omega arith,
    jobs ∙ append_assoc s.queued (send_notification intent.id ∷ []) (jobs_for (take k rest)),
  ),
)

Pushed-enqueue_all :
    (intents : List NotificationOutbox) (answers : List Bool) (s : Session)
    → Pushed intents s (enqueue_all intents (record s { answers = answers }))
unfolding enqueue_all enqueue_send_notification_job ◌>>=◌
Pushed-enqueue_all [] answers s = (refl, sym (append-nil s.queued))
Pushed-enqueue_all (intent ∷ rest) [] s = Pushed-one_more intent rest s _ (
    Pushed-enqueue_all rest [] (record s { queued = s.queued ++ send_notification intent.id ∷ [] }))
Pushed-enqueue_all (intent ∷ rest) (true ∷ later) s = Pushed-one_more intent rest s _ (
    Pushed-enqueue_all rest later
      (record s { queued = s.queued ++ send_notification intent.id ∷ [] }))
Pushed-enqueue_all (intent ∷ rest) (false ∷ later) s =
    (refl, refl, (zero, omega arith, sym (append-nil s.queued)))

-- What a sweep leaves: the messages that it commits, in their order, are those that it has queued a
-- job for, and there is at most one for each offer that has expired.
pub record Announced (n : ℕ) (s t : Session) : Type 0 where
  pub intents : List NotificationOutbox
  pub added : t.committed.outbox ≡ added_in_turn intents s.db.outbox
  pub jobs : t.queued ≡ s.queued ++ jobs_for intents
  pub few : length intents ≤ n

-- What is left when Redis refuses a push: all the messages, and the jobs of those before it.
pub record Interrupted (n : ℕ) (e : Error) (s t : Session) : Type 0 where
  pub refused : e ≡ redis_error
  pub intents : List NotificationOutbox
  pub added : t.committed.outbox ≡ added_in_turn intents s.db.outbox
  pub few : length intents ≤ n
  pub taken : ℕ
  pub some_left : taken < length intents
  pub jobs : t.queued ≡ s.queued ++ jobs_for (take taken intents)

abbrev pub SweepOutcome : ℕ → Session → Result ℕ × Session → Type 0
SweepOutcome stale s (ok n, t) = (n ≡ stale) × Announced n s t
SweepOutcome stale s (err e, t) = Same s t ⊎ Interrupted stale e s t

SweepOutcome-Pushed :
    (n : ℕ) (s t : Session) (intents : List NotificationOutbox) (p : Result (Unit {0}) × Session)
    → Posts n s intents t
    → Pushed intents (record t { committed = t.db }) p
    → SweepOutcome n s (continue p.0 (λ _. pure n) p.1)
unfolding ◌>>=◌
SweepOutcome-Pushed n s t intents (ok u, after) posted (same, jobs) = (
  refl,
  record {
    intents = intents;
    added = ap (λ (db : Db). db.outbox) same ∙ posted.added;
    jobs = jobs ∙ ap (λ (queued : List JobRequest). queued ++ jobs_for intents) posted.apart.1;
    few = posted.few;
  },
)
SweepOutcome-Pushed n s t intents (err e, after) posted (same, refused, (k, some_left, jobs)) =
    inr (record {
      refused = refused;
      intents = intents;
      added = ap (λ (db : Db). db.outbox) same ∙ posted.added;
      few = posted.few;
      taken = k;
      some_left = some_left;
      jobs =
          jobs
          ∙ ap (λ (queued : List JobRequest). queued ++ jobs_for (take k intents)) posted.apart.1;
    })

SweepOutcome-expire_found :
    (env : Env) (entries : List WaitlistEntry) (s : Session)
    → s.db ≡ s.committed
    → SweepOutcome (length entries) s (expire_found env entries s)
unfolding ◌>>=◌
SweepOutcome-expire_found env [] s clean = (
  refl,
  record {
    intents = [];
    added = ap (λ (db : Db). db.outbox) (sym clean);
    jobs = sym (append-nil s.queued);
    few = omega arith;
  },
)
SweepOutcome-expire_found env (entry ∷ rest) s clean =
    by_messages (expire_offers env (entry ∷ rest) s) (Posted-expire_offers env (entry ∷ rest) s)
  where
    by_messages :
        (p : Result (List NotificationOutbox) × Session)
        → Posted (length (entry ∷ rest)) s p
        → SweepOutcome (length (entry ∷ rest)) s (
            continue p.0
              (λ intents. commit >>= λ _. enqueue_all intents >>= λ _. pure (length (entry ∷ rest)))
              p.1)
    by_messages (ok intents, t) posted =
        SweepOutcome-Pushed (length (entry ∷ rest)) s t intents _ posted
          (Pushed-enqueue_all intents t.answers (record t { committed = t.db }))
    by_messages (err e, t) same = inl same

-- A sweep over the unanswered offers, in a session without open changes. Where it returns, it returns
-- how many offers had run out; the messages it has added to the committed outbox, in their order, are
-- those it has queued a job for, and there is at most one for each of those offers. Where it raises,
-- nothing is committed or queued, or the error is that of Redis: then all those messages are
-- committed, and the jobs of those before the refused push are queued.
pub expire_stale_waitlist_offers-SweepOutcome :
    (env : Env) (s : Session)
    → s.db ≡ s.committed
    → SweepOutcome
        (length (filter_by (is_stale_offer env) s.db.waitlist))
        s
        (expire_stale_waitlist_offers env s)
unfolding expire_stale_waitlist_offers ◌>>=◌
expire_stale_waitlist_offers-SweepOutcome env s clean =
    SweepOutcome-expire_found env (filter_by (is_stale_offer env) s.db.waitlist) s clean
