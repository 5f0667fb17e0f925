-- ===== src/Voice/Sweep.antt =====
-- The calls before and after `expire_stale_sessions` of app/services/ivr_service.py.
use mathlib.Core.Path.{subst}
use appointment_voice_saas.Common.{
  ◌≡◌, refl, ap, inl, inr, Bool, true, false, ◌&&◌, ◌||◌, sym, List, [], ◌∷◌, leb, ltb, Bool-cases,
  update_where, filter_by, any_of, length, arith,
}
use appointment_voice_saas.Tables.{VoiceSession}
use appointment_voice_saas.Errors.{ok}
use appointment_voice_saas.Session.{Session, ◌>>=◌}
use appointment_voice_saas.Env.{Env}
use appointment_voice_saas.Voice.Calls.{expire_stale_sessions, is_stale_call, expire_call}

none_stale :
    (env : Env) (rows : List VoiceSession)
    → any_of (is_stale_call env) (update_where (is_stale_call env) expire_call rows) ≡ false
none_stale env [] = refl
none_stale env (c ∷ rows) = elim (Bool-cases (is_stale_call env c)) [
  | inl stale ↦ rw (stale, none_stale env rows) (not_again (leb c.expires_at env.now))
  | inr other ↦ rw (other, none_stale env rows) (rw other)
]
  where
    not_again : (late : Bool) → ((late && false) || false) ≡ false
    not_again true = refl
    not_again false = refl

none_to_expire :
    (env : Env) (rows : List VoiceSession)
    → ltb 0 (length (filter_by (is_stale_call env) rows)) ≡ false
    → update_where (is_stale_call env) expire_call rows ≡ rows
none_to_expire env [] h = refl
none_to_expire env (c ∷ rows) h = elim (Bool-cases (is_stale_call env c)) [
  | inl stale ↦ absurd (some_left (rw stale at h))
  | inr other ↦
      rw other
        (ap (λ (rest : List VoiceSession). c ∷ rest) (none_to_expire env rows (rw other at h)))
]
  where
    some_left : ltb 0 (length (c ∷ filter_by (is_stale_call env) rows)) ≡ false → ⊥
    some_left h = ground arith

-- In a session without open changes, the sweep returns how many calls were out of time and not over,
-- and commits that these have expired and all others are as they were; it leaves none of that kind.
pub expire_stale_sessions_lem :
    (env : Env) (s : Session)
    → s.db ≡ s.committed
    → let rows = s.committed.voice_sessions in
      let after = expire_stale_sessions env s in
      (after.0 ≡ ok (length (filter_by (is_stale_call env) rows)))
      × (after.1.committed.voice_sessions ≡ update_where (is_stale_call env) expire_call rows)
      × (any_of (is_stale_call env) after.1.committed.voice_sessions ≡ false)
unfolding expire_stale_sessions ◌>>=◌
expire_stale_sessions_lem env s clean =
    elim (Bool-cases (ltb 0 (length (filter_by (is_stale_call env) s.committed.voice_sessions)))) [
      | inl some_stale ↦
          rw (clean, some_stale) (refl, refl, none_stale env s.committed.voice_sessions)
      | inr none_here ↦
          let same = none_to_expire env s.committed.voice_sessions none_here in
          rw (clean, none_here)
            (
              refl,
              sym same,
              subst (λ (rows : List VoiceSession). any_of (is_stale_call env) rows ≡ false) same
                  (none_stale env s.committed.voice_sessions),
            )
    ]
