-- ===== src/Voice/Silence.antt =====
-- A caller who stays silent: `_handle_no_input` of app/services/ivr_service.py.
use mathlib.Core.Path.{subst}
use appointment_voice_saas.Common.{
  ℕ, ◌+◌, ◌<◌, ◌==◌, ◌≡◌, refl, sym, ap, inl, inr, some, true, false, List, [], ◌∷◌, leb,
  if◌then◌else◌, Bool-cases, find_by, find_by_holds, arith,
}
use appointment_voice_saas.Tables.{VoiceSession, IvrStep}
use appointment_voice_saas.Errors.{Result}
use appointment_voice_saas.Session.{Session, Action, commit, ◌>>=◌}
use appointment_voice_saas.Env.{Env}
use appointment_voice_saas.Voice.Responses.{IvrResponse}
use appointment_voice_saas.Voice.Steps.{
  is_terminal, no_input_max, one_more_silent, save, answer, goes_to, ends_in, handle_no_input,
  reprompt_for_no_input,
}
use appointment_voice_saas.Voice.Calls.{handle_session, handle_keypress, is_session}
use appointment_voice_saas.Voice.Moves.{put_row}
use appointment_voice_saas.Voice.Runs.{presses, happen}
use appointment_voice_saas.Voice.Endings.{
  Quiet, Quiet-pure, Quiet-read, Quiet-bind, Quiet-reprompt_at, handle_keypress_over,
}

-- The row of a call, in what is committed.
abbrev Stands : ℕ → ℕ → Session → VoiceSession → Type 0
Stands i t s v = find_by (is_session i t) s.committed.voice_sessions ≡ some v

pub find_by-put_row :
    (i t : ℕ) (v w : VoiceSession) (rows : List VoiceSession)
    → w.id ≡ i
    → w.tenant_id ≡ t
    → find_by (is_session i t) rows ≡ some v
    → find_by (is_session i t) (put_row w rows) ≡ some w
find_by-put_row i t v w [] same_id same_tenant h = cc
find_by-put_row i t v w (c ∷ rows) same_id same_tenant h = elim (Bool-cases (c.id == w.id)) [
  | inl hit ↦ let found : is_session i t w ≡ true = ground arith in rw (hit, found)
  | inr miss ↦
      let other : is_session i t c ≡ false = ground arith in
      let later : find_by (is_session i t) rows ≡ some v = rw other at h in
      rw (miss, other) (find_by-put_row i t v w rows same_id same_tenant later)
]

-- The row of a call that is not over, after one more silence.
abbrev silent_row : VoiceSession → VoiceSession
silent_row v =
    if leb no_input_max (v.no_input_count + 1)
    then record (one_more_silent v) { step = IvrStep.expired }
    else one_more_silent v

saved_then :
    (w : VoiceSession) (rest : Action IvrResponse) (s : Session)
    → Quiet rest
    → ((save w >>= λ _. commit >>= λ _. rest) s).1.committed.voice_sessions
      ≡ put_row w s.db.voice_sessions
unfolding ◌>>=◌
saved_then w rest s quiet =
    ap (λ (after : Session). after.committed.voice_sessions) (quiet.unmoved _)

saved_last :
    (w : VoiceSession) (made : Result IvrResponse) (s : Session)
    → (((save w >>= λ _. commit) >>= λ _. answer made) s).1.committed.voice_sessions
      ≡ put_row w s.db.voice_sessions
unfolding ◌>>=◌
saved_last w made s = refl

Quiet-reprompt : (env : Env) (u : VoiceSession) → Quiet (reprompt_for_no_input env u)
unfolding reprompt_for_no_input
Quiet-reprompt env u = Quiet-reprompt_at u.step env u

silent_press :
    (env : Env) (v : VoiceSession) (s : Session)
    → (handle_no_input env v s).1.committed.voice_sessions
      ≡ put_row (silent_row v) s.db.voice_sessions
unfolding handle_no_input ends_in goes_to
silent_press env v s = elim (Bool-cases (leb no_input_max (v.no_input_count + 1))) [
  | inl many ↦ rw many (saved_last _ _ s)
  | inr few ↦ rw few (
      saved_then _ _ s (
        Quiet-bind _ _ (Quiet-reprompt env _)
          λ reprompt. Quiet-bind _ _ (Quiet-read _) λ prefix. Quiet-pure _))
]

-- The row of a call after a silent press in time, over or not.
abbrev next_row : VoiceSession → VoiceSession
next_row v = if is_terminal v.step then v else silent_row v

press_over :
    (env : Env) (i t : ℕ) (s : Session) (v : VoiceSession)
    → is_terminal v.step ≡ true
    → Stands i t s v
    → Stands i t (handle_keypress env i t "" (record s { db = s.committed })).1 v
press_over env i t s v over known =
    let (prompt, said, e) =
      handle_keypress_over env i t "" (record s { db = s.committed }) v known over in
    subst (λ (p : Result IvrResponse × Session). Stands i t p.1 v) (sym e) known

presses_silently :
    (env : Env) (i t : ℕ) (s : Session) (v : VoiceSession)
    → env.now < v.expires_at
    → Stands i t s v
    → Stands i t (handle_keypress env i t "" (record s { db = s.committed })).1 (next_row v)
unfolding handle_keypress handle_session ◌>>=◌
presses_silently env i t s v in_time known = elim (Bool-cases (is_terminal v.step)) [
  | inl over ↦ rw over (press_over env i t s v over known)
  | inr live ↦
      let early : leb v.expires_at env.now ≡ false = ground arith in
      let keys : is_session i t v ≡ true =
        find_by_holds (is_session i t) s.committed.voice_sessions v known in
      rw (known, early, live, silent_press env v (record s { db = s.committed }))
        (find_by-put_row i t v (silent_row v) s.committed.voice_sessions (ground arith)
          (ground arith) known)
]

-- Three silent presses in time, on a call that is not over, whatever step it stands in and whether
-- or not its prompt can be repeated: the call has then expired.
pub silence_ends :
    (env : Env) (i t : ℕ) (s : Session) (v : VoiceSession)
    → find_by (is_session i t) s.committed.voice_sessions ≡ some v
    → is_terminal v.step ≡ false
    → env.now < v.expires_at
    → let press = happen env (presses i t "") in
      (w : VoiceSession) × (find_by
          (is_session i t)
          (press (press (press s))).committed.voice_sessions
        ≡ some w)
      × (w.step ≡ IvrStep.expired)
silence_ends env i t s v known live in_time =
    let press = happen env (presses i t "") in
    let one = presses_silently env i t s v in_time known in
    let two = presses_silently env i t (press s) (next_row v) (ground arith) one in
    let three =
      presses_silently env i t (press (press s)) (next_row (next_row v)) (ground arith) two in
    (next_row (next_row (next_row v)), three, ground arith)
