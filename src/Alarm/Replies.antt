-- ===== src/Alarm/Replies.antt =====
-- Which messages are refused for good: `handleMessage` of flow-core/cmd/alarm-materializer/main.go.
use thingsflow.Base.{
  ℕ, ◌≡◌, ◌≢◌, ◌↔◌, refl, Option, none, some, Option-cases, inl, inr, Bool, true, false,
}
use thingsflow.Base.Text.{Text}
use thingsflow.Base.Result.{Result, ok, err}
use thingsflow.Alarm.Intent.{Intent, validate}
use thingsflow.Alarm.Apply.{
  AdditionalInfo, ApplyError, ApplyResult, Repository, term, handle_message, answer, finished,
  unless, apply_intent,
}

-- The message is no valid intent.
abbrev pub Refused : Option Intent → Type 0
Refused message = (i : Intent) → message ≡ some i → validate i ≢ none

module _ {S : Type 0} (repo : Repository S) (marshal : AdditionalInfo → Option Text) where
  pub finished_state : (done : ApplyResult) (p : Bool × S) → (finished repo marshal done p).1 ≡ p.1
  unfolding finished
  finished_state done (true, s) = refl
  finished_state done (false, s) = refl

  pub answer_state : (p : Result ApplyError ApplyResult × S) → (answer repo marshal p).1 ≡ p.1
  unfolding answer
  answer_state (ok r, s) = refl
  answer_state (err e, s) = refl

  answer_lem : (p : Result ApplyError ApplyResult × S) → (answer repo marshal p).0 ≢ term
  unfolding answer
  answer_lem (ok r, s) = λ e. cc e
  answer_lem (err e, s) = λ e. cc e

  -- Over every implementation of the repository, a message is terminated exactly when it is no
  -- valid intent, and then nothing was written: a failure of the store never drops a message.
  pub handle_message-Refused :
      (message : Option Intent) (now : ℕ) (id : Text) (s : S)
      → ((handle_message repo marshal message now id s).0 ≡ term ↔ Refused message)
        × (Refused message → (handle_message repo marshal message now id s).1 ≡ s)
  unfolding handle_message unless
  handle_message-Refused none now id s = ((λ e. λ i q. cc q, λ r. refl), λ r. refl)
  handle_message-Refused (some i) now id s = elim (Option-cases (validate i)) [
    | inl e ↦ (
      (
        λ h. absurd (answer_lem (apply_intent repo marshal i now id s) (rw e at h)),
        λ r. absurd (r i refl e),
      ),
      λ r. absurd (r i refl e),
    )
    | inr (x, e) ↦ ((λ h. λ j q v. cc (e, q, v), λ r. rw e refl), λ r. rw e refl)
  ]
