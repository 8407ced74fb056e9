-- ===== src/Account/Marks/History.antt =====
-- internal/pool/account.go: what a history of successes and failures does to the tokens of an account.
use chatgpt_prism2api.Base.{
  ℕ, ◌==◌, ◌≡◌, refl, ◌∙◌, Bool, true, false, not, ◌&&◌, ◌||◌, List, [], ◌∷◌, Option, none, some,
  arith, if◌then◌else◌, Bool-cases, inl, inr,
}
use chatgpt_prism2api.Base.Int.{pos}
use chatgpt_prism2api.FailClass.{Result}
use chatgpt_prism2api.Account.State.{Account, Token}
use chatgpt_prism2api.Account.Limits.{record_use_locked, over_limit}
use chatgpt_prism2api.Account.Marks.{
  record_use, rate_limit_if_over, mark_failure, mark_success, skip_use_count, is_auth, on_manager,
  drop_access_token,
}
use chatgpt_prism2api.Account.Marks.Tokens.{
  SameCredentials, SameCredentials-refl, dropped-SameCredentials, tokens_of_failure,
}

-- The begin of a request or its end, with the time.
pub data Mark : Type 0 where
  used succeeded : ℕ → Mark
  failed : Result → ℕ → Mark

unfoldable pub run_marks : Account → List Mark → Account
run_marks a [] = a
run_marks a (used now ∷ ms) = run_marks (record_use a now) ms
run_marks a (succeeded now ∷ ms) = run_marks (mark_success a now) ms
run_marks a (failed res now ∷ ms) = run_marks (mark_failure a res now) ms

-- Whether the account, with one more use, has reached a limit of its own.
abbrev pub reaches_limit : Account → ℕ → Bool
reaches_limit a now =
    (over_limit (record_use_locked (record a { last_used_at = now }) now) now (pos 0) (pos 0)).1

-- No begin of a request reaches a limit, and a failure that counts cools.
unfoldable pub IsUndisturbed : Account → List Mark → Type 0
IsUndisturbed a [] = Unit
IsUndisturbed a (used now ∷ ms) =
    (reaches_limit a now ≡ false) × IsUndisturbed (record_use a now) ms
IsUndisturbed a (succeeded now ∷ ms) = IsUndisturbed (mark_success a now) ms
IsUndisturbed a (failed res now ∷ ms) =
    (skip_use_count res.class || res.cool ≡ true) × IsUndisturbed (mark_failure a res now) ms

-- Whether the history has an `auth` failure that is no 403, or two `auth` failures with no success and no
-- counted failure of another class between them. `warned` says that the last mark counted was `auth`.
unfoldable pub revoked_in : Bool → List Mark → Bool
revoked_in warned [] = false
revoked_in warned (used now ∷ ms) = revoked_in warned ms
revoked_in warned (succeeded now ∷ ms) = revoked_in false ms
revoked_in warned (failed res now ∷ ms) =
    let ignored = revoked_in warned ms in
    let counted = revoked_in (is_auth res.class) ms in
    if skip_use_count res.class
    then ignored
    else (is_auth res.class && (not (res.http_status == 403) || warned)) || counted

abbrev pub revoke_if : Bool → Option (Option Token) → Option (Option Token)
revoke_if b t = if b then on_manager drop_access_token t else t

revoke_if_twice :
    (b c : Bool) (t : Option (Option Token)) → revoke_if c (revoke_if b t) ≡ revoke_if (b || c) t
unfolding drop_access_token
revoke_if_twice true true none = refl
revoke_if_twice true true (some none) = refl
revoke_if_twice true true (some (some t)) = refl
revoke_if_twice true false t = refl
revoke_if_twice false c t = refl

revoke_if-SameCredentials :
    (b : Bool) (t : Option (Option Token)) → SameCredentials t (revoke_if b t)
revoke_if-SameCredentials true t = dropped-SameCredentials t
revoke_if-SameCredentials false t = SameCredentials-refl t

after_use :
    (a : Account) (now : ℕ)
    → reaches_limit a now ≡ false
    → ((record_use a now).tokens ≡ a.tokens) × ((record_use a now).fail_class ≡ a.fail_class)
unfolding record_use record_use_locked rate_limit_if_over over_limit
after_use a now h = (rw h refl, rw h refl)

after_success :
    (a : Account) (now : ℕ)
    → ((mark_success a now).tokens ≡ a.tokens) × (is_auth (mark_success a now).fail_class ≡ false)
unfolding mark_success
after_success a now = (ground arith, ground arith)

after_skipped :
    (a : Account) (res : Result) (now : ℕ)
    → skip_use_count res.class ≡ true
    → mark_failure a res now ≡ a
unfolding mark_failure
after_skipped a res now h = ground arith

class_of_cooling :
    (a : Account) (res : Result) (now : ℕ)
    → skip_use_count res.class ≡ false
    → skip_use_count res.class || res.cool ≡ true
    → (mark_failure a res now).fail_class ≡ res.class
unfolding mark_failure
class_of_cooling a res now s c = ground arith

tokens_of_run :
    (a : Account) (ms : List Mark)
    → IsUndisturbed a ms
    → (run_marks a ms).tokens ≡ revoke_if (revoked_in (is_auth a.fail_class) ms) a.tokens
unfolding run_marks revoked_in IsUndisturbed
tokens_of_run a [] h = refl
tokens_of_run a (used now ∷ ms) (free, h) =
    let (tokens, class) = after_use a now free in
    tokens_of_run (record_use a now) ms h ∙ rw (tokens, class) refl
tokens_of_run a (succeeded now ∷ ms) h =
    tokens_of_run (mark_success a now) ms h
    ∙ rw ((after_success a now).0, (after_success a now).1) refl
tokens_of_run a (failed res now ∷ ms) (c, h) = elim (Bool-cases (skip_use_count res.class)) [
  | inl s ↦ tokens_of_run (mark_failure a res now) ms h ∙ rw (after_skipped a res now s, s) refl
  | inr s ↦
      tokens_of_run (mark_failure a res now) ms h
      ∙ rw (class_of_cooling a res now s c, tokens_of_failure a res now, s)
          (revoke_if_twice
            (is_auth res.class && (not (res.http_status == 403) || is_auth a.fail_class))
            (revoked_in (is_auth res.class) ms) a.tokens)
]

-- Through any run of begins, successes and failures of requests in which no begin reaches a limit of the
-- account and each failure that counts also cools: the access token is dropped if the run has an `auth`
-- failure that is no 403, or two `auth` failures with neither a success nor a counted failure of another
-- class between them (one before the run, as the account's class, may be the first), and the tokens are as
-- they were otherwise. What a re-login needs is kept in either case.
pub run_marks_lem :
    (a : Account) (ms : List Mark)
    → IsUndisturbed a ms
    → ((run_marks a ms).tokens ≡ (
        if revoked_in (is_auth a.fail_class) ms
        then on_manager drop_access_token a.tokens
        else a.tokens))
      × SameCredentials a.tokens (run_marks a ms).tokens
run_marks_lem a ms h = (
  tokens_of_run a ms h,
  rw (tokens_of_run a ms h)
      (revoke_if-SameCredentials (revoked_in (is_auth a.fail_class) ms) a.tokens),
)
