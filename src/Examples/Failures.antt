-- ===== src/Examples/Failures.antt =====
-- Runs of the marks of an account, and of the cooldown formula.
use chatgpt_prism2api.Base.{◌≡◌, ◌*◌, refl, true, false, List, [], ◌∷◌, if◌then◌else◌}
use chatgpt_prism2api.Base.Int.{pos}
use chatgpt_prism2api.Base.Text.{codes}
use chatgpt_prism2api.FailClass.{grown_secs, second, Class, Result, duration}
use chatgpt_prism2api.Account.State.{Account, new_account}
use chatgpt_prism2api.Account.Limits.{
  over_limit, at_limit, effective_limits, overlay, record_use_locked, prune_uses,
}
use chatgpt_prism2api.Account.Marks.{
  mark_failure, record_use, skip_use_count, is_auth, on_manager, drop_access_token,
}
use chatgpt_prism2api.Account.Marks.Tokens.{SameCredentials}
use chatgpt_prism2api.Account.Marks.History.{
  IsUndisturbed, Mark, used, succeeded, failed, run_marks, revoked_in, run_marks_lem,
}
use chatgpt_prism2api.Examples.{ann}

abbrev unauthorized : Result
unauthorized = record { class = Class.auth; cool = true; switch = true; http_status = 401 }

abbrev forbidden : Result
forbidden = record unauthorized { http_status = 403 }

abbrev too_many : Result
too_many = record { class = Class.rate_limit; cool = true; switch = true; http_status = 429 }

abbrev stopped : Account
stopped = record ann { enabled = false; disable_reason = codes "by hand" }

-- Two requests that are forbidden, with their begins.
abbrev forbidden_history : List Mark
forbidden_history = used 6 ∷ failed forbidden 7 ∷ used 8 ∷ failed forbidden 9 ∷ []

abbrev unlimited : Account
unlimited = record ann { rpm = pos 0; daily_max = pos 0 }

revoked_test :
    (revoked_in false forbidden_history ≡ true)
    × (revoked_in false (failed forbidden 7 ∷ succeeded 8 ∷ failed forbidden 9 ∷ []) ≡ false)
unfolding revoked_in skip_use_count
revoked_test = (refl, refl)

run_marks_lem_example :
    ((run_marks unlimited forbidden_history).tokens ≡ (
      if revoked_in (is_auth unlimited.fail_class) forbidden_history
      then on_manager drop_access_token unlimited.tokens
      else unlimited.tokens))
    × SameCredentials unlimited.tokens (run_marks unlimited forbidden_history).tokens
unfolding skip_use_count IsUndisturbed over_limit at_limit effective_limits overlay new_account
    record_use mark_failure record_use_locked prune_uses
run_marks_lem_example = run_marks_lem unlimited forbidden_history (refl, (refl, (refl, (refl, tt))))

duration_test : duration Class.rate_limit 4 ≡ 202 * second
unfolding duration grown_secs
duration_test = refl
