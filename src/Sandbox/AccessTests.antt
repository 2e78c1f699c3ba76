-- ===== src/Sandbox/AccessTests.antt =====
-- The theorems on environments, rate limits and API keys at concrete inputs.
use k8e.Common.{
  ℕ, ◌+◌, ◌-◌, ◌*◌, ◌≤◌, String, ◌≡◌, refl, ap, Bool, true, false, Option, none, some, List, [],
  ◌∷◌, arith, str_eq, ltb, ◌==◌, if◌then◌else◌, length, All,
}
use k8e.Common.Int.{pos, pos_part}
use k8e.Common.Assoc.{lookup}
use k8e.Sandbox.Env.{Strings, SecretRef, validate_session_env, total_size, IsEntry}
use k8e.Sandbox.Env.Accepted.{validate_session_env_lem}
use k8e.Sandbox.RateLimit.{Floats, RateConfig, Limiter}
use k8e.Sandbox.RateLimit.Bursts.{IsExact, calls, least, calls_burst}
use k8e.Sandbox.ApiKeys.{Record, new_record}

abbrev strings : Strings
strings = record {
  size = λ s. if str_eq s "" then 0 else 5;
  is_valid = λ s. true;
  has_nul = λ s. false;
  has_equals = λ s. str_eq s "A=B";
}

abbrev session_env : List (String × String)
session_env = ("MODEL", "large") ∷ ("DEBUG", "") ∷ []

validate_session_env_lem_example :
    (validate_session_env strings session_env ≡ none
      → (length session_env ≤ 64)
        × All (λ e. IsEntry strings e.0 e.1) session_env
        × (total_size strings session_env ≤ 32_768))
    × (length session_env ≤ 64
        → All (λ e. IsEntry strings e.0 e.1) session_env
        → total_size strings session_env ≤ 32_768
        → validate_session_env strings session_env ≡ none)
validate_session_env_lem_example = validate_session_env_lem strings session_env

abbrev refs : List (Option SecretRef)
refs =
    some (record { secret_name = "llm"; key = "token"; env_var = "LLM_TOKEN" })
    ∷ some (record { secret_name = "git"; key = "token"; env_var = "GIT_TOKEN" })
    ∷ []

-- Whole numbers, and `none` for what is not finite: an infinite rate times no time is not a number.
abbrev floats : Floats (Option ℕ)
floats = record {
  whole = λ n. some (pos_part n);
  minimum =
      λ a b. elim a [ none ↦ none | some m ↦ elim b [ none ↦ none | some n ↦ some (least m n) ] ];
  filled = λ tokens elapsed rate. elim tokens [
    | none ↦ none
    | some n ↦ elim rate [ none ↦ none | some each ↦ some (n + pos_part elapsed * each) ]
  ];
  minus_one = λ tokens. elim tokens [ none ↦ none | some n ↦ some (n - 1) ];
  below_one = λ tokens. elim tokens [ none ↦ false | some n ↦ n == 0 ];
  is_positive = λ rate. elim rate [ none ↦ true | some n ↦ ltb 0 n ];
}

abbrev is_finite : Option ℕ → Bool
is_finite rate = elim rate [ none ↦ false | some n ↦ true ]

no_time :
    (n : ℕ) (rate : Option ℕ)
    → is_finite rate ≡ true
    → floats.filled (floats.whole (pos n)) (pos 0) rate ≡ floats.whole (pos n)
no_time n none finite = cc
no_time n (some each) finite = ap some (omega arith)

floats-IsExact : IsExact floats is_finite
floats-IsExact = record {
  filled_zero = λ n rate finite h. no_time n rate finite;
  minimum_whole = λ m n h k. ap some (ground arith);
  below_zero = refl;
  below_suc = λ n h. ground arith;
  minus_suc = λ n h. ap some (ground arith);
}

abbrev rates : RateConfig (Option ℕ)
rates = record {
  write_burst = pos 10;
  write_rate = some 5;
  read_burst = pos 30;
  read_rate = some 20;
}

abbrev limiter : Limiter (Option ℕ)
limiter = record { cache = []; config = rates }

calls_burst_example : (calls floats limiter "key:k8e-1234" true 1_700 12).1 ≡ 10
unfolding lookup
calls_burst_example =
    calls_burst floats is_finite "key:k8e-1234" true 1_700 12 10 limiter floats-IsExact refl refl
      (omega arith) refl refl

abbrev keys : List (String × Record)
keys =
    ("ci", new_record "k8e-1234" (pos 30) false (pos 0))
    ∷ ("old", new_record "k8e-5678" (pos 1) false (pos 0))
    ∷ []
