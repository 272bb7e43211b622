-- ===== src/Environment/Laws.antt =====
-- What an environment that is taken has.
use Prim.Native.Char.{Char, code}
use async_webhook_ingestion.Json.{Json, str, as_string}
use async_webhook_ingestion.Prelude.{
  ℕ, ◌+◌, ◌*◌, ◌-◌, ◌≤◌, Bool, false, ◌&&◌, leb, lookup, sym, ap, ◌∙◌, subst, ◌≢◌, eq_iff,
  if◌then◌else◌, ⊤, String, ◌≡◌, ◌⊎◌, inl, inr, refl, true, Option, none, some, List, [], ◌∷◌, ◌++◌,
  ok, member, Bool-cases, ◌==◌, arith,
}
use async_webhook_ingestion.Environment.{
  Env, app_roles, positive_int_vars, api_secret_vars, present, is_positive_int, all_digits,
  is_empty_text, role_of, role_errors, secret_error, secret_errors, int_error, int_errors,
  level_errors, api_errors, value_errors, env_errors, drop_empty, report, validate_env,
}

abbrev digit_of : ℕ → Option ℕ
digit_of c = if leb 48 c && leb c 57 then some (c - 48) else none

abbrev decimal_with : (ℕ → Option ℕ) → Option ℕ → Option ℕ
decimal_with rest none = none
decimal_with rest (some d) = rest d

abbrev decimal_from : ℕ → String → Option ℕ
decimal_from n String.[] = some n
decimal_from n (String.◌∷◌ c s) =
    decimal_with (λ d. decimal_from (n * 10 + d) s) (digit_of (code c))

-- The number that a text of decimal digits stands for.
abbrev pub decimal : String → Option ℕ
decimal String.[] = none
decimal (String.◌∷◌ c s) = decimal_from 0 (String.◌∷◌ c s)

-- A text is that of a number from 1 on, if there is one.
abbrev pub IsInt : Option String → Type 0
IsInt none = ⊤
IsInt (some value) = (n : ℕ) × (decimal value ≡ some n) × (1 ≤ n)

-- Every one of these keys that has a text has a number from 1 on.
abbrev pub HasInts : Env → List String → Type 0
HasInts env [] = ⊤
HasInts env (key ∷ keys) = IsInt (present env key) × HasInts env keys

-- The variables that stand for numbers.
abbrev pub numeric_vars : List String
numeric_vars =
    "PORT" ∷ "POSTGRES_PORT" ∷ "RABBITMQ_PORT" ∷ "PUBLISH_CONFIRM_TIMEOUT_MS"
    ∷ "WEBHOOK_TIMESTAMP_TOLERANCE_SECONDS" ∷ "MAX_PROCESSING_ATTEMPTS" ∷ "RABBITMQ_PREFETCH"
    ∷ "POSTGRES_POOL_SIZE" ∷ "RATE_LIMIT_TTL_SECONDS" ∷ "RATE_LIMIT_MAX" ∷ "WORKER_METRICS_PORT"
    ∷ []

-- The names of the levels that the logger knows.
abbrev pub IsLevel : Option String → Type 0
IsLevel none = ⊤
IsLevel (some level) = member level ("error" ∷ "warn" ∷ "log" ∷ "debug" ∷ "verbose" ∷ []) ≡ true

-- Every one of these keys has a text that is not empty.
abbrev HasSecrets : Env → List String → Type 0
HasSecrets env [] = ⊤
HasSecrets env (key ∷ keys) =
    ((value : String) × (present env key ≡ some value)) × HasSecrets env keys

digit_of-digit : (c : ℕ) → leb 48 c ≡ true → leb c 57 ≡ true → digit_of c ≡ some (c - 48)
digit_of-digit c low high = rw (low, high) refl

decimal_from-digit :
    (n : ℕ) (c : Char) (s : String)
    → leb 48 (code c) ≡ true
    → leb (code c) 57 ≡ true
    → decimal_from n (String.◌∷◌ c s) ≡ decimal_from (n * 10 + (code c - 48)) s
decimal_from-digit n c s low high =
    ap (decimal_with (λ d. decimal_from (n * 10 + d) s)) (digit_of-digit (code c) low high)

and_three : (x y z : Bool) → x && (y && z) ≡ true → (x ≡ true) × ((y ≡ true) × (z ≡ true))
and_three x y z h = ground arith

digits-decimal :
    (s : String) (n : ℕ) → all_digits s ≡ true → (m : ℕ) × (decimal_from n s ≡ some m) × (n ≤ m)
digits-decimal String.[] n h = (n, refl, omega arith)
digits-decimal (String.◌∷◌ c s) n h =
    let (low, (high, rest)) = and_three (leb 48 (code c)) (leb (code c) 57) (all_digits s) h in
    let (m, is_m, more) = digits-decimal s (n * 10 + (code c - 48)) rest in
    (m, decimal_from-digit n c s low high ∙ is_m, omega (arith, more))

is_positive_int-IsInt : (s : String) → is_positive_int s ≡ true → IsInt (some s)
is_positive_int-IsInt String.[] h = cc
is_positive_int-IsInt (String.◌∷◌ c s) h =
    let (one, (high, rest)) = and_three (leb 49 (code c)) (leb (code c) 57) (all_digits s) h in
    let low : leb 48 (code c) ≡ true = ground (one, arith) in
    let (m, is_m, more) = digits-decimal s (0 * 10 + (code c - 48)) rest in
    let from_one : 1 ≤ code c - 48 = ground (one, arith) in
    (m, decimal_from-digit 0 c s low high ∙ is_m, omega (arith, more, from_one))

append-eq-nil : (xs ys : List String) → xs ++ ys ≡ [] → (xs ≡ []) × (ys ≡ [])
append-eq-nil [] ys h = (refl, h)
append-eq-nil (x ∷ xs) ys h = cc

secret_error-eq-nil :
    (key : String) (o : Option String)
    → secret_error key o ≡ []
    → (value : String) × (o ≡ some value)
secret_error-eq-nil key none h = cc
secret_error-eq-nil key (some value) h = (value, refl)

secret_errors-HasSecrets :
    (env : Env) (keys : List String) → secret_errors env keys ≡ [] → HasSecrets env keys
secret_errors-HasSecrets env [] h = tt
secret_errors-HasSecrets env (key ∷ keys) h =
    let (here, rest) =
      append-eq-nil (secret_error key (present env key)) (secret_errors env keys) h in
    (secret_error-eq-nil key (present env key) here, secret_errors-HasSecrets env keys rest)

int_error-IsInt : (key : String) (o : Option String) → int_error key o ≡ [] → IsInt o
int_error-IsInt key none h = tt
int_error-IsInt key (some value) h = is_positive_int-IsInt value (ground arith)

int_errors-HasInts : (env : Env) (keys : List String) → int_errors env keys ≡ [] → HasInts env keys
int_errors-HasInts env [] h = tt
int_errors-HasInts env (key ∷ keys) h =
    let (here, rest) = append-eq-nil (int_error key (present env key)) (int_errors env keys) h in
    (int_error-IsInt key (present env key) here, int_errors-HasInts env keys rest)

level_errors-IsLevel : (o : Option String) → level_errors o ≡ [] → IsLevel o
level_errors-IsLevel none h = tt
level_errors-IsLevel (some level) h = ground arith

role_errors-member : (role : String) → role_errors role ≡ [] → member role app_roles ≡ true
role_errors-member role h = ground arith

report-eq-ok :
    (env : Env) (es : List String) {env' : Env}
    → report env es ≡ ok env'
    → (es ≡ []) × (env' ≡ drop_empty env)
report-eq-ok env [] h = (refl, ground arith)
report-eq-ok env (e ∷ es) h = cc

kept_texts : (env : Env) (key : String) → lookup key (drop_empty env) ≢ some (str "")
kept_texts [] key h = cc
kept_texts ((other, value) ∷ env) key h =
    elim (Bool-cases (is_empty_text (as_string (some value)))) [
      | inl empty ↦ kept_texts env key (rw empty at h)
      | inr full ↦ elim (Bool-cases (other == key)) [
        | inl same ↦ clash value full (rw (full, same) at h)
        | inr differ ↦ kept_texts env key (rw (full, differ) at h)
      ]
    ]
  where
    clash :
        (value : Json) → is_empty_text (as_string (some value)) ≡ false → some value ≢ some (str "")
    clash value full e =
        let same : value ≡ str "" = cc e in
        let empty : is_empty_text (as_string (some (str ""))) ≡ false =
          subst (λ v. is_empty_text (as_string (some v)) ≡ false) same full in
        cc empty

role_member-cases :
    (role : String) → member role app_roles ≡ true → (role ≡ "api") ⊎ (role ≡ "worker")
role_member-cases role h = ground (arith, eq_iff "api" role, eq_iff "worker" role)

-- What an environment that was taken guarantees to the code that reads it.
pub record IsSafe (env env' : Env) : Type 0 where
  pub no_empty : (key : String) → lookup key env' ≢ some (str "")
  pub role : (role_of env ≡ "api") ⊎ (role_of env ≡ "worker")
  pub secrets :
      (role_of env ≡ "worker")
      ⊎ (((secret : String) × (present env "WEBHOOK_HMAC_SECRET" ≡ some secret))
          × ((key : String) × (present env "ADMIN_API_KEY" ≡ some key)))
  pub ints : HasInts env numeric_vars
  pub level : IsLevel (present env "LOG_LEVEL")

-- An environment that passes the validation comes back without an empty text, its role is api or
-- worker, it has both secrets unless it is the worker's, each of its eleven variables that are read
-- as numbers is absent, empty or the decimal text of a number from 1 on, and its log level, if there
-- is one, is one of the logger's five.
pub validate_env-IsSafe : (env : Env) {env' : Env} → validate_env env ≡ ok env' → IsSafe env env'
unfolding validate_env env_errors
validate_env-IsSafe env h =
    let (none_found, cleaned) = report-eq-ok env (env_errors env) h in
    let (roles, rest) =
      append-eq-nil (role_errors (role_of env)) (api_errors env ++ value_errors env) none_found in
    let (secrets, values) = append-eq-nil (api_errors env) (value_errors env) rest in
    let (ints, levels) =
      append-eq-nil (int_errors env positive_int_vars) (level_errors (present env "LOG_LEVEL"))
        values in
    record {
      no_empty = λ key h. kept_texts env key (ap (lookup key) (sym cleaned) ∙ h);
      role = role_member-cases (role_of env) (role_errors-member (role_of env) roles);
      secrets = elim (Bool-cases (role_of env == "worker")) [
        | inl is_worker ↦ inl ((eq_iff (role_of env) "worker").0 is_worker)
        | inr is_api ↦
            let (hmac, (admin, u)) =
              secret_errors-HasSecrets env api_secret_vars (rw is_api at secrets) in
            inr (hmac, admin)
      ];
      ints = int_errors-HasInts env positive_int_vars ints;
      level = level_errors-IsLevel (present env "LOG_LEVEL") levels;
    }
