-- ===== src/Agent/Sanitization.antt =====
-- agent/sanitization.py: what is stored, or shown to the model again, is bounded and has no value
-- under a sensitive key. `redact n` is `_SENSITIVE_VALUE_PATTERNS[n].sub`.
pub mod Clean
use ai_support_engineering_p.Agent.Env.{Env}
use ai_support_engineering_p.Common.{
  Bool, List, Text, [], any, codes, contains, if◌then◌else◌, leb, suc, take, text_eq, zero, ℕ, ◌&&◌,
  ◌++◌, ◌+◌, ◌==◌, ◌∷◌,
}
use ai_support_engineering_p.Db.Json.{
  Fields, Items, Value, array, boolean, cons, end, field, float, integer, nil, null, object, text,
}

abbrev pub sensitive_key_parts : List Text
sensitive_key_parts =
    codes "authorization"
    ∷ codes "cookie"
    ∷ codes "credential"
    ∷ codes "password"
    ∷ codes "secret"
    ∷ codes "token"
    ∷ codes "api_key"
    ∷ codes "apikey"
    ∷ []

-- `str.lower` on one character, as far as it gives an ASCII letter: the ASCII capitals, U+0130 and
-- the Kelvin sign. Other characters lower to texts without one, so no part begins or ends there.
abbrev pub lower_char : ℕ → Text
lower_char c =
    if leb 65 c && leb c 90
    then (c + 32) ∷ []
    else if c == 304
    then 105 ∷ 775 ∷ []
    else if c == 8490
    then 107 ∷ []
    else c ∷ []

abbrev pub lower_text : Text → Text
lower_text [] = []
lower_text (c ∷ t) = lower_char c ++ lower_text t

unfoldable pub is_sensitive : Text → Bool
is_sensitive key = any (λ part. contains part (lower_text key)) sensitive_key_parts

abbrev pub redacted : Value
redacted = text (codes "[redacted]")

-- From depth 5 on every value is replaced.
abbrev pub depth_limited : ℕ → Value → Value
depth_limited depth v = if leb 5 depth then text (codes "[depth-limited]") else v

-- `result[key] = value`.
abbrev pub set_field : Text → Value → Fields → Fields
set_field key v end = field key v end
set_field key v (field k u rest) =
    if text_eq k key then field k v rest else field k u (set_field key v rest)

abbrev pub hidden : Text → Value → Value
hidden key v = if is_sensitive key then redacted else v

module _ (env : Env) where
  unfoldable pub sanitize_text : Text → Text
  sanitize_text value = take 2000 (env.redact 2 (env.redact 1 (env.redact 0 value)))

  unfoldable mutual
    pub sanitize_value : ℕ → Value → Value
    sanitize_value depth null = depth_limited depth null
    sanitize_value depth (boolean b) = depth_limited depth (boolean b)
    sanitize_value depth (integer i) = depth_limited depth (integer i)
    sanitize_value depth (float bits) = depth_limited depth (float bits)
    sanitize_value depth (text t) = depth_limited depth (text (sanitize_text t))
    sanitize_value depth (array items) =
        depth_limited depth (array (sanitize_items (depth + 1) 50 items))
    sanitize_value depth (object fields) =
        depth_limited depth (object (sanitize_fields (depth + 1) 50 fields end))

    -- The first `room` items, each at the given depth.
    pub sanitize_items : ℕ → ℕ → Items → Items
    sanitize_items depth room nil = nil
    sanitize_items depth zero (cons v rest) = nil
    sanitize_items depth (suc room) (cons v rest) =
        cons (sanitize_value depth v) (sanitize_items depth room rest)

    -- The first `room` fields, written in turn to the result so far.
    pub sanitize_fields : ℕ → ℕ → Fields → Fields → Fields
    sanitize_fields depth room end result = result
    sanitize_fields depth zero (field k v rest) result = result
    sanitize_fields depth (suc room) (field k v rest) result =
        sanitize_fields depth room rest
          (set_field (take 120 k) (hidden (take 120 k) (sanitize_value depth v)) result)

  -- `sanitize_value` of a dictionary.
  unfoldable pub sanitize_data : Fields → Fields
  sanitize_data fields = sanitize_fields 1 50 fields end
