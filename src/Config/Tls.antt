-- ===== src/Config/Tls.antt =====
-- From the JSON of the servers to TLS settings, config/types.go and config/config.go.
use consul_ecs.Base.{◌==◌, String, if◌then◌else◌, Option, none, some}

-- A key of an object, absent where the object is.
abbrev pub key {ℓ κ} : {A : Type ℓ} {B : Type κ} → Option A → (A → Option B) → Option B
key none f = none
key (some a) f = f a

abbrev pub or_else {ℓ} : {A : Type ℓ} → Option A → A → A
or_else none d = d
or_else (some a) d = a

-- The protocol's own text where it is given and not empty, else the defaults'.
abbrev pub own_text {ℓ κ} :
    {A : Type ℓ} {B : Type κ} → Option A → (A → String) → Option B → (B → String) → String
own_text own f defaults g =
    let fallback = or_else (key defaults (λ d. some (g d))) "" in
    let text = or_else (key own (λ a. some (f a))) "" in if text == "" then fallback else text
