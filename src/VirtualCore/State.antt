-- ===== src/VirtualCore/State.antt =====
-- src/oep_client/virtual_core.py: the state of `Core`, and the methods on the lock.
use oep_client_python.Prelude.{
  ◌≡◌, refl, ◌⊎◌, inl, inr, ℕ, ◌+◌, ◌-◌, Bool, true, false, Option, none, some, List, [], ◌∷◌, ◌++◌,
  leb, ◌==◌, length, max, if◌then◌else◌,
}
use oep_client_python.Bytes.{Bytes, le_bytes}

-- What a Core reads of its endpoint. Each number fits the field of the answer that carries it (a number
-- that does not is struct.error in the source).
pub record Endpoint : Type 0 where
  pub max_frame : ℕ
  pub window : ℕ
  pub max_inflight : ℕ
  pub boot_id : ℕ
  pub lease_default_ms : ℕ
  pub remember_max : ℕ
  -- ep.static[0], the rows of fn 0's describe
  pub static_rows : List Bytes

-- The endpoint's clock during a request: when its handling starts, when the answer is generated, and the
-- nanoseconds that `clock` answers.
pub record Times : Type 0 where
  pub started : ℕ
  pub finished : ℕ
  pub now_ns : ℕ

-- A remembered request and its answer, each none when it is longer than `remember_max`.
pub record Entry : Type 0 where
  pub request : Option Bytes
  pub result : Option Bytes

pub record Core : Type 0 where
  pub holder : Option ℕ
  pub last : Option ℕ
  pub owner : Bytes
  pub lease : ℕ
  pub deadline : ℕ
  pub high : ℕ
  pub cache : List (ℕ × Entry)
  pub generation : ℕ
  pub renewal : Option (ℕ × ℕ)

abbrev pub initial : Core
initial = record {
  holder = none;
  last = none;
  owner = [];
  lease = 3000;
  deadline = 0;
  high = 0;
  cache = [];
  generation = 0;
  renewal = none;
}

-- A completed value, or Reject(reason, payload).
pub data Verdict {ℓ} (A : Type ℓ) : Type ℓ where
  accept : A → Verdict A
  reject : ℕ → Bytes → Verdict A

infixl 10 ◌>>=◌ ◌>>◌
abbrev pub ◌>>=◌ {ℓ κ} : {A : Type ℓ} {B : Type κ} → Verdict A → (A → Verdict B) → Verdict B
accept a >>= f = f a
reject reason payload >>= f = reject reason payload

abbrev pub ◌>>◌ {ℓ κ} : {A : Type ℓ} {B : Type κ} → Verdict A → Verdict B → Verdict B
m >> k = m >>= λ _. k

-- bytes((tag,)) + struct.pack('<H', len(value)) + value
unfoldable pub core_tlv : ℕ → Bytes → Bytes
core_tlv tag value = tag ∷ (le_bytes 2 (length value) ++ value)

unfoldable pub is_some : Option ℕ → Bool
is_some none = false
is_some (some s) = true

-- s == o, which is false for None.
unfoldable pub same_id : ℕ → Option ℕ → Bool
same_id s none = false
same_id s (some t) = s == t

unfoldable pub release : Core → Core
release c = record c { generation = c.generation + 1; holder = none; owner = [] }

unfoldable pub tick : ℕ → Core → Core
unfolding release is_some
tick now c = if is_some c.holder then (if leb c.deadline now then release c else c) else c

-- The remaining time of the lease, at least 1, and the owner if there is one.
unfoldable pub locked : ℕ → Core → Bytes
unfolding core_tlv
locked now c =
    le_bytes 4 (max 1 (c.deadline - now))
    ++ (if length c.owner == 0 then [] else core_tlv 1 c.owner)

-- response_sent(token, check_expiry=…)
unfoldable pub response_sent : Bool → ℕ → Core → Core
unfolding tick
response_sent check_expiry now c = if check_expiry then tick now c else c

pub Verdict-cases {ℓ} :
    {A : Type ℓ} (v : Verdict A)
    → ((a : A) × (v ≡ accept a)) ⊎ ((reason : ℕ) × (payload : Bytes) × (v ≡ reject reason payload))
Verdict-cases (accept a) = inl (a, refl)
Verdict-cases (reject reason payload) = inr (reason, payload, refl)
