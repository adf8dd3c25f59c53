-- ===== src/Cache.antt =====
-- internal/cache/cache.go: values that expire. The clock is an argument, and `none` in the place of an
-- expiry is the zero time. A copy of a value is the value.
pub mod Lifetime
use travel_mcp.Prelude.{
  ℕ, zero, suc, ◌+◌, String, Bool, true, false, List, Option, none, some, ltb, str_eq,
  if◌then◌else◌, ℤ, pos, negsuc, update,
}

pub record Entry : Type 0 where
  pub val : List ℕ
  pub exp : Option ℕ

abbrev pub MemoryCache : Type 0
MemoryCache = String → Option Entry

pub new_memory : MemoryCache
new_memory k = none

-- `time.Now().After(e.exp)`, for an expiry that is set.
pub expired : ℕ → Entry → Bool
expired now e = elim e.exp [ none ↦ false | some t ↦ ltb t now ]

pub delete : MemoryCache → String → MemoryCache
delete m k j = if str_eq k j then none else m j

pub get : ℕ → MemoryCache → String → MemoryCache × Option (List ℕ)
get now m k = elim (m k) [
  | none ↦ (m, none)
  | some e ↦ elim (expired now e) [ true ↦ (delete m k, none) | false ↦ (m, some e.val) ]
]

-- A lifetime that is not positive is no bound.
pub expiry : ℕ → ℤ → Option ℕ
expiry now (pos (suc n)) = some (now + suc n)
expiry now (pos zero) = none
expiry now (negsuc n) = none

pub set : ℕ → MemoryCache → String → List ℕ → ℤ → MemoryCache
set now m k v ttl = update m k (record { val = v; exp = expiry now ttl })
