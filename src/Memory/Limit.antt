-- ===== src/Memory/Limit.antt =====
-- The names of the eviction modes, of crates/seedstone-core/src/memory.rs.
use seedstone.Base.{
  ◌≡◌, refl, ap, Bytes, bytes_eq, bytes_eq_iff, ◌↔◌, some, inl, inr, false≢true, is_some,
  Bool-cases, some-inj,
}
use seedstone.Memory
use seedstone.Memory.{
  EvictionMode, name, from_name, parse_bytes, parse_u64, split_scale, lowered, suffixes,
  checked_mul,
}

from_name-name : (mode : EvictionMode) → from_name (name mode) ≡ some mode
unfolding from_name name
from_name-name Memory.all_keys_lru = refl
from_name-name Memory.no_eviction = refl

-- A text is read as a mode exactly when it is the name that the mode prints.
pub from_name_iff :
    (text : Bytes) (mode : EvictionMode) → (from_name text ≡ some mode) ↔ (name mode ≡ text)
unfolding from_name
from_name_iff text mode = (
  λ e. elim (Bool-cases (bytes_eq (name Memory.all_keys_lru) text)) [
    | inl first ↦
        rw (← some-inj {a = Memory.all_keys_lru} (rw (from_name, first) at e))
          ((bytes_eq_iff (name Memory.all_keys_lru) text).0 first)
    | inr other ↦ elim (Bool-cases (bytes_eq (name Memory.no_eviction) text)) [
      | inl second ↦
          rw (← some-inj {a = Memory.no_eviction} (rw (from_name, other, second) at e))
            ((bytes_eq_iff (name Memory.no_eviction) text).0 second)
      | inr neither ↦ absurd (false≢true (ap is_some (rw (from_name, other, neither) at e)))
    ]
  ],
  λ e. rw (← e) (from_name-name mode),
)
