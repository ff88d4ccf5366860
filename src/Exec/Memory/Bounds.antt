-- ===== src/Exec/Memory/Bounds.antt =====
-- exec/memory.rs: which ranges and addresses the bounds checks accept.
use submilli_wasm.Base.{ℕ, ◌+◌, ◌≤◌, ◌<◌, ◌≡◌, ◌↔◌, arith}
use submilli_wasm.Error.{ok, err}
use submilli_wasm.Word.{u64_max, checked_add}
use submilli_wasm.Exec.Memory.{oob, checked_range, effective_address}

-- For a total of at most `u64::MAX`, `checked_range` returns `end` exactly if `end` is `start +
-- len`, without wrap-around, and at most the total.
pub checked_range_iff :
    (start len total end : ℕ)
    → total ≤ u64_max
    → (checked_range start len total ≡ ok end) ↔ ((end ≡ start + len) × (end ≤ total))
unfolding checked_range checked_add
checked_range_iff start len total end h = (λ e. ground arith, λ e. ground arith)

-- Any other range traps.
pub checked_range_traps :
    (start len total : ℕ) → total < start + len → checked_range start len total ≡ err oob
unfolding checked_range checked_add
checked_range_traps start len total h = ground arith

-- For a memory of at most `u64::MAX` bytes, an access of `n` bytes is let through at `ea` exactly
-- if `ea` is the address plus the offset, without wrap-around, and the `n` bytes from it lie
-- within the memory.
pub effective_address_iff :
    (n offset total addr ea : ℕ)
    → total ≤ u64_max
    → (effective_address n offset total addr ≡ ok ea) ↔ ((ea ≡ addr + offset) × (ea + n ≤ total))
unfolding effective_address checked_add
effective_address_iff n offset total addr ea h = (λ e. ground arith, λ e. ground arith)

pub effective_address_traps :
    (n offset total addr : ℕ)
    → total < addr + offset + n
    → effective_address n offset total addr ≡ err oob
unfolding effective_address checked_add
effective_address_traps n offset total addr h = ground arith
