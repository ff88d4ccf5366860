-- ===== src/Store/Gc/Handle.antt =====
-- store/gc.rs: the handles of `i31` values.
use submilli_wasm.Base.{ℕ, ◌+◌, ◌%◌, ◌^◌, ◌<◌, ◌≤◌, ◌≡◌, ◌⊎◌, arith, if◌then◌else◌, ltb}
use submilli_wasm.Store.Gc.{AnyRefHandle, anyref_handle_i31, decode_anyref_handle}

-- For a 32-bit pattern, the handle of an `i31` decodes to an `i31` whose low 31 bits are the
-- value's and whose top bit repeats bit 30; so a pattern whose two top bits agree comes back
-- itself.
pub decode_anyref_handle-anyref_handle_i31 :
    (v : ℕ)
    → v < 2 ^ 32
    → (decode_anyref_handle (anyref_handle_i31 v)
        ≡ AnyRefHandle.i31 (v % 2 ^ 31 + (if ltb (v % 2 ^ 31) (2 ^ 30) then 0 else 2 ^ 31)))
      × (((v < 2 ^ 30) ⊎ (2 ^ 31 + 2 ^ 30 ≤ v))
          → decode_anyref_handle (anyref_handle_i31 v) ≡ AnyRefHandle.i31 v)
unfolding decode_anyref_handle anyref_handle_i31
decode_anyref_handle-anyref_handle_i31 v h = ground arith
