-- ===== src/Pool/CallId.antt =====
-- The ids that `add_task` gives to calls.
use protei_cov.Prelude.{
  ℕ, ◌+◌, ◌^◌, ◌%◌, ◌≡◌, ◌≢◌, ◌≤ℤ◌, ◌<ℤ◌, ◌-◌, ltb, if◌then◌else◌, ℤ, pos, negsuc, arith,
}
use protei_cov.Pool.Defs.{generate_call_id, to_u64}

-- A `long long`.
abbrev pub IsLong : ℤ → Type 0
IsLong z = (negsuc (2 ^ 63 - 1) ≤ℤ z) × (z <ℤ pos (2 ^ 63))

same_id :
    (thread : ℕ) (a b : ℤ)
    → IsLong a
    → IsLong b
    → generate_call_id thread a ≡ generate_call_id thread b
    → a ≡ b
unfolding generate_call_id
same_id thread (pos a) (pos b) ha hb e = ground arith
same_id thread (pos a) (negsuc b) ha hb e = ground arith
same_id thread (negsuc a) (pos b) ha hb e = ground arith
same_id thread (negsuc a) (negsuc b) ha hb e = ground arith

-- One thread gives different numbers different ids, although the sum wraps at 64 bits.
pub generate_call_id_distinct :
    (thread : ℕ) (a b : ℤ)
    → IsLong a
    → IsLong b
    → a ≢ b
    → generate_call_id thread a ≢ generate_call_id thread b
generate_call_id_distinct thread a b ha hb ne e = ne (same_id thread a b ha hb e)

-- A `long long` from its 64 bits.
abbrev to_long : ℕ → ℤ
to_long n = if ltb n (2 ^ 63) then pos n else negsuc (2 ^ 64 - 1 - n)

abbrev partner : ℕ → ℕ → ℤ → ℕ
partner thread other a = (2 ^ 64 - other % 2 ^ 64 + (thread + to_u64 a)) % 2 ^ 64

-- Ids are not unique across threads: for every id that a thread gives and every other hash, there is
-- a number for which a thread with that hash gives the same id.
pub generate_call_id_collides :
    (thread other : ℕ) (a : ℤ)
    → (b : ℤ) × IsLong b × (generate_call_id other b ≡ generate_call_id thread a)
unfolding generate_call_id
generate_call_id_collides thread other a =
    (to_long (partner thread other a), (ground arith, ground arith), ground arith)
