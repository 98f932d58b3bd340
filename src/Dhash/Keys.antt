-- ===== src/Dhash/Keys.antt =====
-- src/util/dhash.c: the callbacks that it offers for keys. `memory` is the byte at an address; `char` is
-- unsigned, as on the embedded targets.
pub mod Laws
use cstone.Prelude.{
  ℕ, zero, suc, ◌+◌, ◌-◌, Bool, true, false, not, ◌&&◌, ◌==◌, leb, if◌then◌else◌, bit_xor, u32,
  ◌<<<◌,
}
use cstone.Dhash.{DhKey}

-- `toupper`, in the C locale.
abbrev pub to_upper : ℕ → ℕ
to_upper c = if leb 97 c && leb c 122 then c - 32 else c

-- The loop of the hash of a string, from its last byte back to the first one.
unfoldable pub hash_bytes : (ℕ → ℕ) → ℕ → ℕ → ℕ
hash_bytes str zero h = h
hash_bytes str (suc length) h =
    hash_bytes str length (bit_xor (u32 (h + u32 (h <<< 5))) (str length))

-- `dh_gen_hash_string`
unfoldable pub gen_hash_string : (ℕ → ℕ) → DhKey → ℕ
gen_hash_string memory key = hash_bytes (λ i. memory (key.address + i)) key.size 5381

-- `dh_gen_hash_string_no_case`
unfoldable pub gen_hash_string_no_case : (ℕ → ℕ) → DhKey → ℕ
gen_hash_string_no_case memory key =
    hash_bytes (λ i. to_upper (memory (key.address + i))) key.size 5381

-- `strncmp(...) == 0`, for the bytes from an index on.
unfoldable pub equal_bytes : (ℕ → ℕ) → (ℕ → ℕ) → ℕ → ℕ → Bool
equal_bytes a b zero i = true
equal_bytes a b (suc left) i =
    let rest = equal_bytes a b left (i + 1) in
    if not (a i == b i) then false else if a i == 0 then true else rest

-- `dh_equal_hash_keys_string`
unfoldable pub equal_hash_keys_string : (ℕ → ℕ) → DhKey → DhKey → Bool
equal_hash_keys_string memory key1 key2 =
    if not (key1.size == key2.size)
    then false
    else equal_bytes (λ i. memory (key1.address + i)) (λ i. memory (key2.address + i)) key1.size 0

-- `dh_gen_hash_int`
unfoldable pub gen_hash_int : DhKey → ℕ
gen_hash_int key = u32 key.address

-- `dh_equal_hash_keys_int`
unfoldable pub equal_hash_keys_int : DhKey → DhKey → Bool
equal_hash_keys_int key1 key2 = key1.address == key2.address
