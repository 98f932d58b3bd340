-- ===== src/Dhash/Keys/Laws.antt =====
-- src/util/dhash.c: the callbacks for integer keys and what they are for the table.
use cstone.Prelude.{◌≢◌, sym, ap, arith, ==_iff, ne→==, u32}
use cstone.Dhash.{DhKey}
use cstone.Dhash.Keys.{gen_hash_int, equal_hash_keys_int}
use cstone.Dhash.Inv.{KeyLaws, Usable}

-- `dh_equal_hash_keys_int` is an equivalence, and `dh_gen_hash_int` respects it.
pub int-KeyLaws : KeyLaws gen_hash_int equal_hash_keys_int
unfolding gen_hash_int equal_hash_keys_int
int-KeyLaws = record {
  same = λ a. ground (arith, ==_iff a.address a.address);
  flip = λ a b e. ground (arith, ==_iff a.address b.address, ==_iff b.address a.address);
  join = λ a b c e f.
      ground
        (arith, ==_iff a.address b.address, ==_iff b.address c.address, ==_iff a.address c.address);
  hash = λ a b e. ap u32 ((==_iff a.address b.address).0 e);
}

-- Any integer but 0 is a usable key.
pub int-Usable : (key : DhKey) → key.address ≢ 0 → Usable gen_hash_int equal_hash_keys_int key
unfolding equal_hash_keys_int
int-Usable key ne e = ne→== 0 key.address (λ z. ne (sym z))
