-- ===== src/MonitorStore/KeyOrder.antt =====
-- The order of keys, `operator<`.
use cpp_tlfss.Base.{true, false, not, ◌&&◌, ◌≡◌, arith}
use cpp_tlfss.MonitorStore.Data.{MonitorKey, key_lt, key_eq}

pub key_lt-irreflexive : (a : MonitorKey) → key_lt a a ≡ false
unfolding key_lt
key_lt-irreflexive a = ground arith

pub key_lt-transitive :
    (a b c : MonitorKey) → key_lt a b ≡ true → key_lt b c ≡ true → key_lt a c ≡ true
unfolding key_lt
key_lt-transitive a b c h k = ground arith

pub key_lt-asymmetric : (a b : MonitorKey) → key_lt a b ≡ true → key_lt b a ≡ false
unfolding key_lt
key_lt-asymmetric a b h = ground arith

-- Keys that are not ordered either way are equal.
pub key_lt-total : (a b : MonitorKey) → key_lt a b ≡ false → key_lt b a ≡ false → a ≡ b
unfolding key_lt
key_lt-total a b h k = grind arith

-- Keys are equal when neither is before the other, as the map takes it.
pub key_eq-lt : (a b : MonitorKey) → key_eq a b ≡ not (key_lt a b) && not (key_lt b a)
unfolding key_lt key_eq
key_eq-lt a b = ground arith

-- A key that is not before another, but behind one that is not before it, is behind it.
pub key_lt-between :
    (a b c : MonitorKey) → key_lt a b ≡ true → key_lt c b ≡ false → key_lt a c ≡ true
unfolding key_lt
key_lt-between a b c h k = ground arith

pub key_eq-reflexive : (a : MonitorKey) → key_eq a a ≡ true
unfolding key_eq
key_eq-reflexive a = ground arith
