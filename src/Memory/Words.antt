-- ===== src/Memory/Words.antt =====
-- Loads after stores, at every width.
use fifth_kernel.Base.{
  ℕ, zero, suc, ◌+◌, ◌*◌, ◌/◌, ◌%◌, ◌^◌, ◌≤◌, ◌<◌, ◌≡◌, refl, ap, ◌⊎◌, inl, inr, arith, ◌==◌,
  ==_refl, if◌then◌else◌,
}
use native.Mathlib.Nat.{
  pow-suc, one-le-pow, div-add-mod, mod-lt, mod-eq_of_lt, add-mul-mod_self_left,
}
use fifth_kernel.Memory.{Memory, IsBytes, write, load, store}

pub write-at : (m : Memory) (a v x : ℕ) → write m a v x ≡ (if x == a then v % 256 else m x)
unfolding write
write-at m a v x = refl

pub store_outside : (n : ℕ) (m : Memory) (a v x : ℕ) → (x < a) ⊎ (a + n ≤ x) → store n m a v x ≡ m x
unfolding store write
store_outside zero m a v x out = refl
store_outside (suc n) m a v x out =
    ground (arith, store_outside n (write m a v) (a + 1) (v / 256) x)

-- A load depends on its own bytes only.
pub load_ext :
    (n : ℕ) (m m' : Memory) (a : ℕ)
    → ((x : ℕ) → a ≤ x → x < a + n → m x ≡ m' x)
    → load n m a ≡ load n m' a
unfolding load
load_ext zero m m' a same = refl
load_ext (suc n) m m' a same = omega (
  arith,
  same a (omega arith) (omega arith),
  load_ext n m m' (a + 1) (λ x p q. same x (omega arith) (omega arith)),
)

pub load-store_apart :
    (n k : ℕ) (m : Memory) (a b v : ℕ)
    → (b + n ≤ a) ⊎ (a + k ≤ b)
    → load n (store k m a v) b ≡ load n m b
load-store_apart n k m a b v apart =
    load_ext n (store k m a v) m b (λ x p q. store_outside k m a v x (side apart p q))
  where
    side : {x : ℕ} → (b + n ≤ a) ⊎ (a + k ≤ b) → b ≤ x → x < b + n → (x < a) ⊎ (a + k ≤ x)
    side (inl h) p q = inl (omega arith)
    side (inr h) p q = inr (omega arith)

mod_digit : (v p : ℕ) → 0 < p → v % 256 + 256 * (v / 256 % p) ≡ v % (p * 256)
mod_digit v p pos =
    let low = v % 256 + 256 * (v / 256 % p) in
    let high = v / 256 / p in
    let whole : v ≡ low + p * 256 * high = omega (arith, div-add-mod (v / 256) p) in
    let small : low < p * 256 = omega (arith, mod-lt (v / 256) pos) in
    omega (
      arith,
      ap (λ t. t % (p * 256)) whole,
      add-mul-mod_self_left low (p * 256) high,
      mod-eq_of_lt small,
    )

pub write_self : (m : Memory) (a v : ℕ) → write m a v a ≡ v % 256
write_self m a v = rw (write-at, ==_refl)

load-suc : (n : ℕ) (m : Memory) (a : ℕ) → load (suc n) m a ≡ m a + 256 * load n m (a + 1)
unfolding load
load-suc n m a = refl

store-suc :
    (n : ℕ) (m : Memory) (a v : ℕ) → store (suc n) m a v ≡ store n (write m a v) (a + 1) (v / 256)
unfolding store
store-suc n m a v = refl

pub load-store : (n : ℕ) (m : Memory) (a v : ℕ) → load n (store n m a v) a ≡ v % 256 ^ n
load-store zero m a v = unfold load in omega arith
load-store (suc n) m a v =
    rw (load-suc, store-suc)
      (omega (
        arith,
        write_self m a v,
        store_outside n (write m a v) (a + 1) (v / 256) a (inl (omega arith)),
        load-store n (write m a v) (a + 1) (v / 256),
        mod_digit v (256 ^ n) (one-le-pow n 256 (omega arith)),
        ap (λ (t : ℕ). v % t) (pow-suc 256 n),
      ))

pub load-lt : (n : ℕ) (m : Memory) (a : ℕ) → IsBytes m → load n m a < 256 ^ n
unfolding load
load-lt zero m a bytes = omega arith
load-lt (suc n) m a bytes = omega (arith, bytes a, load-lt n m (a + 1) bytes, pow-suc 256 n)

pub write-IsBytes : (m : Memory) (a v : ℕ) → IsBytes m → IsBytes (write m a v)
unfolding write
write-IsBytes m a v bytes x = ground (arith, bytes x)

pub store-IsBytes : (n : ℕ) (m : Memory) (a v : ℕ) → IsBytes m → IsBytes (store n m a v)
unfolding store
store-IsBytes zero m a v bytes = bytes
store-IsBytes (suc n) m a v bytes =
    store-IsBytes n (write m a v) (a + 1) (v / 256) (write-IsBytes m a v bytes)

-- Loads at two places that hold the same bytes.
pub load_shift :
    (n : ℕ) (m m' : Memory) (a b : ℕ)
    → ((j : ℕ) → j < n → m (a + j) ≡ m' (b + j))
    → load n m a ≡ load n m' b
unfolding load
load_shift zero m m' a b same = refl
load_shift (suc n) m m' a b same =
    let first : m a ≡ m' b = rw (zero_right a, zero_right b) at (same 0 (omega arith)) in
    omega (
      arith,
      first,
      load_shift n m m' (a + 1) (b + 1)
          (λ j lt. rw (next a j, next b j) (same (suc j) (omega arith))),
    )
  where
    zero_right : (x : ℕ) → x + 0 ≡ x
    zero_right x = omega arith

    next : (x j : ℕ) → x + 1 + j ≡ x + suc j
    next x j = omega arith
