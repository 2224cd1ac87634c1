-- ===== src/Page/Entry.antt =====
-- `pte_rv39_t`: the bit-fields of an entry, lowest first, in 64 bits.
use fifth_kernel.Base.{ℕ, ◌+◌, ◌*◌, ◌/◌, ◌%◌, ◌^◌, ◌≤◌, ◌<◌, ◌≡◌, refl, ap, ◌∙◌, ◌⊎◌, arith}
use fifth_kernel.Memory.{Memory, load, store, IsBytes}
use fifth_kernel.Memory.Words.{
  load-store, load-store_apart, load_ext, store_outside, load_shift, store-IsBytes,
}

pub record Pte : Type 0 where
  pub v : ℕ
  pub r : ℕ
  pub w : ℕ
  pub x : ℕ
  pub u : ℕ
  pub g : ℕ
  pub a : ℕ
  pub d : ℕ
  pub rsw : ℕ
  pub ppn : ℕ
  pub reserved : ℕ
  pub pbmt : ℕ
  pub n : ℕ

unfoldable pub decode : ℕ → Pte
decode e = record {
  v = e % 2;
  r = e / 2 % 2;
  w = e / 2 ^ 2 % 2;
  x = e / 2 ^ 3 % 2;
  u = e / 2 ^ 4 % 2;
  g = e / 2 ^ 5 % 2;
  a = e / 2 ^ 6 % 2;
  d = e / 2 ^ 7 % 2;
  rsw = e / 2 ^ 8 % 2 ^ 2;
  ppn = e / 2 ^ 10 % 2 ^ 44;
  reserved = e / 2 ^ 54 % 2 ^ 7;
  pbmt = e / 2 ^ 61 % 2 ^ 2;
  n = e / 2 ^ 63 % 2;
}

unfoldable pub encode : Pte → ℕ
encode p =
    p.v
    + p.r * 2
    + p.w * 2 ^ 2
    + p.x * 2 ^ 3
    + p.u * 2 ^ 4
    + p.g * 2 ^ 5
    + p.a * 2 ^ 6
    + p.d * 2 ^ 7
    + p.rsw * 2 ^ 8
    + p.ppn * 2 ^ 10
    + p.reserved * 2 ^ 54
    + p.pbmt * 2 ^ 61
    + p.n * 2 ^ 63

-- Every field fits its width.
pub record IsPte (p : Pte) : Type 0 where
  pub v_fits : p.v < 2
  pub r_fits : p.r < 2
  pub w_fits : p.w < 2
  pub x_fits : p.x < 2
  pub u_fits : p.u < 2
  pub g_fits : p.g < 2
  pub a_fits : p.a < 2
  pub d_fits : p.d < 2
  pub rsw_fits : p.rsw < 4
  pub ppn_fits : p.ppn < 2 ^ 44
  pub reserved_fits : p.reserved < 2 ^ 7
  pub pbmt_fits : p.pbmt < 4
  pub n_fits : p.n < 2

pub decode-IsPte : (e : ℕ) → IsPte (decode e)
unfolding decode
decode-IsPte e = omega arith

pub encode-lt : {p : Pte} → IsPte p → encode p < 2 ^ 64
unfolding encode
encode-lt is = omega arith

-- An entry whose fields fit their widths comes back from the 64-bit word that holds it.
pub decode-encode : {p : Pte} → IsPte p → decode (encode p) ≡ p
unfolding decode encode
decode-encode is = ground arith

-- Every 64-bit word comes back from the fields that it is read as.
pub encode-decode : (e : ℕ) → e < 2 ^ 64 → encode (decode e) ≡ e
unfolding decode encode
encode-decode e h = omega arith

unfoldable pub load_pte : Memory → ℕ → Pte
load_pte m a = decode (load 8 m a)

unfoldable pub store_pte : Memory → ℕ → Pte → Memory
store_pte m a p = store 8 m a (encode p)

pub load_pte-IsPte : (m : Memory) (a : ℕ) → IsPte (load_pte m a)
unfolding load_pte
load_pte-IsPte m a = decode-IsPte (load 8 m a)

pub load_pte-store_pte : (m : Memory) (a : ℕ) (p : Pte) → IsPte p → load_pte (store_pte m a p) a ≡ p
unfolding load_pte store_pte
load_pte-store_pte m a p is =
    let whole : encode p % 256 ^ 8 ≡ encode p = omega (arith, encode-lt is) in
    rw (load-store, whole) (decode-encode is)

pub load_pte-store_pte_apart :
    (m : Memory) (a b : ℕ) (p : Pte)
    → (b + 8 ≤ a) ⊎ (a + 8 ≤ b)
    → load_pte (store_pte m a p) b ≡ load_pte m b
unfolding load_pte store_pte
load_pte-store_pte_apart m a b p apart = ap decode (load-store_apart 8 8 m a b (encode p) apart)

pub store_pte_outside :
    (m : Memory) (a x : ℕ) (p : Pte) → (x < a) ⊎ (a + 8 ≤ x) → store_pte m a p x ≡ m x
unfolding store_pte
store_pte_outside m a x p out = store_outside 8 m a (encode p) x out

pub load_pte_ext :
    (m m' : Memory) (a : ℕ)
    → ((x : ℕ) → a ≤ x → x < a + 8 → m x ≡ m' x)
    → load_pte m a ≡ load_pte m' a
unfolding load_pte
load_pte_ext m m' a same = ap decode (load_ext 8 m m' a same)

pub load_pte_shift :
    (m m' : Memory) (a b : ℕ)
    → ((j : ℕ) → j < 8 → m (a + j) ≡ m' (b + j))
    → load_pte m a ≡ load_pte m' b
unfolding load_pte
load_pte_shift m m' a b same = ap decode (load_shift 8 m m' a b same)

pub store_pte-IsBytes : (m : Memory) (a : ℕ) (p : Pte) → IsBytes m → IsBytes (store_pte m a p)
unfolding store_pte
store_pte-IsBytes m a p bytes = store-IsBytes 8 m a (encode p) bytes

-- An entry of zero bytes has every field zero.
pub load_pte-zero :
    (m : Memory) (a : ℕ) → ((x : ℕ) → a ≤ x → x < a + 8 → m x ≡ 0) → load_pte m a ≡ decode 0
unfolding load_pte
load_pte-zero m a zeros = ap decode (load_ext 8 m (λ _. 0) a zeros ∙ load-zero a)
  where
    load-zero : (a : ℕ) → load 8 (λ _. 0) a ≡ 0
    load-zero a = unfold load in refl

load_bytes :
    (m : Memory) (a : ℕ)
    → load 8 m a
      ≡ m a
        + 256
          * (m (a + 1)
              + 256
                * (m (a + 2)
                    + 256
                      * (m (a + 3)
                          + 256
                            * (m (a + 4)
                                + 256 * (m (a + 5) + 256 * (m (a + 6) + 256 * m (a + 7)))))))
unfolding load
load_bytes m a =
    let e2 : m (a + 1 + 1) ≡ m (a + 2) = ap m (omega arith) in
    let e3 : m (a + 1 + 1 + 1) ≡ m (a + 3) = ap m (omega arith) in
    let e4 : m (a + 1 + 1 + 1 + 1) ≡ m (a + 4) = ap m (omega arith) in
    let e5 : m (a + 1 + 1 + 1 + 1 + 1) ≡ m (a + 5) = ap m (omega arith) in
    let e6 : m (a + 1 + 1 + 1 + 1 + 1 + 1) ≡ m (a + 6) = ap m (omega arith) in
    let e7 : m (a + 1 + 1 + 1 + 1 + 1 + 1 + 1) ≡ m (a + 7) = ap m (omega arith) in
    omega (arith, e2, e3, e4, e5, e6, e7)

-- The eight bytes of an entry in memory hold its fields where the architecture has them, low bits
-- first: V, R, W, X, U, G, A and D are the bits of the first byte; RSW the two low bits of the
-- second; the page number goes on from there to the six low bits of the seventh; then come seven
-- reserved bits, two of PBMT, and N as the highest bit. Every field fits its width.
pub load_pte-layout :
    (m : Memory) (addr : ℕ)
    → IsBytes m
    → (let e = load_pte m addr in
        IsPte e
        × (m addr ≡ e.v + 2 * e.r + 4 * e.w + 8 * e.x + 16 * e.u + 32 * e.g + 64 * e.a + 128 * e.d)
        × (m (addr + 1) ≡ e.rsw + 4 * (e.ppn % 64))
        × (m (addr + 2) ≡ e.ppn / 2 ^ 6 % 256)
        × (m (addr + 3) ≡ e.ppn / 2 ^ 14 % 256)
        × (m (addr + 4) ≡ e.ppn / 2 ^ 22 % 256)
        × (m (addr + 5) ≡ e.ppn / 2 ^ 30 % 256)
        × (m (addr + 6) ≡ e.ppn / 2 ^ 38 + 64 * (e.reserved % 4))
        × (m (addr + 7) ≡ e.reserved / 4 + 32 * e.pbmt + 128 * e.n))
unfolding load_pte decode
load_pte-layout m addr bytes = omega (
  arith,
  load_bytes m addr,
  bytes addr,
  bytes (addr + 1),
  bytes (addr + 2),
  bytes (addr + 3),
  bytes (addr + 4),
  bytes (addr + 5),
  bytes (addr + 6),
  bytes (addr + 7),
)
