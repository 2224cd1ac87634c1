-- ===== src/Frame/Bitmap.antt =====
-- `allocate_frame` and `deallocate_frame` of src/frame.c, bit by bit.
use fifth_kernel.Base.{
  ℕ, ◌-◌, ◌/◌, ◌%◌, ◌^◌, ◌<◌, ◌≡◌, ◌≢◌, refl, arith, bit_and, bit_or, Bool, true, false, not, ◌&&◌,
  ◌||◌, leb, ◌==◌, if◌then◌else◌, all_below, all_below_lem, Bool-cases, inl, inr, ==→eq, not_==→ne,
  eq→==, ne→not_==,
}
use fifth_kernel.Frame.{
  Frames, frame_bytes, frame_count, no_frame, set_byte, allocate_frame, deallocate_frame, bit_set,
}

abbrev pub IsBitmap : Frames → Type 0
IsBitmap fs = (i : ℕ) → fs i < 256

-- The bit of a frame is set.
unfoldable pub allocated : Frames → ℕ → Bool
unfolding bit_set
allocated fs n = bit_set (fs (n / 8)) (n % 8)

abbrev bool_eq : Bool → Bool → Bool
bool_eq true b = b
bool_eq false b = not b

bool_eq-eq : (a b : Bool) → bool_eq a b ≡ true → a ≡ b
bool_eq-eq a b h = ground arith

abbrev set_test : ℕ → ℕ → ℕ → Bool
set_test x j k = bool_eq (bit_set (bit_or x (2 ^ j) % 256) k) ((k == j) || bit_set x k)

set_table : all_below 256 (λ x. all_below 8 (λ j. all_below 8 (λ k. set_test x j k))) ≡ true
unfolding all_below bit_set
set_table = refl

bit_set-or :
    (x j k : ℕ)
    → x < 256
    → j < 8
    → k < 8
    → bit_set (bit_or x (2 ^ j) % 256) k ≡ ((k == j) || bit_set x k)
bit_set-or x j k hx hj hk = bool_eq-eq _ _ (
    all_below_lem 8 (λ k. set_test x j k) k
      (all_below_lem 8 (λ j. all_below 8 (λ k. set_test x j k)) j
        (all_below_lem 256 (λ x. all_below 8 (λ j. all_below 8 (λ k. set_test x j k))) x set_table
          hx)
        hj)
      hk)

abbrev clear_test : ℕ → ℕ → ℕ → Bool
clear_test x j k =
    bool_eq (bit_set (bit_and x (2 ^ 32 - 1 - 2 ^ j) % 256) k) (not (k == j) && bit_set x k)

clear_table : all_below 256 (λ x. all_below 8 (λ j. all_below 8 (λ k. clear_test x j k))) ≡ true
unfolding all_below bit_set
clear_table = refl

bit_set-clear :
    (x j k : ℕ)
    → x < 256
    → j < 8
    → k < 8
    → bit_set (bit_and x (2 ^ 32 - 1 - 2 ^ j) % 256) k ≡ (not (k == j) && bit_set x k)
bit_set-clear x j k hx hj hk = bool_eq-eq _ _ (
    all_below_lem 8 (λ k. clear_test x j k) k
      (all_below_lem 8 (λ j. all_below 8 (λ k. clear_test x j k)) j
        (all_below_lem 256 (λ x. all_below 8 (λ j. all_below 8 (λ k. clear_test x j k))) x
          clear_table hx)
        hj)
      hk)

-- Frames of one byte differ in their bit.
same_bit : (m n : ℕ) → m / 8 ≡ n / 8 → (m % 8 == n % 8) ≡ (m == n)
same_bit m n e = elim (Bool-cases (m == n)) [
  | inl h ↦ let p : m ≡ n = ==→eq m n h in rw (h, eq→== (m % 8) (n % 8) (omega arith))
  | inr h ↦ let p : m ≢ n = not_==→ne m n h in rw (h, ne→not_== (m % 8) (n % 8) (omega arith))
]

pub allocated_bit : (fs : Frames) (m : ℕ) → allocated fs m ≡ bit_set (fs (m / 8)) (m % 8)
unfolding allocated
allocated_bit fs m = refl

allocated-set_byte :
    (fs : Frames) (i v m : ℕ)
    → allocated (set_byte fs i v) m
      ≡ (if m / 8 == i then bit_set (v % 256) (m % 8) else allocated fs m)
allocated-set_byte fs i v m = unfold allocated in ground arith

-- `allocate_frame` on a frame of the bitmap returns the frame and sets its bit, and on any other
-- number it returns `(size_t)-1` and sets none: every other frame keeps its state.
pub allocate_frame_lem :
    (fs : Frames) (n m : ℕ)
    → IsBitmap fs
    → ((allocate_frame fs n).1 ≡ (if leb frame_count n then no_frame else n))
      × (allocated (allocate_frame fs n).0 m
          ≡ (not (leb frame_count n) && (m == n) || allocated fs m))
unfolding allocate_frame
allocate_frame_lem fs n m bytes = ground (
  arith,
  allocated-set_byte fs (n / 8) (bit_or (fs (n / 8)) (2 ^ (n % 8))) m,
  bit_set-or (fs (n / 8)) (n % 8) (m % 8) (bytes (n / 8)),
  same_bit m n,
  allocated_bit fs m,
)

pub allocate_frame-IsBitmap : (fs : Frames) (n : ℕ) → IsBitmap fs → IsBitmap (allocate_frame fs n).0
unfolding allocate_frame
allocate_frame-IsBitmap fs n bytes i = ground (arith, bytes i)

pub deallocate_frame-IsBitmap :
    (fs : Frames) (n : ℕ) → IsBitmap fs → IsBitmap (deallocate_frame fs n)
unfolding deallocate_frame
deallocate_frame-IsBitmap fs n bytes i = ground (arith, bytes i)

-- `deallocate_frame` clears the bit of a frame below 32768 and changes no other bit; from 32768 on
-- it changes nothing, although the bitmap has 262144 frames.
pub deallocate_frame_lem :
    (fs : Frames) (n m : ℕ)
    → IsBitmap fs
    → allocated (deallocate_frame fs n) m
      ≡ (not (not (leb frame_bytes n) && (m == n)) && allocated fs m)
unfolding deallocate_frame
deallocate_frame_lem fs n m bytes = ground (
  arith,
  allocated-set_byte fs (n / 8) (bit_and (fs (n / 8)) (2 ^ 32 - 1 - 2 ^ (n % 8))) m,
  bit_set-clear (fs (n / 8)) (n % 8) (m % 8) (bytes (n / 8)),
  same_bit m n,
  allocated_bit fs m,
)
