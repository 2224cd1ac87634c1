-- ===== src/Frame/FindByte.antt =====
-- The search for a byte that is not full, and for its lowest clear bit, in src/frame.c.
use fifth_kernel.Base.{
  ℕ, zero, suc, ◌+◌, ◌/◌, ◌%◌, ◌≤◌, ◌<◌, ◌≡◌, ◌≢◌, refl, arith, Bool, true, false, not, ◌&&◌,
  Option, none, some, ltb, ◌==◌, if◌then◌else◌, all_below, all_below_lem, Bool-cases, inl, inr,
  ==→eq,
}
use fifth_kernel.Frame.{Frames, bit_set, find_byte, find_bit}
use fifth_kernel.Frame.Bitmap.{allocated, allocated_bit}

-- The search in a byte stops at its lowest clear bit.
abbrev bit_test : ℕ → Bool
bit_test x = if x == 255 then true else elim (find_bit 9 x 0) [
  | none ↦ false
  | some j ↦ ltb j 8 && not (bit_set x j) && all_below j (bit_set x)
]

bit_table : all_below 256 bit_test ≡ true
unfolding all_below find_bit bit_set
bit_table = refl

pub record FoundBit (byte : ℕ) : Type 0 where
  pub at : ℕ
  pub found : find_bit 9 byte 0 ≡ some at
  pub small : at < 8
  pub clear : bit_set byte at ≡ false
  pub below : all_below at (bit_set byte) ≡ true

pub find_bit_lem : (x : ℕ) → x < 256 → x ≢ 255 → FoundBit x
find_bit_lem x h ne = split (find_bit 9 x 0) refl
  where
    split : (o : Option ℕ) → find_bit 9 x 0 ≡ o → FoundBit x
    split none e = ground (arith, all_below_lem 256 bit_test x bit_table h)
    split (some j) e = record {
      at = j;
      found = e;
      small = ground (arith, all_below_lem 256 bit_test x bit_table h);
      clear = ground (arith, all_below_lem 256 bit_test x bit_table h);
      below = ground (arith, all_below_lem 256 bit_test x bit_table h);
    }

full_table : all_below 8 (λ j. bit_set 255 j) ≡ true
unfolding all_below bit_set
full_table = refl

pub record FoundByte (fs : Frames) (left i k : ℕ) : Type 0 where
  pub at : ℕ
  pub found : find_byte left fs i ≡ some at
  pub from : i ≤ at
  pub upto : at ≤ k
  pub open_byte : fs at ≢ 255
  pub below : (x : ℕ) → i ≤ x → x < at → fs x ≡ 255

pub find_byte_lem :
    (left : ℕ) (fs : Frames) (i k : ℕ) → i ≤ k → k < i + left → fs k ≢ 255 → FoundByte fs left i k
unfolding find_byte
find_byte_lem zero fs i k p q ne = absurd (omega arith)
find_byte_lem (suc left) fs i k p q ne = elim (Bool-cases (fs i == 255)) [
  | inl full ↦
      let e : fs i ≡ 255 = ==→eq (fs i) 255 full in
      let later : i ≢ k = λ h. ne (rw (← h) e) in
      let rest = find_byte_lem left fs (i + 1) k (omega arith) (omega arith) ne in
      record {
        at = rest.at;
        found = rw full rest.found;
        from = omega arith;
        upto = rest.upto;
        open_byte = rest.open_byte;
        below = λ x a b. ground (arith, rest.below x);
      }
  | inr room ↦ record {
    at = i;
    found = rw room;
    from = omega arith;
    upto = p;
    open_byte = ground arith;
    below = λ x a b. absurd (omega arith);
  }
]

pub full_byte : (x k : ℕ) → x ≡ 255 → k < 8 → bit_set x k ≡ true
full_byte x k e h = rw e (all_below_lem 8 (λ j. bit_set 255 j) k full_table h)

-- A frame that is free stands in a byte that is not full.
pub not_full_of_free : (fs : Frames) (n : ℕ) → allocated fs n ≡ false → fs (n / 8) ≢ 255
not_full_of_free fs n free e =
    ground (arith, full_byte (fs (n / 8)) (n % 8) e (omega arith), allocated_bit fs n)
