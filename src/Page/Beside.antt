-- ===== src/Page/Beside.antt =====
-- Bytes beside the frames, and stores to them: no function of src/page.c sees the difference.
use fifth_kernel.Base.{ℕ, ◌+◌, ◌*◌, ◌^◌, ◌≤◌, ◌<◌, ◌≡◌, ◌⊎◌, arith, inl, inr, some, refl}
use fifth_kernel.Memory.{Memory}
use fifth_kernel.Frame.{frame_count}
use fifth_kernel.Machine.{Machine}
use fifth_kernel.Page.Entry.{load_pte, load_pte_ext}
use fifth_kernel.Page.Walk.{prefix, field, field-lt}
use fifth_kernel.Page.Tree.{Place, place, Places, frame_addr, IsFramed, walk_same}
use fifth_kernel.Page.Update.{start, Reaches-Serves}
use fifth_kernel.Page.Footprint.{Apart, Outside}
use fifth_kernel.Page.Paged.{IsPaged, space}

-- The `n` bytes from `p` on lie before or behind the addresses at which the bitmap's frames are seen.
abbrev pub IsBeside : (p n : ℕ) → Machine → Type 0
IsBeside p n s =
    (p + n ≤ s.device.ram_start + s.ident_map_addr)
    ⊎ (s.device.ram_start + 4096 * frame_count + s.ident_map_addr ≤ p)

module _ {places : Places} {root : ℕ} (s : Machine) (paged : IsPaged places root s) (p n : ℕ)
    (beside : IsBeside p n s) where
  frame-Apart :
      (x f : ℕ)
      → p ≤ x
      → x < p + n
      → f < frame_count
      → Apart (frame_addr s.device.ram_start s.ident_map_addr f) x
  frame-Apart x f lo hi small = split beside
    where
      split : IsBeside p n s → Apart (frame_addr s.device.ram_start s.ident_map_addr f) x
      split (inl before) = inl (omega arith)
      split (inr behind) = inr (omega arith)

  pub IsBeside-Outside : (x : ℕ) → p ≤ x → x < p + n → Outside root s x
  IsBeside-Outside x lo hi = record {
    tables = λ vpn l t small reaches.
        apart (paged.tree.framed t _ (Reaches-Serves paged.tree small reaches));
    unused = λ f small free. frame-Apart x f lo hi small;
  }
    where
      apart : {t : ℕ} → IsFramed s.frames s.device.ram_start s.ident_map_addr t → Apart t x
      apart framed = rw framed.here (frame-Apart x framed.frame lo hi framed.in_bitmap)

  module _ (m : Memory) (same : (x : ℕ) → (x < p) ⊎ (p + n ≤ x) → m x ≡ s.memory x) where
    entry_same :
        (t i : ℕ) (pl : Place)
        → places t ≡ some pl
        → i < 512
        → load_pte m (t + 8 * i) ≡ load_pte s.memory (t + 8 * i)
    entry_same t i pl there small =
        load_pte_ext m s.memory (t + 8 * i)
          (λ x lo hi. same x (out (paged.tree.framed t pl there) lo hi beside))
      where
        out :
            {x : ℕ}
            → IsFramed s.frames s.device.ram_start s.ident_map_addr t
            → t + 8 * i ≤ x
            → x < t + 8 * i + 8
            → IsBeside p n s
            → (x < p) ⊎ (p + n ≤ x)
        out framed lo hi (inl before) = inr (omega (arith, framed.here))
        out framed lo hi (inr behind) = inl (omega (arith, framed.here, framed.in_bitmap))

    pub IsBeside-IsPaged : IsPaged places root (record s { memory = m })
    IsBeside-IsPaged = record {
      tree = record {
        root_placed = paged.tree.root_placed;
        framed = paged.tree.framed;
        linked = λ t l q i there small link.
            let e = entry_same t i (place l q) there small in
            rw e (paged.tree.linked t l q i there small (rw e at link));
      };
      bitmap = paged.bitmap;
      range = paged.range;
    }

    pub IsBeside-space :
        (vpn : ℕ) → vpn < 2 ^ 27 → space root (record s { memory = m }) vpn ≡ space root s vpn
    IsBeside-space vpn small =
        walk_same paged.tree m vpn 2 root (Reaches-Serves paged.tree small (start refl refl))
          (λ l t there.
            inl (entry_same t (field l vpn) (place l (prefix l vpn)) there (field-lt l vpn)))
