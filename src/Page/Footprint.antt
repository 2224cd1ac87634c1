-- ===== src/Page/Footprint.antt =====
-- The bytes that the functions of src/page.c leave alone: those that lie in no page table of the
-- root and in no free frame, such as the kernel's own.
use fifth_kernel.Base.{
  ℕ, suc, ◌+◌, ◌*◌, ◌^◌, ◌≤◌, ◌<◌, ◌≡◌, refl, ◌∙◌, Bool, true, false, some, ◌⊎◌, inl, inr,
}
use fifth_kernel.Memory.{Memory}
use fifth_kernel.Frame.{Frames, frame_count}
use fifth_kernel.Frame.Bitmap.{allocated}
use fifth_kernel.Machine.{Machine}
use fifth_kernel.Page.{table_of}
use fifth_kernel.Page.Entry.{load_pte}
use fifth_kernel.Page.Walk.{prefix, field, field-lt}
use fifth_kernel.Page.Tree.{Place, place, Places, is_link, frame_addr, IsTree}
use fifth_kernel.Page.Update.{Reaches, start, next, Reaches-Serves}

-- The byte at `x` lies outside the page at `page`.
abbrev pub Apart : (page x : ℕ) → Type 0
Apart page x = (x < page) ⊎ (page + 4096 ≤ x)

-- The byte at `x` lies in no free frame.
abbrev pub OutsideFree : Frames → (ram_start ident x : ℕ) → Type 0
OutsideFree fs ram_start ident x =
    (f : ℕ) → f < frame_count → allocated fs f ≡ false → Apart (frame_addr ram_start ident f) x

-- The byte at `x` lies in no table that a walk from the root comes to, and in no free frame.
pub record Outside (root : ℕ) (s : Machine) (x : ℕ) : Type 0 where
  pub tables :
      (vpn l t : ℕ) → vpn < 2 ^ 27 → Reaches s.memory s.ident_map_addr root vpn l t → Apart t x
  pub unused : OutsideFree s.frames s.device.ram_start s.ident_map_addr x

-- Such bytes are as before, and still lie outside.
abbrev pub Spares : (root : ℕ) → (s s' : Machine) → Type 0
Spares root s s' = (x : ℕ) → Outside root s x → Outside root s' x × (s'.memory x ≡ s.memory x)

pub Spares-refl : (root : ℕ) (s : Machine) → Spares root s s
Spares-refl root s x out = (out, refl)

pub Spares-trans :
    (root : ℕ) (s s' s'' : Machine) → Spares root s s' → Spares root s' s'' → Spares root s s''
Spares-trans root s s' s'' a b x out =
    let (mid, first) = a x out in let (last, then_same) = b x mid in (last, then_same ∙ first)

pub no_link : {A : Type 0} {b : Bool} → b ≡ false → b ≡ true → A
no_link p q = absurd (clash p q)
  where
    clash : {b : Bool} → b ≡ false → b ≡ true → ⊥
    clash p q = cc

-- A memory in which the links of the placed tables are those of `m`, but for some that lead to `New`
-- tables, which have no links.
module _ {places : Places} {root : ℕ} {m : Memory} {fs : Frames} {ram_start ident : ℕ}
    (tree : IsTree places root m fs ram_start ident) (m' : Memory) (New : ℕ → Type 0)
    (ends : (t i : ℕ) → New t → i < 512 → is_link (load_pte m' (t + 8 * i)) ≡ false)
    (leads : (t i : ℕ) (pl : Place)
      → places t ≡ some pl
      → i < 512
      → is_link (load_pte m' (t + 8 * i)) ≡ true
      → (load_pte m' (t + 8 * i) ≡ load_pte m (t + 8 * i))
        ⊎ New (table_of ident (load_pte m' (t + 8 * i)))) where
  -- A walk comes to a table that it came to in `m`, or to a new one.
  pub Reaches-back :
      {vpn l t : ℕ}
      → vpn < 2 ^ 27
      → Reaches m' ident root vpn l t
      → Reaches m ident root vpn l t ⊎ New t
  Reaches-back h (start p q) = inl (start p q)
  Reaches-back {vpn} h (next {l} {t} {t'} r link e) = split (Reaches-back h r)
    where
      split : Reaches m ident root vpn (suc l) t ⊎ New t → Reaches m ident root vpn l t' ⊎ New t'
      split (inr new) = no_link (ends t (field (suc l) vpn) new (field-lt (suc l) vpn)) link
      split (inl before) = lead (
          leads t (field (suc l) vpn) (place (suc l) (prefix (suc l) vpn))
            (Reaches-Serves tree h before) (field-lt (suc l) vpn) link)
        where
          lead :
              (load_pte m' (t + 8 * field (suc l) vpn) ≡ load_pte m (t + 8 * field (suc l) vpn))
                ⊎ New (table_of ident (load_pte m' (t + 8 * field (suc l) vpn)))
              → Reaches m ident root vpn l t' ⊎ New t'
          lead (inl same) = inl (next before (rw same at link) (rw same at e))
          lead (inr new) = inr (rw e new)
