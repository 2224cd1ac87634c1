-- ===== src/Page/Fresh.antt =====
-- The first table of src/page.c, which `enable_paging` allocates.
use fifth_kernel.Frame.Lowest.{Held, Filled, Filled-taken}
use fifth_kernel.Page.Update.{Reaches, start, next}
use fifth_kernel.Page.Walk.{field, field-lt}
use fifth_kernel.Page.Spares.{memset-Apart}
use fifth_kernel.Page.Footprint.{Outside, OutsideFree, no_link}
use fifth_kernel.Base.{
  false, suc, ℕ, ◌+◌, ◌*◌, ◌≤◌, ◌<◌, ◌≡◌, ◌≢◌, refl, sym, ◌∙◌, arith, true, false, none, some, ◌==◌,
  if◌then◌else◌, inl, inr, Bool-cases, ==→eq, ==_refl,
}
use fifth_kernel.Memory.{Memory, IsBytes}
use fifth_kernel.Mem.{memset}
use fifth_kernel.Mem.Copy.{memset_lem, memset-IsBytes}
use fifth_kernel.Frame.{Frames, frame_count}
use fifth_kernel.Frame.Bitmap.{IsBitmap}
use fifth_kernel.Frame.Free.{free_frames-taken, free_frame}
use fifth_kernel.Machine.{Machine, done}
use fifth_kernel.Page.{allocate_new_page_table}
use fifth_kernel.Page.Entry.{decode, load_pte, load_pte-zero}
use fifth_kernel.Page.Tree.{Place, place, Places, frame_addr, IsRange}
use fifth_kernel.Page.Link.{walk_empty, decode-no_link}
use fifth_kernel.Page.NewTable.{IsTaken, allocate_new_page_table_lem}
use fifth_kernel.Page.Paged.{IsPaged, space, available}
use fifth_kernel.Page.Descend.{none_not_some}

-- The root table alone.
abbrev lone : ℕ → Places
lone root t = if t == root then some (place 2 0) else none

lone-root : (root t : ℕ) (p : Place) → lone root t ≡ some p → t ≡ root
lone-root root t p h = elim (Bool-cases (t == root)) [
  | inl same ↦ ==→eq t root same
  | inr other ↦ absurd (none_not_some (sym (rw other) ∙ h))
]

zeroed : (m : Memory) (pt j : ℕ) → j < 512 → load_pte (memset m pt 0 4096) (pt + 8 * j) ≡ decode 0
zeroed m pt j h =
    load_pte-zero (memset m pt 0 4096) (pt + 8 * j)
      (λ x p q. ground (arith, memset_lem m pt 0 4096 x))

-- A walk does not leave an empty root table.
Reaches-lone :
    (m : Memory) (ident root : ℕ)
    → ((j : ℕ) → j < 512 → load_pte m (root + 8 * j) ≡ decode 0)
    → {vpn l t : ℕ} → Reaches m ident root vpn l t
    → t ≡ root
Reaches-lone m ident root empty (start p q) = q
Reaches-lone m ident root empty {vpn} (next {l} {t} r link e) = no_link decode-no_link (
    rw (Reaches-lone m ident root empty r, empty (field (suc l) vpn) (field-lt (suc l) vpn)) at
      link)

-- A root table that maps nothing was allocated in a free frame.
pub record IsFresh (s : Machine) (root : ℕ) (s' : Machine) : Type 0 where
  pub places : Places
  pub paged : IsPaged places root s'
  pub given : root ≢ 0
  pub empty : (v : ℕ) → space root s' v ≡ none
  pub frames_left : available s ≤ available s' + 1
  pub held : Held s.frames s'.frames
  pub filled : Filled s.frames s'.frames
  pub bytes : IsBytes s.memory → IsBytes s'.memory
  pub rest : s' ≡ record s { frames = s'.frames; memory = s'.memory }
  pub spares :
      (x : ℕ)
      → OutsideFree s.frames s.device.ram_start s.ident_map_addr x
      → Outside root s' x × (s'.memory x ≡ s.memory x)
  pub run : allocate_new_page_table s ≡ done root s'

pub allocate_new_page_table-IsFresh :
    (s : Machine)
    → IsBitmap s.frames
    → IsRange s.device.ram_start s.ident_map_addr
    → 0 < s.device.ram_start
    → 0 < available s
    → (root : ℕ) × (s' : Machine) × IsFresh s root s'
allocate_new_page_table-IsFresh s bytes range above enough =
    let (n, small, free) = free_frame frame_count s.frames enough in
    let (f, fs, taken, run) = allocate_new_page_table_lem s n bytes range small free in
    (root f, after f fs, fresh f fs taken run)
  where
    root : ℕ → ℕ
    root f = frame_addr s.device.ram_start s.ident_map_addr f

    after : ℕ → Frames → Machine
    after f fs = record s { frames = fs; memory = memset s.memory (root f) 0 4096 }

    fresh :
        (f : ℕ) (fs : Frames)
        → IsTaken s.frames fs f
        → allocate_new_page_table s ≡ done (root f) (after f fs)
        → IsFresh s (root f) (after f fs)
    fresh f fs taken run = record {
      places = lone (root f);
      paged = record {
        tree = record {
          root_placed = rw (==_refl (root f));
          framed = λ t p h. record {
            frame = f;
            in_bitmap = taken.in_bitmap;
            taken = rw (taken.marked f, ==_refl f);
            here = lone-root (root f) t p h;
          };
          linked = λ t l q i h low link. absurd (
              true_not_false (
                sym
                  (rw (lone-root (root f) t (place l q) h, zeroed s.memory (root f) i low) at link)
                ∙ decode-no_link));
        };
        bitmap = taken.bitmap;
        range = range;
      };
      given = λ e. omega (arith, e);
      empty = λ v.
          walk_empty (memset s.memory (root f) 0 4096) s.ident_map_addr 2 (root f) v
            (zeroed s.memory (root f));
      frames_left = omega (
        arith,
        free_frames-taken s.frames fs f taken.marked frame_count taken.in_bitmap taken.was_free,
      );
      held = λ m h. ground (arith, taken.marked m, h);
      bytes = λ h. memset-IsBytes s.memory (root f) 0 4096 h;
      filled = Filled-taken s.frames fs f taken.lowest taken.marked;
      rest = refl;
      spares = λ x out. (
        record {
          tables = λ v l t small there.
              rw
                (Reaches-lone (after f fs).memory s.ident_map_addr (root f)
                  (zeroed s.memory (root f)) there)
                (out f taken.in_bitmap taken.was_free);
          unused = λ g small free. out g small (ground (arith, taken.marked g, free));
        },
        memset-Apart s.memory (root f) x (out f taken.in_bitmap taken.was_free),
      );
      run = run;
    }
      where
        true_not_false : ¬ (true ≡ false)
        true_not_false e = cc
