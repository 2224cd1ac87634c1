-- ===== src/Page/AllocatePage.antt =====
-- `allocate_a_page` of src/page.c.
use fifth_kernel.Page.Footprint.{Spares, Spares-trans}
use fifth_kernel.Base.{
  ℕ, ◌+◌, ◌*◌, ◌/◌, ◌^◌, ◌≤◌, ◌<◌, ◌≡◌, ◌≢◌, refl, ◌∙◌, arith, true, ◌||◌, ◌&&◌, Option, none, some,
  ◌==◌, if◌then◌else◌, ◌⊎◌, inl, inr, leb, Bool-cases, ==→eq, ==_refl, ◌%◌,
}
use fifth_kernel.Frame.{
  Frames, frame_count, frame_bytes, allocate_frame, deallocate_frame, frame_to_phys_addr,
}
use fifth_kernel.Frame.Bitmap.{
  IsBitmap, allocated, allocate_frame_lem, allocate_frame-IsBitmap, deallocate_frame_lem,
}
use fifth_kernel.Frame.Free.{free_frame, free_frames-taken}
use fifth_kernel.Frame.Search.{IsLowestFree, first_free_frame_lem}
use fifth_kernel.Machine.{Machine}
use fifth_kernel.Machine.Returns.{Returns, returns, bind}
use fifth_kernel.Page.Err
use fifth_kernel.Page.Tree.{Places}
use fifth_kernel.Page.Allocate.{
  Allocated, first_vpn, vpn_count, map_first, finish_allocation, allocate_a_page,
}
use fifth_kernel.Page.Paged.{IsPaged, space, available, page_leaf}
use fifth_kernel.Page.FirstPage.{current, Searched, map_first-Searched}

-- Frames that are marked on top leave the table well formed.
IsPaged-frames :
    {places : Places} {root : ℕ} (s : Machine) (fs : Frames)
    → IsPaged places root s
    → IsBitmap fs
    → ((f : ℕ) → allocated s.frames f ≡ true → allocated fs f ≡ true)
    → IsPaged places root (record s { frames = fs })
IsPaged-frames s fs paged bytes more = record {
  tree = record {
    root_placed = paged.tree.root_placed;
    framed = λ t p h.
        let old = paged.tree.framed t p h in
        record {
          frame = old.frame;
          in_bitmap = old.in_bitmap;
          taken = more old.frame old.taken;
          here = old.here;
        };
    linked = paged.tree.linked;
  };
  bitmap = bytes;
  range = paged.range;
}

-- A frame was marked and mapped at the first page that could be mapped.
pub record IsGiven (s : Machine) (frame : ℕ) (r : Allocated) (s' : Machine) : Type 0 where
  pub places : Places
  pub paged : IsPaged places (current s) s'
  pub code : r.code ≡ Err.success
  pub ppn : r.ppn ≡ (s.device.ram_start + 4096 * frame) / 4096
  pub low : first_vpn ≤ r.vpn
  pub high : r.vpn ≤ 0x100000
  pub free : space (current s) s r.vpn ≡ none
  pub taken : (u : ℕ) → first_vpn ≤ u → u < r.vpn → space (current s) s u ≢ none
  pub mapped :
      (v : ℕ)
      → v < 2 ^ 27
      → space (current s) s' v
        ≡ (if v == r.vpn then some (page_leaf r.ppn) else space (current s) s v)
  pub marked : allocated s'.frames frame ≡ true
  pub held : (f : ℕ) → allocated s.frames f ≡ true → allocated s'.frames f ≡ true
  pub spares : Spares (current s) s s'

-- Every page was mapped already. The frame stays marked from 32768 on.
pub record IsRefused (s : Machine) (frame : ℕ) (r : Allocated) (s' : Machine) : Type 0 where
  pub code : r.code ≡ Err.unable_to_map
  pub zeros : (r.ppn ≡ 0) × (r.vpn ≡ 0)
  pub full : (u : ℕ) → first_vpn ≤ u → u ≤ 0x100000 → space (current s) s u ≢ none
  pub frames :
      (f : ℕ)
      → allocated s'.frames f ≡ (leb frame_bytes frame && (f == frame) || allocated s.frames f)
  pub rest : s' ≡ record s { frames = s'.frames }

abbrev pub Outcome : Machine → Allocated → Machine → Type 0
Outcome s r s' =
    (frame : ℕ) × IsLowestFree s.frames frame × (IsGiven s frame r s' ⊎ IsRefused s frame r s')

module _ {places : Places} (s : Machine) (paged : IsPaged places (current s) s)
    (given : current s ≢ 0) (enough : 3 ≤ available s) (f : ℕ) (small : f < frame_count)
    (lowest : IsLowestFree s.frames f) where
  abbrev marked_frames : Frames
  marked_frames = (allocate_frame s.frames f).0

  abbrev s1 : Machine
  s1 = record s { frames = marked_frames }

  abbrev ppn : ℕ
  ppn = (s.device.ram_start + 4096 * f) / 4096

  is_marked : (m : ℕ) → allocated marked_frames m ≡ (m == f || allocated s.frames m)
  is_marked m = ground (arith, allocate_frame_lem s.frames f m paged.bitmap)

  paged1 : IsPaged places (current s) s1
  paged1 =
      IsPaged-frames s marked_frames paged (allocate_frame-IsBitmap s.frames f paged.bitmap)
        (λ m h. ground (arith, is_marked m))

  marked-Spares : Spares (current s) s s1
  marked-Spares x out = (
    record {
      tables = out.tables;
      unused = λ g below free. out.unused g below (ground (arith, is_marked g, free));
    },
    refl,
  )

  searched :
      Returns
        (Searched (current s) s1 ppn first_vpn vpn_count)
        (map_first vpn_count ppn first_vpn s1)
  searched = map_first-Searched vpn_count first_vpn ppn s1 places paged1 given (omega arith) (
      omega (
        arith,
        enough,
        free_frames-taken s.frames marked_frames f is_marked frame_count small lowest.free,
      ))

  -- The bit of the frame goes back where `deallocate_frame` reaches it.
  given_back :
      (m : ℕ)
      → allocated (deallocate_frame marked_frames f) m
        ≡ (leb frame_bytes f && (m == f) || allocated s.frames m)
  given_back m =
      deallocate_frame_lem marked_frames f m (allocate_frame-IsBitmap s.frames f paged.bitmap)
      ∙ elim (Bool-cases (m == f)) [
        | inl same ↦ rw (is_marked m, same, ==→eq m f same, lowest.free) (ground arith)
        | inr other ↦ rw (is_marked m, other) (ground arith)
      ]

  finished :
      (r : Option ℕ) (s2 : Machine)
      → Searched (current s) s1 ppn first_vpn vpn_count r s2
      → Returns (Outcome s) (finish_allocation f ppn r s2)
  unfolding finish_allocation
  finished r s2 (inl (v, e, first)) = rw e (
      returns (
        f,
        lowest,
        inl record {
          places = first.refines.places;
          paged = first.refines.paged;
          code = refl;
          ppn = refl;
          low = first.from;
          high = omega (arith, first.upto);
          free = first.free;
          taken = first.taken;
          mapped = first.refines.mapped;
          marked = first.refines.held f (is_marked f ∙ rw (==_refl f) refl);
          held = λ m h. first.refines.held m (ground (arith, is_marked m, h));
          spares = Spares-trans (current s) s s1 s2 marked-Spares first.refines.spares;
        },
      ))
  finished r s2 (inr (e, full)) =
      rw (e, full.unchanged)
        (returns (
          f,
          lowest,
          inr record {
            code = refl;
            zeros = (refl, refl);
            full = λ u lo hi. full.taken u lo (omega arith);
            frames = given_back;
            rest = refl;
          },
        ))

-- `allocate_a_page`, in a well-formed table that `satp` names, with three free frames at hand,
-- returns. It takes the lowest free frame; if one of the pages 0x80000 to 0x100000 is not mapped it
-- reports success with the first such page, which is now mapped to the frame, and no other page
-- changes, nor any byte outside the tables and the free frames; else it reports ERR_UNABLE_TO_MAP with zeros and gives the frame back, but for a frame
-- from 32768 on, and nothing else changes.
pub allocate_a_page-Outcome :
    (places : Places) (s : Machine)
    → IsPaged places (current s) s
    → current s ≢ 0
    → 3 ≤ available s
    → Returns (Outcome s) (allocate_a_page s)
unfolding allocate_a_page frame_to_phys_addr
allocate_a_page-Outcome places s paged given enough =
    let (n, small, free) = free_frame frame_count s.frames (omega (arith, enough)) in
    let (f, found, most, lowest) = first_free_frame_lem s.frames n paged.bitmap small free in
    let at : (allocate_frame s.frames f).1 ≡ f =
      ground (arith, allocate_frame_lem s.frames f 0 paged.bitmap) in
    let fits : (f * 4096 + s.device.ram_start) % 2 ^ 64 / 4096
        ≡ (s.device.ram_start + 4096 * f) / 4096 =
      omega (arith, paged.range.no_wrap) in
    rw (found, allocate_a_page, at, fits)
      (bind (searched s paged given enough f (omega arith) lowest)
        (λ r s2 out. finished s paged given enough f (omega arith) lowest r s2 out))
