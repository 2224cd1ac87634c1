-- ===== src/Page/Update.antt =====
-- One entry of a page table of src/page.c is written: the other walks, and the tree.
use fifth_kernel.Base.{
  ℕ, suc, ◌+◌, ◌*◌, ◌%◌, ◌^◌, ◌≤◌, ◌<◌, ◌≡◌, ◌≢◌, arith, true, Option, ◌⊎◌, inl, inr,
}
use fifth_kernel.Memory.{Memory}
use fifth_kernel.Frame.{Frames}
use fifth_kernel.Page.{table_of}
use fifth_kernel.Page.Entry.{Pte, load_pte}
use fifth_kernel.Page.Walk.{prefix, field, Leaf, visit, walk, lookup}
use fifth_kernel.Page.Tree.{Places, is_link, IsRange, IsFramed, IsTree, Serves, linked-Serves}

pub IsFramed-aligned :
    {fs : Frames} {ram_start ident t : ℕ}
    → IsRange ram_start ident
    → IsFramed fs ram_start ident t
    → t % 4096 ≡ 0
IsFramed-aligned range f = omega (arith, range.ram_aligned, range.ident_aligned, f.here)

-- Entries of aligned tables that differ in their table or index do not overlap.
pub entries_apart :
    (t t' i i' : ℕ)
    → t % 4096 ≡ 0
    → t' % 4096 ≡ 0
    → i < 512
    → i' < 512
    → (t' ≢ t) ⊎ (i' ≢ i)
    → (t' + 8 * i' + 8 ≤ t + 8 * i) ⊎ (t + 8 * i + 8 ≤ t' + 8 * i')
entries_apart t t' i i' p q h h' (inl ne) = ground arith
entries_apart t t' i i' p q h h' (inr ne) = ground arith

-- The walk of a page number from the root, as far as the table `t` of level `l`.
pub data Reaches (m : Memory) (ident root vpn : ℕ) : ℕ → ℕ → Type 0 where
  start : {l t : ℕ} → l ≡ 2 → t ≡ root → Reaches m ident root vpn l t
  next :
      {l t t' : ℕ}
      → Reaches m ident root vpn (suc l) t
      → is_link (load_pte m (t + 8 * field (suc l) vpn)) ≡ true
      → t' ≡ table_of ident (load_pte m (t + 8 * field (suc l) vpn))
      → Reaches m ident root vpn l t'

pub visit_link : (l : ℕ) (e : Pte) (a : Option Leaf) → is_link e ≡ true → visit l e a ≡ a
visit_link l e a h = ground arith

-- The walk goes on from where it has come to.
pub Reaches-lookup :
    {m : Memory} {ident root vpn l t : ℕ}
    → Reaches m ident root vpn l t
    → lookup m ident root vpn ≡ walk m ident l t vpn
Reaches-lookup (start p q) = rw (p, q)
Reaches-lookup {m} {ident} {vpn = vpn} (next {l} {t} r link e) =
    rw (Reaches-lookup r, e)
      (unfold walk in visit_link (suc l) (load_pte m (t + 8 * field (suc l) vpn)) _ link)

module _ {places : Places} {root : ℕ} {m : Memory} {fs : Frames} {ram_start ident : ℕ}
    (tree : IsTree places root m fs ram_start ident) where
  prefix_top : (vpn : ℕ) → vpn < 2 ^ 27 → prefix 2 vpn ≡ 0
  prefix_top vpn h = unfold prefix in omega arith

  pub Reaches-Serves :
      {vpn l t : ℕ} → vpn < 2 ^ 27 → Reaches m ident root vpn l t → Serves places l vpn t
  Reaches-Serves {vpn} h (start p q) = rw (p, q, prefix_top vpn h) tree.root_placed
  Reaches-Serves {vpn} h (next {l} {t} r link e) =
      rw e (linked-Serves tree l vpn t (Reaches-Serves h r) link)

  -- The walk reaches as far in another memory that has the same entries above.
  pub Reaches-transfer :
      (m' : Memory) {vpn l t : ℕ}
      → vpn < 2 ^ 27
      → ((l' t' : ℕ)
          → Serves places l' vpn t'
          → l < l'
          → load_pte m' (t' + 8 * field l' vpn) ≡ load_pte m (t' + 8 * field l' vpn))
      → Reaches m ident root vpn l t
      → Reaches m' ident root vpn l t
  Reaches-transfer m' h same (start p q) = start p q
  Reaches-transfer m' {vpn} h same (next {l} {t} r link e) =
      let eq = same (suc l) t (Reaches-Serves h r) (omega arith) in
      next (Reaches-transfer m' h (λ l' t' there above. same l' t' there (omega arith)) r)
        (rw eq link) (rw eq e)
