-- ===== src/Page/Tree.antt =====
-- The well-formedness of a page table in memory. A ghost function says of each table which part of
-- the address space it serves; what the walk of one page number reads is then apart from what the
-- walk of another reads.
use fifth_kernel.Base.{
  ℕ, zero, suc, ◌+◌, ◌*◌, ◌%◌, ◌^◌, ◌≤◌, ◌<◌, ◌≡◌, arith, Bool, true, false, Option, some, ◌==◌,
  if◌then◌else◌, ◌⊎◌, inl, inr, Bool-cases,
}
use fifth_kernel.Memory.{Memory}
use fifth_kernel.Frame.{Frames, frame_count}
use fifth_kernel.Frame.Bitmap.{allocated}
use fifth_kernel.Page.{is_leaf, table_of}
use fifth_kernel.Page.Entry.{Pte, load_pte}
use fifth_kernel.Page.Walk.{prefix, field, Leaf, visit, walk, field-lt, prefix_split}

-- A table's level, and the prefix of the page numbers that it serves.
pub record Place : Type 0 where
  pub level : ℕ
  pub upper : ℕ

abbrev pub place : (level upper : ℕ) → Place
place level upper = record { level = level; upper = upper }

-- The ghost function; `none` is an address of no table.
abbrev pub Places : Type 0
Places = ℕ → Option Place

-- A valid entry that is no leaf.
abbrev pub is_link : Pte → Bool
is_link e = if e.v == 0 then false else if is_leaf e then false else true

-- The address of the table in a frame.
abbrev pub frame_addr : (ram_start ident frame : ℕ) → ℕ
frame_addr ram_start ident frame = ram_start + 4096 * frame + ident

-- Where tables can lie: no address of the bitmap's frames wraps, in either address space, and a
-- page number of theirs fits its bit-field.
pub record IsRange (ram_start ident : ℕ) : Type 0 where
  pub ram_aligned : ram_start % 4096 ≡ 0
  pub ident_aligned : ident % 4096 ≡ 0
  pub no_wrap : ram_start + 4096 * frame_count + ident ≤ 2 ^ 64
  pub fits : ram_start + 4096 * frame_count ≤ 2 ^ 56

-- A table lies in an allocated frame.
pub record IsFramed (fs : Frames) (ram_start ident table : ℕ) : Type 0 where
  pub frame : ℕ
  pub in_bitmap : frame < frame_count
  pub taken : allocated fs frame ≡ true
  pub here : table ≡ frame_addr ram_start ident frame

pub record IsTree (places : Places) (root : ℕ) (m : Memory) (fs : Frames) (ram_start ident : ℕ)
    : Type 0 where
  pub root_placed : places root ≡ some (place 2 0)
  pub framed : (t : ℕ) (p : Place) → places t ≡ some p → IsFramed fs ram_start ident t
  pub linked :
      (t l q i : ℕ)
      → places t ≡ some (place l q)
      → i < 512
      → is_link (load_pte m (t + 8 * i)) ≡ true
      → (k : ℕ) × (l ≡ suc k)
        × (places (table_of ident (load_pte m (t + 8 * i))) ≡ some (place k (q * 512 + i)))

-- The tables that the walk of a page number can meet.
abbrev pub Serves : Places → (l vpn table : ℕ) → Type 0
Serves places l vpn table = places table ≡ some (place l (prefix l vpn))

pub visit_not_link :
    (l : ℕ) (e : Pte) (a b : Option Leaf) → is_link e ≡ false → visit l e a ≡ visit l e b
visit_not_link l e a b h = ground arith

module _ {places : Places} {root : ℕ} {m : Memory} {fs : Frames} {ram_start ident : ℕ}
    (tree : IsTree places root m fs ram_start ident) where
  -- A link on the way of a page number leads to the table that serves it one level down.
  pub linked-Serves :
      (l vpn t : ℕ)
      → Serves places (suc l) vpn t
      → is_link (load_pte m (t + 8 * field (suc l) vpn)) ≡ true
      → Serves places l vpn (table_of ident (load_pte m (t + 8 * field (suc l) vpn)))
  linked-Serves l vpn t here link = below (
      tree.linked t (suc l) (prefix (suc l) vpn) (field (suc l) vpn) here (field-lt (suc l) vpn)
        link)
    where
      below :
          (k : ℕ) × (suc l ≡ suc k)
            × (places (table_of ident (load_pte m (t + 8 * field (suc l) vpn)))
                ≡ some (place k (prefix (suc l) vpn * 512 + field (suc l) vpn)))
          → Serves places l vpn (table_of ident (load_pte m (t + 8 * field (suc l) vpn)))
      below (k, e, found) = let same : k ≡ l = omega arith in rw (found, same, ← prefix_split l vpn)

  pub no_link_at_zero :
      (vpn t : ℕ) → Serves places 0 vpn t → is_link (load_pte m (t + 8 * field 0 vpn)) ≡ false
  no_link_at_zero vpn t here = elim (Bool-cases (is_link (load_pte m (t + 8 * field 0 vpn)))) [
    | inl link ↦
        absurd (
          omega
            (arith, (tree.linked t 0 (prefix 0 vpn) (field 0 vpn) here (field-lt 0 vpn) link).1))
    | inr h ↦ h
  ]

  -- Two memories give a page number the same leaf, if on its way each entry is the same or the
  -- walks from there on agree.
  pub walk_same :
      (m' : Memory) (vpn l t : ℕ)
      → Serves places l vpn t
      → ((l' t' : ℕ)
          → Serves places l' vpn t'
          → (load_pte m' (t' + 8 * field l' vpn) ≡ load_pte m (t' + 8 * field l' vpn))
            ⊎ (walk m' ident l' t' vpn ≡ walk m ident l' t' vpn))
      → walk m' ident l t vpn ≡ walk m ident l t vpn
  walk_same m' vpn zero t here same = split (same zero t here)
    where
      split :
          (load_pte m' (t + 8 * field zero vpn) ≡ load_pte m (t + 8 * field zero vpn))
            ⊎ (walk m' ident zero t vpn ≡ walk m ident zero t vpn)
          → walk m' ident zero t vpn ≡ walk m ident zero t vpn
      split (inl e) = unfold walk in rw e
      split (inr e) = e
  walk_same m' vpn (suc l) t here same =
      split (same (suc l) t here) (λ t' there. walk_same m' vpn l t' there same)
    where
      e : Pte
      e = load_pte m (t + 8 * field (suc l) vpn)

      down :
          ((t' : ℕ) → Serves places l vpn t' → walk m' ident l t' vpn ≡ walk m ident l t' vpn)
          → visit (suc l) e (walk m' ident l (table_of ident e) vpn)
            ≡ visit (suc l) e (walk m ident l (table_of ident e) vpn)
      down ih = elim (Bool-cases (is_link e)) [
        | inl link ↦ rw (ih (table_of ident e) (linked-Serves l vpn t here link))
        | inr stop ↦ visit_not_link (suc l) e _ _ stop
      ]

      split :
          (load_pte m' (t + 8 * field (suc l) vpn) ≡ e)
            ⊎ (walk m' ident (suc l) t vpn ≡ walk m ident (suc l) t vpn)
          → ((t' : ℕ) → Serves places l vpn t' → walk m' ident l t' vpn ≡ walk m ident l t' vpn)
          → walk m' ident (suc l) t vpn ≡ walk m ident (suc l) t vpn
      split (inr q) ih = q
      split (inl q) ih = unfold walk in rw q (down ih)
