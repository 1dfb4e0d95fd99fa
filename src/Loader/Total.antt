-- ===== src/Loader/Total.antt =====
-- `load` of Project 3/userprog/process.c returns, and gives the file system's lock back.
use comp_sys_pint_os.Base.{
  ℕ, zero, suc, ◌+◌, ◌*◌, ◌/◌, ◌%◌, ◌^◌, ◌<◌, ◌≡◌, refl, Bool, true, false, inl, inr, Option, none,
  some, Outcome, returns, panic, Returns, Returns->>=, ◌>>=◌, arith, ◌==◌, ltb, leb, ◌||◌,
  Bool-cases, SameFailure, SameFailure->>=, stuck, ◌⊎◌, ap, sym, subst, if_true, if_false, not,
  assert-true,
}
use comp_sys_pint_os.Platform.{Platform, IsPlatform, page_size, u32}
use comp_sys_pint_os.Elf.{Ehdr, Phdr, Segment, segment_of, validate_segment}
use comp_sys_pint_os.Elf.Validate.{IsWord, validate_segment_sound}
use comp_sys_pint_os.Elf.Arithmetic.{IsCovering, segment_of-IsCovering}
use comp_sys_pint_os.Loader.{
  World, LoadState, after_add, fill_pages, load_segment, segment_fuel, valid_ehdr, load_phdr,
  load_read_phdr, load_phdrs, load_stack, load_ehdr, load_file, load_mapped, load, load_done,
  if_loaded,
}
use comp_sys_pint_os.Loader.Pages.{fill_pages-suc}

-- What the file system delivers: words, and lengths that fit an off_t.
pub record DeliversWords {S : Type 0} (w : World S) : Type 0 where
  pub words : (s : S) (p : Phdr) → (w.read_phdr s).0 ≡ some p → IsWord p
  pub length_word : (s : S) → w.file_length s < 2 ^ 31

module _ {S : Type 0} (w : World S) where
  IsSome : Option (Bool × S) → Type 0
  IsSome o = (r : Bool × S) × (o ≡ some r)

  after_add-IsSome :
      (p : Bool × S) (k : S → Option (Bool × S))
      → ((s : S) → IsSome (k s))
      → IsSome (after_add w p k)
  unfolding after_add IsSome
  after_add-IsSome (true, s) k h = h s
  after_add-IsSome (false, s) k h = ((false, s), refl)

  fill_pages-IsSome :
      (n fuel o u r z : ℕ) (writable : Bool) (s : S)
      → n < fuel
      → r + z ≡ page_size * n
      → r + z < 2 ^ 32
      → IsSome (fill_pages w fuel o u r z writable s)
  fill_pages-IsSome n zero o u r z writable s lt sum fits = absurd (omega arith)
  fill_pages-IsSome zero (suc fuel) o u r z writable s lt sum fits =
      unfold fill_pages IsSome in ((true, s), ground arith)
  fill_pages-IsSome (suc n) (suc fuel) o u r z writable s lt sum fits =
      rw (fill_pages-suc w fuel o u r z writable s (omega arith)) (
        after_add-IsSome _ _ λ t.
          fill_pages-IsSome n fuel _ _ _ _ writable t (omega arith) (omega arith) (omega arith))

  load_segment-Returns :
      (o u r z : ℕ) (writable : Bool) (s : S)
      → (r + z) % page_size ≡ 0
      → u % page_size ≡ 0
      → o % page_size ≡ 0
      → r + z < 2 ^ 32
      → Returns (λ _. Unit {0}) (load_segment w o u r z writable s)
  unfolding load_segment IsSome
  load_segment-Returns o u r z writable s whole ua oa fits = rw (whole', ua', oa', found.1) tt
    where
      whole' : (u32 (r + z) % page_size == 0) ≡ true
      whole' = ground arith

      ua' : (u % page_size == 0) ≡ true
      ua' = ground arith

      oa' : (o % page_size == 0) ≡ true
      oa' = ground arith

      found : IsSome (fill_pages w (segment_fuel w r z) o u r z writable (w.file_seek o s))
      found =
          fill_pages-IsSome ((r + z) / page_size) _ o u r z writable _ (omega arith) (omega arith)
            fits

-- What a part of `load` leaves as it was: the lock stays held.
abbrev Holds : {S : Type 0} → Bool × LoadState S → Type 0
Holds r = r.1.file_lock ≡ true

module _ {S : Type 0} (w : World S) (pf : Platform) (lawful : IsPlatform pf)
    (delivers : DeliversWords w) where
  load_phdr-Holds :
      (p : Phdr) (s : LoadState S)
      → IsWord p
      → s.file_lock ≡ true
      → Returns Holds (load_phdr w pf p s)
  unfolding load_phdr
  load_phdr-Holds p s words held =
      elim (Bool-cases (validate_segment pf p (w.file_length s.world))) [
        | inl valid ↦
            let c =
              segment_of-IsCovering pf lawful p (w.file_length s.world) words
                (validate_segment_sound pf lawful p _ words (delivers.length_word s.world) valid) in
            ground (arith, loads c)
        | inr bad ↦ ground arith
      ]
    where
      g : Segment
      g = segment_of pf p

      loads :
          IsCovering pf.phys_base p g
          → Returns Holds (
              load_segment w g.file_page g.mem_page g.read_bytes g.zero_bytes g.writable s.world
              >>= λ r. returns (r.0, record s { world = r.1 }))
      loads c =
          Returns->>= (λ _. Unit {0}) Holds
            (load_segment w g.file_page g.mem_page g.read_bytes g.zero_bytes g.writable s.world)
            (λ r. returns (r.0, record s { world = r.1 }))
            (load_segment-Returns w g.file_page g.mem_page g.read_bytes g.zero_bytes g.writable
              s.world c.whole_pages c.page_aligned c.file_aligned
              (omega (arith, c.in_user_memory, lawful.base_fits)))
            (λ a _. held)

  load_read_phdr-Holds :
      (r : Option Phdr × S) (s : LoadState S)
      → ((p : Phdr) → r.0 ≡ some p → IsWord p)
      → s.file_lock ≡ true
      → Returns Holds (load_read_phdr w pf r s)
  unfolding load_read_phdr
  load_read_phdr-Holds (none, t) s words held = held
  load_read_phdr-Holds (some p, t) s words held = load_phdr-Holds p _ (words p refl) held

  if_loaded-Holds :
      (r : Bool × LoadState S) (f : LoadState S → Outcome (Bool × LoadState S))
      → Holds r
      → ((s : LoadState S) → s.file_lock ≡ true → Returns Holds (f s))
      → Returns Holds (if_loaded w r f)
  if_loaded-Holds (true, s) f held k = k s held
  if_loaded-Holds (false, s) f held k = held

  load_phdrs-Holds :
      (left file_ofs : ℕ) (s : LoadState S)
      → s.file_lock ≡ true
      → Returns Holds (load_phdrs w pf left file_ofs s)
  unfolding load_phdrs
  load_phdrs-Holds zero file_ofs s held = held
  load_phdrs-Holds (suc left) file_ofs s held =
      elim (Bool-cases (leb (2 ^ 31) file_ofs || ltb (w.file_length s.world) file_ofs)) [
        | inl outside ↦ rw outside held
        | inr inside ↦ rw inside (
            Returns->>= Holds Holds _ _
              (load_read_phdr-Holds (w.read_phdr t) _ (delivers.words t) held)
              (λ r held'. if_loaded-Holds r _ held' (load_phdrs-Holds left _)))
      ]
    where
      t : S
      t = w.file_seek file_ofs s.world

  -- The outcome is that of `setup_stack` in some world, where it panics or is undefined.
  abbrev pub StackFails : Outcome (Bool × LoadState S) → Type 0
  StackFails o = (v : S) × SameFailure (w.setup_stack v) o

  -- The function returns as promised, or `setup_stack` does not return.
  abbrev Ends : (Bool × LoadState S → Type 0) → Outcome (Bool × LoadState S) → Type 0
  Ends P o = Returns P o ⊎ StackFails o

  Ends-after :
      (P Q : Bool × LoadState S → Type 0) (m : Outcome (Bool × LoadState S))
      (f : Bool × LoadState S → Outcome (Bool × LoadState S))
      → Returns P m
      → ((r : Bool × LoadState S) → P r → Ends Q (f r))
      → Ends Q (m >>= f)
  Ends-after P Q (returns r) f h k = k r h
  Ends-after P Q panic f h k = absurd h
  Ends-after P Q stuck f h k = absurd h

  Ends-before :
      (P Q : Bool × LoadState S → Type 0) (m : Outcome (Bool × LoadState S))
      (f : Bool × LoadState S → Outcome (Bool × LoadState S))
      → Ends P m
      → ((r : Bool × LoadState S) → P r → Returns Q (f r))
      → Ends Q (m >>= f)
  Ends-before P Q m f (inl h) k = inl (Returns->>= P Q m f h k)
  Ends-before P Q m f (inr (v, fails)) k = inr (v, SameFailure->>= (w.setup_stack v) m f fails)

  stack-Holds :
      (h : Ehdr) (t : LoadState S)
      → t.file_lock ≡ true
      → Ends Holds (w.setup_stack t.world >>= λ q. load_stack w h q t)
  unfolding load_stack
  stack-Holds h t held = go (w.setup_stack t.world) refl
    where
      go :
          (m : Outcome (Bool × S))
          → w.setup_stack t.world ≡ m
          → Ends Holds (m >>= λ q. load_stack w h q t)
      go (returns (true, u)) e = inl held
      go (returns (false, u)) e = inl held
      go panic e = inr (t.world, inl (e, refl))
      go stuck e = inr (t.world, inr (e, refl))

  if_loaded-Ends :
      (r : Bool × LoadState S) (f : LoadState S → Outcome (Bool × LoadState S))
      → Holds r
      → ((s : LoadState S) → s.file_lock ≡ true → Ends Holds (f s))
      → Ends Holds (if_loaded w r f)
  if_loaded-Ends (true, s) f held k = k s held
  if_loaded-Ends (false, s) f held k = inl held

  load_ehdr-Holds :
      (h : Option Ehdr) (s : LoadState S) → s.file_lock ≡ true → Ends Holds (load_ehdr w pf h s)
  unfolding load_ehdr
  load_ehdr-Holds none s held = inl held
  load_ehdr-Holds (some h) s held = elim (Bool-cases (valid_ehdr h)) [
    | inl valid ↦ subst (Ends Holds) (sym (if_true _ _ _ valid)) (
        Ends-after Holds Holds _ _ (load_phdrs-Holds h.e_phnum h.e_phoff s held)
          (λ r held'. if_loaded-Ends r _ held' (λ t held''. stack-Holds h t held'')))
    | inr bad ↦ subst (Ends Holds) (sym (if_false _ _ _ bad)) (inl held)
  ]

  load_file-Holds :
      (r : Bool × S) (s : LoadState S) → s.file_lock ≡ true → Ends Holds (load_file w pf r s)
  unfolding load_file
  load_file-Holds (false, t) s held = inl held
  load_file-Holds (true, t) s held =
      let (h, u) = w.read_ehdr (w.file_deny_write t) in
      load_ehdr-Holds h (record s { world = u; executable = true }) held

  load_mapped-Released :
      (r : Bool × S) (s : LoadState S)
      → r.0 ≡ true
      → s.file_lock ≡ false
      → Ends (λ q. q.1.file_lock ≡ false) (load_mapped w pf r s)
  unfolding load_mapped
  load_mapped-Released (false, t) s made free = cc
  load_mapped-Released (true, t) s made free =
      subst (Ends (λ q. q.1.file_lock ≡ false))
        (sym (assert-true (not s.file_lock) _ (ap not free)))
        (Ends-before Holds (λ q. q.1.file_lock ≡ false) (load_file w pf (w.filesys_open u) s')
          (load_done w) (load_file-Holds (w.filesys_open u) s' refl) (λ q held. rw held refl))
    where
      u : S
      u = w.process_activate t

      s' : LoadState S
      s' = record s { world = u; file_lock = true }

  -- If the platform is as documented, reads deliver 32-bit words and file lengths fit an off_t, then
  -- with a page directory at hand and the lock free `load` returns and has released the lock of the
  -- file system, whether it succeeds or not; or `setup_stack`, which it calls with the lock held, panics
  -- or is undefined, and so is `load`.
  pub load_releases :
      (s : LoadState S)
      → (w.pagedir_create s.world).0 ≡ true
      → s.file_lock ≡ false
      → Returns (λ q. q.1.file_lock ≡ false) (load w pf s) ⊎ StackFails (load w pf s)
  unfolding load
  load_releases s made free = load_mapped-Released (w.pagedir_create s.world) s made free

  load_mapped_unmapped :
      (r : Bool × S) (s : LoadState S)
      → r.0 ≡ false
      → s.file_lock ≡ false
      → load_mapped w pf r s ≡ panic
  unfolding load_mapped
  load_mapped_unmapped (true, t) s made free = cc
  load_mapped_unmapped (false, t) s made free = rw free

  -- Where no page directory can be had, `load` jumps to `done` before it takes the lock, and the
  -- assertion of `lock_release` panics the kernel.
  pub load_without_pagedir :
      (s : LoadState S)
      → (w.pagedir_create s.world).0 ≡ false
      → s.file_lock ≡ false
      → load w pf s ≡ panic
  unfolding load
  load_without_pagedir s made free = load_mapped_unmapped (w.pagedir_create s.world) s made free
