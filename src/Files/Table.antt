-- ===== src/Files/Table.antt =====
-- The descriptor table of Project 3/userprog/syscall.c as a finite map from numbers to files.
use comp_sys_pint_os.Base.{
  ℕ, ◌+◌, ◌≤◌, ◌<◌, ◌≡◌, ◌≢◌, refl, ◌∙◌, sym, ap, subst, Bool, true, false, ◌==◌, ==_ne, ==_iff,
  ◌⊎◌, if◌then◌else◌, if_true, if_false, not, List, [], ◌∷◌, ◌++◌, Option, none, some, All, ◌%◌,
  ◌^◌, returns, All-append, arith, Returns, Returns-assert, Bool-cases, inl, inr,
}
use comp_sys_pint_os.Platform.{Platform}
use comp_sys_pint_os.Files.{
  Descriptor, FileSystem, Process, Result, value, find_fd, remove_fd, get_file, not_valid, done,
  open_file, open_opened, close, close_found, locked,
}
use comp_sys_pint_os.Files.Lookup.{
  Lacks, IsDistinct, find_fd-reverse, find_fd-Lacks, find_fd-push, IsDistinct-push, All-remove_fd,
  IsDistinct-remove_fd, find_fd-remove_fd,
}

-- The numbers are distinct, from 2 on, and below the next one to be given out.
pub record IsTable {W : Type 0} (s : Process W) : Type 0 where
  pub numbered : All (λ d. (2 ≤ d.fd) × (d.fd < s.next_fd)) s.files
  pub distinct : IsDistinct s.files
  pub above_console : 2 ≤ s.next_fd

Lacks-next : (n : ℕ) (ds : List Descriptor) → All (λ d. (2 ≤ d.fd) × (d.fd < n)) ds → Lacks n ds
Lacks-next n [] h = tt
Lacks-next n (d ∷ ds) h = (ground (arith, h.0), Lacks-next n ds h.1)

widen :
    (m n : ℕ) (ds : List Descriptor)
    → m ≤ n
    → All (λ d. (2 ≤ d.fd) × (d.fd < m)) ds
    → All (λ d. (2 ≤ d.fd) × (d.fd < n)) ds
widen m n [] le h = tt
widen m n (d ∷ ds) le h = (omega (arith, h.0), widen m n ds le h.1)

module _ {W : Type 0} (fs : FileSystem W) (pf : Platform) (sentinel : Descriptor) where
  -- For a table in order and a number other than the one read at the end of the list, `get_file`,
  -- which searches from the back, returns what a search from the front finds: the file that the map
  -- has for the number, or none.
  pub get_file-find_fd :
      (fd : ℕ) (s : Process W)
      → IsTable s
      → sentinel.fd ≢ fd
      → get_file fs pf sentinel fd s ≡ returns (find_fd fd s.files)
  unfolding get_file find_fd
  get_file-find_fd fd s h ne =
      if_false _ _ _ (==_ne _ _ ne) ∙ ap returns (find_fd-reverse fd s.files h.distinct)

  -- What a call that returned leaves behind, given what the map was and is.
  pub record Updates (s : Process W) (r : Result) (map : ℕ → Option ℕ) (q : Result × Process W)
      : Type 0 where
    pub result : q.0 ≡ r
    pub table : IsTable q.1
    pub unlocked : q.1.file_lock ≡ false
    pub view : (key : ℕ) → find_fd key q.1.files ≡ map key

  done-Updates :
      (s t : Process W) (r : Result) (map : ℕ → Option ℕ)
      → t.file_lock ≡ true
      → IsTable t
      → ((key : ℕ) → find_fd key t.files ≡ map key)
      → Returns (Updates s r map) (done fs pf sentinel r t)
  unfolding done
  done-Updates s t r map held table view = Returns-assert _ t.file_lock _ held (record {
    result = refl;
    table = record {
      numbered = table.numbered;
      distinct = table.distinct;
      above_console = table.above_console;
    };
    unlocked = refl;
    view = view;
  })

  pub pushed :
      (s : Process W) (f : ℕ) (w : W)
      → IsTable s
      → s.next_fd + 1 < 2 ^ 31
      → IsTable (record s {
        next_fd = (s.next_fd + 1) % 2 ^ 32;
        files = s.files ++ record { fd = s.next_fd; file = f } ∷ [];
        file_lock = true;
        world = w;
      })
  pushed s f w h small = record {
    numbered =
        All-append _ s.files _ (widen s.next_fd _ s.files (omega (arith, small)) h.numbered)
          ((h.above_console, omega (arith, small)), tt);
    distinct = IsDistinct-push s.files _ h.distinct (Lacks-next s.next_fd s.files h.numbered);
    above_console = omega (arith, h.above_console, small);
  }

  opened :
      (f : ℕ) (s : Process W) (made : Bool) (r : Option ℕ × W)
      → IsTable s
      → s.next_fd + 1 < 2 ^ 31
      → made ≡ true
      → r.0 ≡ some f
      → Returns
          (Updates s
            (value s.next_fd)
            (λ key. if s.next_fd == key then some f else find_fd key s.files))
          (open_opened fs pf sentinel made r (locked fs pf sentinel s))
  unfolding open_opened
  opened f s made (none, w) h small e found = cc
  opened f s false (some g, w) h small e found = cc
  opened f s true (some g, w) h small e found =
      done-Updates s _ (value s.next_fd) _ refl (pushed s g w h small)
        λ key. find_fd-push key s.files _ (Lacks-next s.next_fd s.files h.numbered) ∙ ground arith

  -- If the table is in order, the counter of numbers not at the end of an `int`, the lock free, the
  -- name's address valid, memory for the descriptor at hand and the file there, then `open` returns the
  -- next number. The number was not in use; the map now leads from it to the file and is otherwise
  -- unchanged; the table is in order and the lock free.
  pub open_file-Updates :
      (name f : ℕ) (s : Process W)
      → IsTable s
      → s.next_fd + 1 < 2 ^ 31
      → s.file_lock ≡ false
      → not_valid fs pf sentinel name s ≡ false
      → (fs.malloc s.world).0 ≡ true
      → (fs.filesys_open name (fs.malloc s.world).1).0 ≡ some f
      → (find_fd s.next_fd s.files ≡ none)
        × Returns
            (Updates s
              (value s.next_fd)
              (λ key. if s.next_fd == key then some f else find_fd key s.files))
            (open_file fs pf sentinel name s)
  unfolding open_file open_opened
  open_file-Updates name f s h small free valid made found = (
    find_fd-Lacks s.next_fd s.files (Lacks-next s.next_fd s.files h.numbered),
    subst (Returns _) (sym (if_false (not_valid fs pf sentinel name s) _ _ valid))
        (Returns-assert _ (not s.file_lock) _ (ap not free) (opened f s _ _ h small made found)),
  )

  pub kept :
      (fd : ℕ) (s : Process W) (w : W)
      → IsTable s
      → IsTable (record s { files = remove_fd fd s.files; file_lock = true; world = w })
  kept fd s w h = record {
    numbered = All-remove_fd _ fd s.files h.numbered;
    distinct = IsDistinct-remove_fd fd s.files h.distinct;
    above_console = h.above_console;
  }

  closed :
      (fd : ℕ) (s : Process W) (o : Option ℕ)
      → IsTable s
      → find_fd fd s.files ≡ o
      → Returns (Updates s (value 0) (λ key. if fd == key then none else find_fd key s.files)) (
          done fs pf sentinel (value 0) (close_found fs pf sentinel o fd (locked fs pf sentinel s)))
  unfolding close_found
  closed fd s (some f) h e =
      done-Updates s _ (value 0) _ refl (kept fd s _ h)
        λ key. find_fd-remove_fd fd key s.files h.distinct
  closed fd s none h e =
      done-Updates s _ (value 0) _ refl
        (record { numbered = h.numbered; distinct = h.distinct; above_console = h.above_console })
        λ key. absent key (Bool-cases (fd == key))
    where
      absent :
          (key : ℕ)
          → ((fd == key) ≡ true) ⊎ ((fd == key) ≡ false)
          → find_fd key s.files ≡ (if fd == key then none else find_fd key s.files)
      absent key (inl same) =
          subst (λ k. find_fd k s.files ≡ none) ((==_iff fd key).0 same) e
          ∙ sym (if_true _ _ _ same)
      absent key (inr other) = sym (if_false _ _ _ other)

  -- If the table is in order and the lock free, `close` returns for every number: the map no longer
  -- has that number, the other numbers lead where they led, the table is in order and the lock free.
  pub close-Updates :
      (fd : ℕ) (s : Process W)
      → IsTable s
      → s.file_lock ≡ false
      → Returns
          (Updates s (value 0) (λ key. if fd == key then none else find_fd key s.files))
          (close fs pf sentinel fd s)
  unfolding close
  close-Updates fd s h free =
      Returns-assert _ (not s.file_lock) _ (ap not free) (closed fd s (find_fd fd s.files) h refl)
