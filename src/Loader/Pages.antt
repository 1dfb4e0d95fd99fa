-- ===== src/Loader/Pages.antt =====
-- `load_segment` of Project 3/userprog/process.c against a list of pages given in closed form.
use comp_sys_pint_os.Base.{
  ℕ, zero, suc, ◌+◌, ◌-◌, ◌*◌, ◌%◌, ◌^◌, ◌<◌, ◌≡◌, refl, min, Bool, true, false, List, [], ◌∷◌,
  Option, some, returns, arith, ◌∙◌, ltb, ◌==◌, ◌||◌, if◌then◌else◌,
}
use comp_sys_pint_os.Platform.{page_size, u32}
use comp_sys_pint_os.Loader.{PageRequest, World, after_add, fill_pages, load_segment, segment_fuel}

-- The page with number `k` of a segment.
abbrev pub request : ℕ → ℕ → ℕ → Bool → ℕ → PageRequest
request ofs upage read_bytes writable k = record {
  offset = ofs + min read_bytes (page_size * k);
  upage = upage + page_size * k;
  page_read_bytes = min (read_bytes - page_size * k) page_size;
  page_zero_bytes = page_size - min (read_bytes - page_size * k) page_size;
  writable = writable;
}

-- The `n` pages from number `k` on.
unfoldable pub requests : ℕ → ℕ → ℕ → Bool → ℕ → ℕ → List PageRequest
requests ofs upage read_bytes writable k zero = []
requests ofs upage read_bytes writable k (suc n) =
    request ofs upage read_bytes writable k ∷ requests ofs upage read_bytes writable (k + 1) n

module _ {S : Type 0} (w : World S) where
  abbrev and_then : Bool × S → (S → Bool × S) → Bool × S
  and_then (true, s) rest = rest s
  and_then (false, s) rest = (false, s)

  -- Add the pages in order, up to the first that cannot be added.
  unfoldable pub add_all : List PageRequest → S → Bool × S
  add_all [] s = (true, s)
  add_all (r ∷ rs) s = and_then (w.add_file_to_page_table r s) (add_all rs)

  after_add-and_then :
      (p : Bool × S) (k : S → Option (Bool × S)) (g : S → Bool × S)
      → ((s : S) → k s ≡ some (g s))
      → after_add w p k ≡ some (and_then p g)
  unfolding after_add
  after_add-and_then (true, s) k g h = h s
  after_add-and_then (false, s) k g h = refl

  abbrev pub request_at : ℕ → ℕ → ℕ → Bool → PageRequest
  request_at o u r writable = record {
    offset = o;
    upage = u;
    page_read_bytes = min r page_size;
    page_zero_bytes = page_size - min r page_size;
    writable = writable;
  }

  -- A round of the loop, with the smaller of the counter and the page size.
  pub fill_pages-suc :
      (fuel o u r z : ℕ) (writable : Bool) (s : S)
      → 0 < r + z
      → fill_pages w (suc fuel) o u r z writable s
        ≡ after_add w (w.add_file_to_page_table (request_at o u r writable) s) (
            fill_pages w fuel
              (u32 (o + min r page_size))
              (u32 (u + page_size))
              (u32 (r + 2 ^ 32 - min r page_size))
              (u32 (z + 2 ^ 32 - (page_size - min r page_size)))
              writable)
  unfolding fill_pages
  fill_pages-suc fuel o u r z writable s h = rw (picked, more)
    where
      picked : (if ltb r page_size then r else page_size) ≡ min r page_size
      picked = ground arith

      more : (ltb 0 r || ltb 0 z) ≡ true
      more = ground arith

  module _ (ofs upage read_bytes : ℕ) (writable : Bool) where
    fill_pages-add_all :
        (n fuel k o u r z : ℕ) (s : S)
        → n < fuel
        → r + z ≡ page_size * n
        → o ≡ ofs + min read_bytes (page_size * k)
        → u ≡ upage + page_size * k
        → r ≡ read_bytes - page_size * k
        → o + r + z < 2 ^ 32
        → u + page_size * n < 2 ^ 32
        → fill_pages w fuel o u r z writable s
          ≡ some (add_all (requests ofs upage read_bytes writable k n) s)
    unfolding add_all requests
    fill_pages-add_all n zero k o u r z s lt sum eo eu er fo fu = absurd (omega arith)
    fill_pages-add_all zero (suc fuel) k o u r z s lt sum eo eu er fo fu =
        unfold fill_pages in ground arith
    fill_pages-add_all (suc n) (suc fuel) k o u r z s lt sum eo eu er fo fu =
        fill_pages-suc fuel o u r z writable s (omega arith)
        ∙ (rw same (
            after_add-and_then _ _ _ λ t.
              fill_pages-add_all n fuel (k + 1) _ _ _ _ t (omega arith) (omega arith) (omega arith)
                (omega arith) (omega arith) (omega arith) (omega arith)))
      where
        same : request_at o u r writable ≡ request ofs upage read_bytes writable k
        same = ground arith

  -- If the bytes to read and to zero make up `n` pages, the addresses are page aligned and nothing
  -- wraps around, then `load_segment` panics in no assertion, its loop ends, and it has added
  -- exactly the `n` pages of the closed form, in order, up to the first that cannot be added.
  pub load_segment-add_all :
      (ofs upage read_bytes zero_bytes n : ℕ) (writable : Bool) (s : S)
      → read_bytes + zero_bytes ≡ page_size * n
      → upage % page_size ≡ 0
      → ofs % page_size ≡ 0
      → ofs + read_bytes + zero_bytes < 2 ^ 32
      → upage + read_bytes + zero_bytes < 2 ^ 32
      → load_segment w ofs upage read_bytes zero_bytes writable s
        ≡ returns (add_all (requests ofs upage read_bytes writable 0 n) (w.file_seek ofs s))
  unfolding load_segment
  load_segment-add_all ofs upage read_bytes zero_bytes n writable s sum ua oa fo fu =
      rw (whole, ua', oa', filled)
    where
      whole : (u32 (read_bytes + zero_bytes) % page_size == 0) ≡ true
      whole = ground arith

      ua' : (upage % page_size == 0) ≡ true
      ua' = ground arith

      oa' : (ofs % page_size == 0) ≡ true
      oa' = ground arith

      filled :
          fill_pages w
            (segment_fuel w read_bytes zero_bytes)
            ofs
            upage
            read_bytes
            zero_bytes
            writable
            (w.file_seek ofs s)
          ≡ some (add_all (requests ofs upage read_bytes writable 0 n) (w.file_seek ofs s))
      filled =
          fill_pages-add_all ofs upage read_bytes writable n _ 0 ofs upage read_bytes zero_bytes _
            (omega arith) sum (omega arith) (omega arith) (omega arith) (omega arith) (omega arith)
