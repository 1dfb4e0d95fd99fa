-- ===== src/Swap/Transfer.antt =====
-- The loops of Project 3/vm/swap.c, sector by sector.
use comp_sys_pint_os.Base.{
  ℕ, zero, suc, ◌+◌, ◌-◌, ◌*◌, ◌/◌, ◌%◌, ◌≤◌, ◌<◌, ◌≡◌, refl, ap₂, ◌∙◌, ◌⊎◌, arith, ltb, leb, ◌&&◌,
  dec_lt, if◌then◌else◌,
}
use comp_sys_pint_os.Swap.{
  BlockDevice, sector_size, sectors_per_page, block_read, read_sectors, write_sectors,
}
use comp_sys_pint_os.Swap.Laws.{IsBlockDevice}

module _ {D : Type 0} (dev : BlockDevice D) where
  -- The byte at offset `k` of slot `index`.
  abbrev pub slot_byte : D → ℕ → ℕ → ℕ
  slot_byte d index k = dev.read d (index * sectors_per_page + k / sector_size) (k % sector_size)

module _ {D : Type 0} (dev : BlockDevice D) (lawful : IsBlockDevice dev) where
  pub size-write_sectors :
      (left i : ℕ) (d : D) (index frame : ℕ) (memory : ℕ → ℕ)
      → dev.block_size (write_sectors dev left i d index frame memory) ≡ dev.block_size d
  unfolding write_sectors
  size-write_sectors zero i d index frame memory = refl
  size-write_sectors (suc left) i d index frame memory =
      size-write_sectors left (i + 1) _ index frame memory ∙ lawful.size_write d _ _

  -- A sector outside the rounds that are left keeps its bytes.
  pub read-write_sectors_outside :
      (left i : ℕ) (d : D) (index frame : ℕ) (memory : ℕ → ℕ) (t o : ℕ)
      → (t < index * sectors_per_page + i) ⊎ (index * sectors_per_page + i + left ≤ t)
      → dev.read (write_sectors dev left i d index frame memory) t o ≡ dev.read d t o
  unfolding write_sectors
  read-write_sectors_outside zero i d index frame memory t o out = refl
  read-write_sectors_outside (suc left) i d index frame memory t o out =
      read-write_sectors_outside left (i + 1) _ index frame memory t o (ground arith)
      ∙ lawful.read_write_ne d _ t o _ (ground arith)

  pub read-write_sectors :
      (left i : ℕ) (d : D) (index frame : ℕ) (memory : ℕ → ℕ) (j o : ℕ)
      → i ≤ j
      → j < i + left
      → o < sector_size
      → index * sectors_per_page + i + left ≤ dev.block_size d
      → dev.read (write_sectors dev left i d index frame memory) (index * sectors_per_page + j) o
        ≡ memory (frame + j * sector_size + o)
  unfolding write_sectors
  read-write_sectors zero i d index frame memory j o ge lt small room = absurd (omega arith)
  read-write_sectors (suc left) i d index frame memory j o ge lt small room = elim (dec_lt i j) [
    | yes later ↦
        read-write_sectors left (i + 1) _ index frame memory j o (omega arith) (omega arith) small (
          omega (
            arith,
            lawful.size_write d (index * sectors_per_page + i)
                (λ o. memory (frame + i * sector_size + o)),
          ))
    | no now ↦
        let here : j ≡ i = omega arith in
        rw here (
          read-write_sectors_outside left (i + 1) _ index frame memory _ o (ground arith)
          ∙ lawful.read_write_self d _ o _ (omega arith) small)
  ]

  in_sector :
      (d : D) (index frame i a : ℕ)
      → frame + i * sector_size ≤ a
      → a < frame + (i + 1) * sector_size
      → dev.read d (index * sectors_per_page + i) (a - (frame + i * sector_size))
        ≡ slot_byte dev d index (a - frame)
  in_sector d index frame i a ge lt = ap₂ (dev.read d) (omega arith) (omega arith)

  -- What memory holds after the rounds that are left: bytes of the slot inside, itself outside.
  pub read_sectors_lem :
      (left i : ℕ) (d : D) (index frame : ℕ) (memory : ℕ → ℕ) (a : ℕ)
      → read_sectors dev left i d index frame memory a ≡ (
          if leb (frame + i * sector_size) a && ltb a (frame + (i + left) * sector_size)
          then slot_byte dev d index (a - frame)
          else memory a)
  unfolding read_sectors block_read
  read_sectors_lem zero i d index frame memory a = ground arith
  read_sectors_lem (suc left) i d index frame memory a =
      read_sectors_lem left (i + 1) d index frame _ a ∙ ground (arith, in_sector d index frame i a)
