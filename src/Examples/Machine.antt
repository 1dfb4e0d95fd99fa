-- ===== src/Examples/Machine.antt =====
-- The 80x86 of Pintos: user memory below 0xc0000000.
use comp_sys_pint_os.Base.{◌+◌, ◌*◌, ◌/◌, refl, arith, ltb}
use comp_sys_pint_os.Platform.{Platform, IsPlatform}

abbrev pub pc : Platform
pc = record {
  phys_base = 0xc0000000;
  is_user_vaddr = λ v. ltb v 0xc0000000;
  round_up = λ x. (x + 4095) / 4096 * 4096;
}

pub pc-IsPlatform : IsPlatform pc
pc-IsPlatform = record {
  base_fits = omega arith;
  base_aligned = refl;
  user = λ v. refl;
  round_aligned = λ x h. omega arith;
  round_above = λ x h. omega arith;
  round_near = λ x h. omega arith;
}
