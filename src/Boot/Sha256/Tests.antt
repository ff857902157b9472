-- ===== src/Boot/Sha256/Tests.antt =====
-- Test vectors of FIPS 180-4.
use aca_riscv_secure_boot.Common.{none, some, [], ◌∷◌, ◌≡◌, refl, replicate}
use aca_riscv_secure_boot.Boot.Sha256.{Context, init, init_state, update, update_loop, final}
use aca_riscv_secure_boot.Boot.Sha256.Block.{transform}

abbrev blank : Context
unfolding init_state
blank = record { data_buf = replicate 64 0; datalen = 0; bitlen = 0; state = init_state }

final_abc :
    (elim (update (init blank) (0x61 ∷ 0x62 ∷ 0x63 ∷ [])) [ some ctx ↦ (final ctx).1 | none ↦ [] ])
    ≡ 0xba ∷ 0x78 ∷ 0x16 ∷ 0xbf ∷ 0x8f ∷ 0x01 ∷ 0xcf ∷ 0xea ∷ 0x41 ∷ 0x41 ∷ 0x40 ∷ 0xde ∷ 0x5d
      ∷ 0xae ∷ 0x22 ∷ 0x23 ∷ 0xb0 ∷ 0x03 ∷ 0x61 ∷ 0xa3 ∷ 0x96 ∷ 0x17 ∷ 0x7a ∷ 0x9c ∷ 0xb4 ∷ 0x10
      ∷ 0xff ∷ 0x61 ∷ 0xf2 ∷ 0x00 ∷ 0x15 ∷ 0xad ∷ []
unfolding init update update_loop final transform
final_abc = refl
