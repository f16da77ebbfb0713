-- ===== src/Examples/Commands.antt =====
-- The theorem on the numbers that the shell reads, at 0xbeef.
use magical_os.Base.{◌≡◌, arith, some}
use magical_os.Stdlib.{itox}
use magical_os.Shell.{str_conv_ahex_int}
use magical_os.Shell.Hex.{store, str_conv_ahex_int-itox}

str_conv_ahex_int-itox_example :
    str_conv_ahex_int 9 (store (itox 0xbeef) 100 (λ a. 1)) 100 ≡ some 0xbeef
str_conv_ahex_int-itox_example = str_conv_ahex_int-itox 0xbeef 100 (λ a. 1) (omega arith)
