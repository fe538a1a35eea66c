-- ===== src/Tests/Copy.antt =====
-- `memcpy` and `memset` of nanOS/Kernel/lib.c on a small memory.
use tpe_arqui.Prelude.{◌≡◌, inl, arith}
use tpe_arqui.Libc.Copy.{Memory, memcpy, memset, memcpy-eq-blit, memset_lem}

-- Every address holds its own number.
abbrev own_number : Memory
own_number a = a

copied : memcpy own_number 100 200 8 103 ≡ 203
copied = memcpy-eq-blit own_number 100 200 8 103 (inl (omega arith))

memset_run : memset own_number 100 300 5 104 ≡ 44
memset_run = memset_lem own_number 100 300 5 104
