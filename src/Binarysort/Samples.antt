-- ===== src/Binarysort/Samples.antt =====
-- The encodings of a few values.
use genji.Prelude.{ℕ, ◌≡◌, Ordering, [], arith, compare_bytes}
use genji.Prelude.Int.{pos, negsuc}
use genji.Binarysort.{append_int64}
use genji.Binarysort.Order.{append_int64-compare}

-- 1.5 and 2.0
abbrev one_and_half : ℕ
one_and_half = 0x3ff8000000000000

abbrev two : ℕ
two = 0x4000000000000000

append_int64-compare_example :
    compare_bytes (append_int64 [] (negsuc 4)) (append_int64 [] (pos 3)) ≡ Ordering.lt
append_int64-compare_example =
    append_int64-compare [] (negsuc 4) (pos 3) (omega arith, omega arith) (omega arith, omega arith)
