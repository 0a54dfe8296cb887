-- ===== src/Word/Tests.antt =====
-- Tagged words at concrete values.
use nesrotom_run.Base.{◌+◌, ◌%◌, ◌≡◌, true, false, arith}
use nesrotom_run.Word.{word_mod, is_ptr, is_char, is_dptr, make_dptr, dptr_val}
use nesrotom_run.Word.Tags.{dptr_val-make_dptr}

dptr_val-make_dptr_example :
    (dptr_val 4096 (make_dptr 4096 4160) ≡ 4160)
    × ((dptr_val 8192 (make_dptr 4096 4160) + 4096) % word_mod ≡ (8192 + 4160) % word_mod)
    × (is_dptr (make_dptr 4096 4160) ≡ true)
    × (is_ptr (make_dptr 4096 4160) ≡ false)
    × (is_char (make_dptr 4096 4160) ≡ false)
dptr_val-make_dptr_example =
    dptr_val-make_dptr 4096 4160 8192 (omega arith) (omega arith) (omega arith) (omega arith)

-- The char -1.
