-- ===== src/Word/Tags.antt =====
-- The tag macros of vm/types.h on the words that they make.
use nesrotom_run.Base.{ℕ, ◌+◌, ◌%◌, ◌<◌, ◌≡◌, true, false, arith}
use nesrotom_run.Word.{
  word_mod, is_ptr, is_char, is_tagged_int, is_dptr, make_char, char_val, tag_int, untag_int,
  make_dptr, dptr_val,
}

-- Every char survives MAKE_CHAR and CHAR_VAL, negative ones too; the word it becomes is a
-- character, and neither a pointer nor a small integer.
pub char_val-make_char :
    (c : ℕ)
    → c < 256
    → (char_val (make_char c) ≡ c)
      × (is_char (make_char c) ≡ true)
      × (is_ptr (make_char c) ≡ false)
      × (is_tagged_int (make_char c) ≡ false)
unfolding char_val make_char is_char is_ptr is_tagged_int
char_val-make_char c h = ground arith

-- A non-negative `int` that INT puts into a word is read back by INT_VAL, and the word is told from a
-- pointer and from a character.
pub untag_int-tag_int :
    (v : ℕ)
    → v < 2147483648
    → (untag_int (tag_int v) ≡ v)
      × (is_tagged_int (tag_int v) ≡ true)
      × (is_ptr (tag_int v) ≡ false)
      × (is_char (tag_int v) ≡ false)
unfolding tag_int untag_int is_char is_ptr is_tagged_int
untag_int-tag_int v h = ground arith

-- The address that MAKE_DPTR packs relative to an object is found again by DPTR_VAL, from the same
-- object, when both are multiples of four; moving the object moves the address with it. The packed
-- word is no pointer and no character.
pub dptr_val-make_dptr :
    (obj addr new : ℕ)
    → obj < word_mod
    → addr < word_mod
    → obj % 4 ≡ 0
    → addr % 4 ≡ 0
    → (dptr_val obj (make_dptr obj addr) ≡ addr)
      × ((dptr_val new (make_dptr obj addr) + obj) % word_mod ≡ (new + addr) % word_mod)
      × (is_dptr (make_dptr obj addr) ≡ true)
      × (is_ptr (make_dptr obj addr) ≡ false)
      × (is_char (make_dptr obj addr) ≡ false)
unfolding dptr_val make_dptr is_dptr is_ptr is_char
dptr_val-make_dptr obj addr new p q a b = ground arith
