-- ===== src/Compiler/Bc.antt =====
-- The opcodes of the compiler, `bc_t` of compiler/bcout.h.
use nesrotom_run.Base.{ℕ}

abbrev pub op_nop : ℕ
op_nop = 0

abbrev pub op_bop : ℕ
op_bop = 1

abbrev pub op_unm : ℕ
op_unm = 2

abbrev pub op_dr : ℕ
op_dr = 3

abbrev pub op_st : ℕ
op_st = 4

abbrev pub op_ifnj : ℕ
op_ifnj = 5

abbrev pub op_ju : ℕ
op_ju = 6

abbrev pub op_wrt : ℕ
op_wrt = 7

abbrev pub op_rd : ℕ
op_rd = 8

abbrev pub op_dup : ℕ
op_dup = 9

abbrev pub op_not : ℕ
op_not = 11

abbrev pub op_ret : ℕ
op_ret = 13

abbrev pub op_call : ℕ
op_call = 14

abbrev pub op_calls : ℕ
op_calls = 15

abbrev pub op_calle : ℕ
op_calle = 16

abbrev pub op_lvbi_c : ℕ
op_lvbi_c = 17

abbrev pub op_lvbi_arg : ℕ
op_lvbi_arg = 18

abbrev pub op_lvbi_loc : ℕ
op_lvbi_loc = 19

abbrev pub op_lvbi_iv : ℕ
op_lvbi_iv = 20

abbrev pub op_lvbi_cv : ℕ
op_lvbi_cv = 21

abbrev pub op_lvbi_cve : ℕ
op_lvbi_cve = 22

abbrev pub op_lvbs_ive : ℕ
op_lvbs_ive = 23

abbrev pub op_lvbs_cve : ℕ
op_lvbs_cve = 24

abbrev pub op_ld_self : ℕ
op_ld_self = 25

abbrev pub op_ld_class : ℕ
op_ld_class = 26

abbrev pub op_labi_arg : ℕ
op_labi_arg = 27

abbrev pub op_labi_loc : ℕ
op_labi_loc = 28

abbrev pub op_labi_iv : ℕ
op_labi_iv = 29

abbrev pub op_labi_cv : ℕ
op_labi_cv = 30

abbrev pub op_labi_cve : ℕ
op_labi_cve = 31

abbrev pub op_labs_ive : ℕ
op_labs_ive = 32

abbrev pub op_labs_cve : ℕ
op_labs_cve = 33

abbrev pub op_idx : ℕ
op_idx = 34

abbrev pub op_idxa : ℕ
op_idxa = 35

abbrev pub op_new : ℕ
op_new = 36

abbrev pub op_ret_self : ℕ
op_ret_self = 37

abbrev pub op_ld_exobj : ℕ
op_ld_exobj = 38

abbrev pub op_st_exinfo : ℕ
op_st_exinfo = 39

abbrev pub op_throw : ℕ
op_throw = 40

abbrev pub op_pop : ℕ
op_pop = 41
