-- ===== src/Loader/Truncated.antt =====
-- Program files that end too early (vm/loader.c).
use nesrotom_run.Base.{
  ◌<◌, ◌≡◌, ◌≢◌, ◌∙◌, sym, ap, true, List, [], ◌∷◌, ◌++◌, append-nil, arith, length, inl, inr,
}
use nesrotom_run.State.{Bytes, Value, Fault}
use nesrotom_run.Loader.{Loaded, loaded, failed}
use nesrotom_run.Loader.Parts.{starts_with_nil, kexe_load}
use nesrotom_run.Loader.Writer.{ClassEnv, write_file}
use nesrotom_run.Loader.Members.{AllOf}
use nesrotom_run.Loader.Written.{IsClass, kexe_load-write_file}
use nesrotom_run.Loader.Extensible.{loaded-cases, kexe_load-IsExtensible}

nothing_left {ℓ} : {A : Type ℓ} (r q : List A) → r ++ q ≡ [] → q ≡ []
nothing_left [] q e = e
nothing_left (x ∷ r) q e = absurd (ground arith)

rest_of {ℓ} : {A : Type ℓ} → Loaded A → Bytes
rest_of (loaded a r) = r
rest_of (failed e) = []

-- A file that the compiler has written, under the conditions of the round trip, and that has lost
-- bytes at its end, however many, is not loaded: the load is an error.
pub kexe_load-truncated :
    (old : Value) (ces : List ClassEnv) (const_table bc_arr front lost : Bytes)
    → length ces < 0xffff_ffff
    → AllOf IsClass ces
    → length const_table < 0xffff_ffff_ffff_ffff
    → length bc_arr < 0xffff_ffff_ffff_ffff
    → starts_with_nil const_table ≡ true
    → write_file ces const_table bc_arr ≡ front ++ lost
    → lost ≢ []
    → (e : Fault) × (kexe_load old front ≡ failed e)
unfolding rest_of
kexe_load-truncated old ces const_table bc_arr front lost short h ct bc nil cut more =
    elim (loaded-cases (kexe_load old front)) [
      | inr (e, k) ↦ (e, k)
      | inl (a, r, k) ↦
          let whole = kexe_load-write_file old ces const_table bc_arr [] short h ct bc nil in
          let file = append-nil (write_file ces const_table bc_arr) ∙ cut in
          let both =
            sym ((kexe_load-IsExtensible old).extend front lost a r k)
            ∙ ap (kexe_load old) (sym file)
            ∙ whole in
          absurd (more (nothing_left r lost (ap rest_of both)))
    ]
