-- ===== src/Array/Copying.antt =====
-- The loop of array_append (vm/k_array.c), which copies the elements of the argument.
use nesrotom_run.Base.{
  ℕ, zero, suc, ◌+◌, ◌≤◌, ◌<◌, ◌≡◌, ◌≢◌, ◌∙◌, refl, sym, ap, subst, Option, some, List, [], ◌∷◌,
  length, get_elem?, set, length-set, get_elem?-set_self, get_elem?-set_ne, lt→ltb, arith,
}
use nesrotom_run.State.{heap_ref, Value, ptr, Object, Vm, ok}
use nesrotom_run.State.Memory.{load, store, object_at}
use nesrotom_run.Array.{store_elems, set_cell, append_cells}
use nesrotom_run.Array.Lengths.{
  array_object, elems_object, put, load_array_lem, load_elems_lem, put_other, put_same,
}

store_cells_lem :
    (q m d : ℕ) (els : Option ℕ) (es fs : List Value) (s : Vm)
    → s.heap q ≡ some (elems_object els m d es)
    → store_elems (ptr (heap_ref q)) (record { length = m; alloc_size = d; cells = fs }) s
      ≡ ok tt (put q (elems_object els m d fs) s)
unfolding store_elems load store object_at
store_cells_lem q m d els es fs s h = rw h

set_cell_lem :
    (r q n c m d : ℕ) (cls els : Option ℕ) (es : List Value) (i : ℕ) (v : Value) (s : Vm)
    → s.heap r ≡ some (array_object cls n c q)
    → s.heap q ≡ some (elems_object els m d es)
    → i < length es
    → set_cell (ptr (heap_ref r)) i v s ≡ ok tt (put q (elems_object els m d (set es i v)) s)
unfolding set_cell
set_cell_lem r q n c m d cls els es i v s a b h = rw (
  load_array_lem r q n c cls s a,
  load_elems_lem q m d els es s b,
  lt→ltb i (length es) h,
  store_cells_lem q m d els es (set es i v) s b,
)

-- The cells `es'` are those of `es` with `n` cells from `i` on replaced by those of `fs` from `j` on.
pub record IsSplice (n i j : ℕ) (es fs es' : List Value) : Type 0 where
  pub same_length : length es' ≡ length es
  pub before : (x : ℕ) → x < i → get_elem? es' x ≡ get_elem? es x
  pub copied : (x : ℕ) → x < n → get_elem? es' (i + x) ≡ get_elem? fs (j + x)

found : (fs : List Value) (j : ℕ) → j < length fs → (v : Value) × (get_elem? fs j ≡ some v)
found [] j h = absurd (omega (arith, h))
found (x ∷ fs) zero h = (x, refl)
found (x ∷ fs) (suc j) h = found fs j (omega (arith, h))

module _ (n i j : ℕ) (es fs es' : List Value) (v : Value) (h : i < length es)
    (at : get_elem? fs j ≡ some v) (p : IsSplice n (suc i) (suc j) (set es i v) fs es') where
  first_copied : get_elem? es' i ≡ get_elem? fs j
  first_copied = p.before i (omega arith) ∙ get_elem?-set_self es i v h ∙ sym at

  all_copied : (x : ℕ) → x < suc n → get_elem? es' (i + x) ≡ get_elem? fs (j + x)
  all_copied zero k =
      subst (λ y. get_elem? es' y ≡ get_elem? fs (j + 0)) (omega arith)
        (subst (λ y. get_elem? es' i ≡ get_elem? fs y) (omega arith) first_copied)
  all_copied (suc x) k =
      subst (λ y. get_elem? es' y ≡ get_elem? fs (j + suc x)) (omega arith)
        (subst (λ y. get_elem? es' (suc i + x) ≡ get_elem? fs y) (omega arith)
          (p.copied x (omega (arith, k))))

  IsSplice-suc : IsSplice (suc n) i j es fs es'
  IsSplice-suc = record {
    same_length = p.same_length ∙ length-set es i v;
    before =
        λ x k. p.before x (omega (arith, k)) ∙ get_elem?-set_ne es i x v (λ e. omega (arith, k, e));
    copied = all_copied;
  }

pub other_kind :
    (s : Vm) (a b : ℕ) (o : Option ℕ) (x y z : ℕ) (o' : Option ℕ) (u w : ℕ) (gs : List Value)
    → s.heap a ≡ some (array_object o x y z)
    → s.heap b ≡ some (elems_object o' u w gs)
    → b ≢ a
other_kind s a b o x y z o' u w gs e e' same =
    absurd (ground (arith, sym e ∙ ap s.heap (sym same) ∙ e'))

-- The argument and the elements of the array, in a state whose other objects do not matter.
module _ (r q n c m d r' q' k c' m' d' : ℕ) (cls els cls' els' : Option ℕ) (fs : List Value) where
  pub record IsPair (es : List Value) (s : Vm) : Type 0 where
    pub array_at : s.heap r ≡ some (array_object cls n c q)
    pub elems_at : s.heap q ≡ some (elems_object els m d es)
    pub argument_at : s.heap r' ≡ some (array_object cls' k c' q')
    pub cells_at : s.heap q' ≡ some (elems_object els' m' d' fs)
    pub apart : q ≢ q'

  put-IsPair :
      (es gs : List Value) (s : Vm) → IsPair es s → IsPair gs (put q (elems_object els m d gs) s)
  put-IsPair es gs s p =
      let o = elems_object els m d gs in
      record {
        array_at =
            put_other q r o s (other_kind s r q cls n c q els m d es p.array_at p.elems_at)
            ∙ p.array_at;
        elems_at = put_same q o s;
        argument_at =
            put_other q r' o s (other_kind s r' q cls' k c' q' els m d es p.argument_at p.elems_at)
            ∙ p.argument_at;
        cells_at = put_other q q' o s p.apart ∙ p.cells_at;
        apart = p.apart;
      }

  one_copied :
      (rest i j : ℕ) (es : List Value) (v : Value) (s : Vm)
      → IsPair es s
      → i < length es
      → get_elem? fs j ≡ some v
      → append_cells (suc rest) i j (ptr (heap_ref r)) (ptr (heap_ref r')) s
        ≡ append_cells rest
            (suc i)
            (suc j)
            (ptr (heap_ref r))
            (ptr (heap_ref r'))
            (put q (elems_object els m d (set es i v)) s)
  unfolding append_cells
  one_copied rest i j es v s p h at = rw (
    load_array_lem r' q' k c' cls' s p.argument_at,
    load_elems_lem q' m' d' els' fs s p.cells_at,
    at,
    set_cell_lem r q n c m d cls els es i v s p.array_at p.elems_at h,
  )

  none_copied :
      (i j : ℕ) (s : Vm) → append_cells 0 i j (ptr (heap_ref r)) (ptr (heap_ref r')) s ≡ ok tt s
  unfolding append_cells
  none_copied i j s = refl

  -- The loop changes the object of elements only.
  pub append_cells_lem :
      (rest i j : ℕ) (es : List Value) (s : Vm)
      → IsPair es s
      → i + rest ≤ length es
      → j + rest ≤ length fs
      → (es' : List Value) × (h : ℕ → Option Object) × (append_cells rest i j
            (ptr (heap_ref r))
            (ptr (heap_ref r'))
            s
          ≡ ok tt (record s { heap = h }))
        × IsPair es' (record s { heap = h })
        × IsSplice rest i j es fs es'
  append_cells_lem zero i j es s p a b = (
    es,
    s.heap,
    none_copied i j s,
    p,
    record { same_length = refl; before = λ x k. refl; copied = λ x k. absurd (omega (arith, k)) },
  )
  append_cells_lem (suc rest) i j es s p a b =
      let (v, at) = found fs j (omega arith) in
      let (es', h, run, p', cut) =
        append_cells_lem rest (suc i) (suc j) (set es i v)
          (put q (elems_object els m d (set es i v)) s) (put-IsPair es (set es i v) s p)
          (omega (arith, length-set es i v)) (omega arith) in
      (
        es',
        h,
        one_copied rest i j es v s p (omega arith) at ∙ run,
        p',
        IsSplice-suc rest i j es fs es' v (omega arith) at cut,
      )
