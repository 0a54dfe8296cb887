-- ===== src/Classes/Parents.antt =====
-- Linking classes to their parents by name (vm_init_parent_pointers).
use nesrotom_run.Base.{
  ℕ, zero, suc, ◌≡◌, ◌∙◌, refl, ap, subst, inl, inr, true, Option, none, some, List, [], ◌∷◌, arith,
  get_elem?, Bool-cases,
}
use nesrotom_run.State.{Bytes, Class}
use nesrotom_run.Classes.{
  bytes_eq, find_class_from, find_class, parent_of, link_parents, init_parent_pointers,
}
use nesrotom_run.Classes.Lookup.{bytes_eq_refl, find_class-some}

-- What the parent name of a class says: it has no parent, or a class of that name in the table.
pub data ParentIs (cs : List Class) (c : Class) : Option ℕ → Type 0 where
  nameless : c.parent_name ≡ none → ParentIs cs c none
  empty : c.parent_name ≡ some [] → ParentIs cs c none
  named :
      {p : ℕ} {k : Class} {b : ℕ} {bs : Bytes}
      → c.parent_name ≡ some (b ∷ bs)
      → get_elem? cs p ≡ some k
      → k.name ≡ b ∷ bs
      → ParentIs cs c (some p)

named_like :
    (d c : Class) (name : Bytes) → some d ≡ some c → c.name ≡ name → bytes_eq d.name name ≡ true
named_like d c name at e =
    let same = ap (λ o. elim o [ some x ↦ x.name | none ↦ d.name ]) at ∙ e in
    rw same (bytes_eq_refl name)

find_class_from-finds :
    (k : ℕ) (name : Bytes) (cs : List Class) (i : ℕ) (c : Class)
    → get_elem? cs i ≡ some c
    → c.name ≡ name
    → (j : ℕ) × (find_class_from k name cs ≡ some j)
unfolding find_class_from
find_class_from-finds k name [] i c at e = absurd (ground arith)
find_class_from-finds k name (d ∷ cs) i c at e = elim (Bool-cases (bytes_eq d.name name)) [
  | inl t ↦ (k, rw t)
  | inr f ↦
      elim i
          as (λ i.
            get_elem? (d ∷ cs) i ≡ some c → (j : ℕ) × (find_class_from k name (d ∷ cs) ≡ some j)) [
              | zero ↦ λ at. absurd (ground (arith, f, named_like d c name at e))
              | suc i ↦
                  λ at. let (j, r) = find_class_from-finds (suc k) name cs i c at e in (j, rw f r)
            ]
        at
]

-- The parent that the name says exists: there is none to find, or a class of that name.
pub data HasParent (cs : List Class) (c : Class) : Type 0 where
  root : c.parent_name ≡ none → HasParent cs c
  unnamed : c.parent_name ≡ some [] → HasParent cs c
  known :
      (name : Bytes) (i : ℕ) (k : Class)
      → c.parent_name ≡ some name
      → get_elem? cs i ≡ some k
      → k.name ≡ name
      → HasParent cs c

find_class-finds :
    (name : Bytes) (cs : List Class) (i : ℕ) (c : Class)
    → get_elem? cs i ≡ some c
    → c.name ≡ name
    → (j : ℕ) × (find_class name cs ≡ some j)
unfolding find_class
find_class-finds name cs i c at e = find_class_from-finds 0 name cs i c at e

named_parent :
    (cs : List Class) (c : Class) (name : Bytes) (i : ℕ) (k : Class)
    → c.parent_name ≡ some name
    → get_elem? cs i ≡ some k
    → k.name ≡ name
    → (p : Option ℕ) × (parent_of cs c ≡ some p) × ParentIs cs c p
unfolding parent_of
named_parent cs c [] i k e at n = (none, rw e, empty e)
named_parent cs c (b ∷ bs) i k e at n =
    let (p, found) = find_class-finds (b ∷ bs) cs i k at n in
    let (d, there, called) = find_class-some (b ∷ bs) cs p found in
    (some p, ground (arith, e, found), named e there called)

parent_of_lem :
    (cs : List Class) (c : Class)
    → HasParent cs c
    → (p : Option ℕ) × (parent_of cs c ≡ some p) × ParentIs cs c p
unfolding parent_of
parent_of_lem cs c (root e) = (none, rw e, nameless e)
parent_of_lem cs c (unnamed e) = (none, rw e, empty e)
parent_of_lem cs c (known name i k e at n) = named_parent cs c name i k e at n

-- Every class of `cs` is in `linked` at its own index, unchanged but for the parent that its name says
-- in the table.
pub record IsLinked (table cs linked : List Class) : Type 0 where
  pub at_index :
      (i : ℕ) (c : Class)
      → get_elem? cs i ≡ some c
      → (p : Option ℕ) × (get_elem? linked i ≡ some (record c { parent = p })) × ParentIs table c p

IsLinked-cons :
    (table cs linked : List Class) (d : Class) (p : Option ℕ)
    → ParentIs table d p
    → IsLinked table cs linked
    → IsLinked table (d ∷ cs) (record d { parent = p } ∷ linked)
IsLinked-cons table cs linked d p h l = record { at_index = at_index }
  where
    at_index :
        (i : ℕ) (c : Class)
        → get_elem? (d ∷ cs) i ≡ some c
        → (q : Option ℕ) × (get_elem? (record d { parent = p } ∷ linked) i
            ≡ some (record c { parent = q }))
          × ParentIs table c q
    at_index zero c at =
        let same : d ≡ c = ap (λ o. elim o [ some x ↦ x | none ↦ d ]) at in
        (
          p,
          ap {A = Class} {B = Option Class} (λ x. some (record x { parent = p })) same,
          subst (λ x. ParentIs table x p) same h,
        )
    at_index (suc i) c at = l.at_index i c at

link_step :
    (table cs linked : List Class) (c : Class) (p : Option ℕ)
    → parent_of table c ≡ some p
    → link_parents table cs ≡ some linked
    → link_parents table (c ∷ cs) ≡ some (record c { parent = p } ∷ linked)
unfolding link_parents
link_step table cs linked c p e run = ground (arith, e, run)

link_parents-IsLinked :
    (table cs : List Class)
    → ((i : ℕ) (c : Class) → get_elem? cs i ≡ some c → HasParent table c)
    → (linked : List Class) × (link_parents table cs ≡ some linked) × IsLinked table cs linked
unfolding link_parents
link_parents-IsLinked table [] h =
    ([], refl, record { at_index = λ i c at. absurd (ground (arith, at)) })
link_parents-IsLinked table (c ∷ cs) h =
    let (p, e, is) = parent_of_lem table c (h 0 c refl) in
    let (linked, run, l) = link_parents-IsLinked table cs (λ i d at. h (suc i) d at) in
    (
      record c { parent = p } ∷ linked,
      link_step table cs linked c p e run,
      IsLinked-cons table cs linked c p is l,
    )

-- A table in which every class names no parent, or a parent that is in the table: the linking
-- succeeds, and every class keeps its place and its contents and is given as its parent none, or a
-- class of the name that it states.
pub init_parent_pointers-IsLinked :
    (cs : List Class)
    → ((i : ℕ) (c : Class) → get_elem? cs i ≡ some c → HasParent cs c)
    → (linked : List Class) × (init_parent_pointers cs ≡ some linked) × IsLinked cs cs linked
unfolding init_parent_pointers
init_parent_pointers-IsLinked cs h = link_parents-IsLinked cs cs h
