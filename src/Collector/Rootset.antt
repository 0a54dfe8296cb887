-- ===== src/Collector/Rootset.antt =====
-- The list of registered variables, gc_rootset_add and gc_rootset_remove_id of vm/memory.c. Under
-- `-g none` both do nothing.
use nesrotom_run.Base.{
  ℕ, ◌+◌, ◌%◌, ◌^◌, ◌≡◌, ◌≢◌, refl, ◌∙◌, List, [], ◌∷◌, ◌++◌, Bool, true, false, arith, ◌==◌,
  if◌then◌else◌,
}
use nesrotom_run.State.{Value}
use nesrotom_run.Collector.{Root}

-- What gc_rootset_remove_id leaves: a list that ends with NULL, or one whose last node still points
-- to the node that has been freed. On the empty list an assertion fails.
pub data Links : Type 0 where
  intact dangling : List Root → Links
  not_started : Links

-- gc_rootset_add: the new node comes first. The pair is gc_rootset_last_uid_g, which is returned,
-- and the list.
unfoldable pub rootset_add : Value → ℕ → List Root → ℕ × List Root
rootset_add obj last gs =
    ((last + 1) % 2 ^ 32, record { uid = (last + 1) % 2 ^ 32; obj = obj } ∷ gs)

unfoldable pub keep : Root → Links → Links
keep g (intact gs) = intact (g ∷ gs)
keep g (dangling gs) = dangling (g ∷ gs)
keep g not_started = not_started

-- The loop, from a node on: `first` says that the node is the head of the list. A node with the
-- number gets the contents of the next one, which is freed, and the loop goes on behind both; the
-- last node is freed itself, and only the head of the list is then set to NULL.
unfoldable pub remove_from : Bool → ℕ → List Root → Links
remove_from first id [] = intact []
remove_from first id (g ∷ []) =
    if g.uid == id then (if first then intact [] else dangling []) else intact (g ∷ [])
remove_from first id (g ∷ (n ∷ rest)) =
    let behind = remove_from false id rest in
    let next = remove_from false id (n ∷ rest) in if g.uid == id then keep n behind else keep g next

-- gc_rootset_remove_id
unfoldable pub rootset_remove_id : ℕ → List Root → Links
rootset_remove_id id [] = not_started
rootset_remove_id id (g ∷ gs) = remove_from true id (g ∷ gs)

-- No node of the list has the number.
pub data Absent (id : ℕ) : List Root → Type 0 where
  absent_nil : Absent id []
  absent_cons : {g : Root} {gs : List Root} → g.uid ≢ id → Absent id gs → Absent id (g ∷ gs)

remove_from-Absent :
    (first : Bool) (id : ℕ) (gs : List Root) → Absent id gs → remove_from first id gs ≡ intact gs
unfolding remove_from keep
remove_from-Absent first id [] absent_nil = refl
remove_from-Absent first id (g ∷ []) (absent_cons n a) = ground (arith, n)
remove_from-Absent first id (g ∷ (h ∷ gs)) (absent_cons n a) =
    ground (arith, n, remove_from-Absent false id (h ∷ gs) a)

-- A variable that is registered and then unregistered by its number leaves the list as it was, when
-- no other node has that number: natives that register and unregister in the manner of a stack are
-- safe.
pub rootset_remove_id-rootset_add :
    (obj : Value) (last : ℕ) (gs : List Root)
    → Absent ((last + 1) % 2 ^ 32) gs
    → rootset_remove_id ((rootset_add obj last gs).0) ((rootset_add obj last gs).1) ≡ intact gs
unfolding rootset_remove_id rootset_add remove_from keep
rootset_remove_id-rootset_add obj last [] a = ground arith
rootset_remove_id-rootset_add obj last (g ∷ gs) (absent_cons n a) =
    ground (arith, remove_from-Absent false ((last + 1) % 2 ^ 32) gs a)

-- A node that is not the last one is taken out, whatever stands before it.
remove_from-middle :
    (first : Bool) (id : ℕ) (xs : List Root) (g n : Root) (ys : List Root)
    → Absent id xs
    → g.uid ≡ id
    → Absent id ys
    → remove_from first id (xs ++ (g ∷ (n ∷ ys))) ≡ intact (xs ++ (n ∷ ys))
unfolding remove_from keep
remove_from-middle first id [] g n ys a e b = ground (arith, e, remove_from-Absent false id ys b)
remove_from-middle first id (x ∷ []) g n ys (absent_cons m a) e b =
    ground (arith, m, remove_from-middle false id [] g n ys absent_nil e b)
remove_from-middle first id (x ∷ (y ∷ xs)) g n ys (absent_cons m a) e b =
    ground (arith, m, remove_from-middle false id (y ∷ xs) g n ys a e b)

remove_from-last :
    (first : Bool) (id : ℕ) (x : Root) (xs : List Root) (g : Root)
    → Absent id (x ∷ xs)
    → g.uid ≡ id
    → remove_from first id (x ∷ (xs ++ (g ∷ []))) ≡ dangling (x ∷ xs)
unfolding remove_from keep
remove_from-last first id x [] g (absent_cons m a) e = ground (arith, m, e)
remove_from-last first id x (y ∷ xs) g (absent_cons m a) e =
    ground (arith, m, remove_from-last false id y xs g a e)

rootset_remove_id-nonempty :
    (id : ℕ) (xs : List Root) (g : Root) (ys : List Root)
    → rootset_remove_id id (xs ++ (g ∷ ys)) ≡ remove_from true id (xs ++ (g ∷ ys))
unfolding rootset_remove_id
rootset_remove_id-nonempty id [] g ys = refl
rootset_remove_id-nonempty id (x ∷ xs) g ys = refl

only : (id : ℕ) (g : Root) → g.uid ≡ id → remove_from true id (g ∷ []) ≡ intact []
unfolding remove_from
only id g e = ground (arith, e)

-- The list without the node between `xs` and `ys`.
unfoldable pub outcome : List Root → List Root → Links
outcome (x ∷ xs) [] = dangling (x ∷ xs)
outcome [] ys = intact ys
outcome (x ∷ xs) (y ∷ ys) = intact (x ∷ (xs ++ (y ∷ ys)))

-- Of a list whose numbers differ, unregistering a number takes out its node and no other when that
-- node is not the last; when it is the last but not the only one, the node before it keeps pointing
-- to the freed memory.
pub rootset_remove_id_lem :
    (id : ℕ) (xs : List Root) (g : Root) (ys : List Root)
    → Absent id xs
    → g.uid ≡ id
    → Absent id ys
    → rootset_remove_id id (xs ++ (g ∷ ys)) ≡ outcome xs ys
unfolding outcome
rootset_remove_id_lem id [] g (n ∷ ys) a e (absent_cons m b) =
    rootset_remove_id-nonempty id [] g (n ∷ ys) ∙ remove_from-middle true id [] g n ys a e b
rootset_remove_id_lem id (x ∷ xs) g (n ∷ ys) a e (absent_cons m b) =
    rootset_remove_id-nonempty id (x ∷ xs) g (n ∷ ys)
    ∙ remove_from-middle true id (x ∷ xs) g n ys a e b
rootset_remove_id_lem id [] g [] a e b = rootset_remove_id-nonempty id [] g [] ∙ only id g e
rootset_remove_id_lem id (x ∷ xs) g [] a e b =
    rootset_remove_id-nonempty id (x ∷ xs) g [] ∙ remove_from-last true id x xs g a e
